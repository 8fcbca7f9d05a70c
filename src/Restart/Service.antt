-- ===== src/Restart/Service.antt =====
-- A service under its supervisor: the row that the panel writes, the watcher, and the process that
-- takes the place of one that exits. A backstop that ends a hanging shutdown is an exit too.
use crucible_analytic.Prelude.{ℕ, ◌+◌, List, [], ◌∷◌, Option, none, some, Bytes, if◌then◌else◌}
use crucible_analytic.Restart.Watcher.{
  State, new_state, Read, row, may_not_read, failed, Question, step,
}

-- The clock is the database's; exits and writes count.
pub record Service : Type 0 where
  pub clock : ℕ
  pub value : Option Bytes
  pub state : State
  pub started : ℕ
  pub exits : ℕ
  pub writes : ℕ

-- A step's question is answered from the service where it asks for the row, the clock or the start;
-- the number is how long the next process takes to start.
pub data Event : Type 0 where
  ticks : ℕ → Event
  row_becomes : Option Bytes → Event
  polls : Question → ℕ → Event
  crashes : ℕ → Event

unfoldable pub read_from : Service → Read → Read
read_from v (row value now) = row v.value v.clock
read_from v may_not_read = may_not_read
read_from v failed = failed

unfoldable pub started_from : Service → Option ℕ → Option ℕ
started_from v none = none
started_from v (some at) = some v.started

unfoldable pub answered : Service → Question → Question
answered v q = record q { read = read_from v q.read; started = started_from v q.started }

-- The next process, behind the time that it took.
unfoldable pub restarted : Service → ℕ → Service
restarted v n = record v { clock = v.clock + n; started = v.clock + n; state = new_state }

module _ (parse_request : Bytes → Option ℕ) (recheck : ℕ) where
  unfoldable pub poll : Service → Question → ℕ → Service
  poll v q n =
      let s = step parse_request recheck v.state (answered v q) in
      if s.go then record (restarted v n) { exits = v.exits + 1 } else record v { state = s.state }

  unfoldable pub happen : Service → Event → Service
  happen v (ticks n) = record v { clock = v.clock + n }
  happen v (row_becomes value) = record v { value = value; writes = v.writes + 1 }
  happen v (polls q n) = poll v q n
  happen v (crashes n) = restarted v n

  unfoldable pub happen_all : Service → List Event → Service
  happen_all v [] = v
  happen_all v (e ∷ es) = happen_all (happen v e) es

-- A process that starts where nobody has asked.
abbrev pub first_process : ℕ → Service
first_process now = record {
  clock = now;
  value = none;
  state = new_state;
  started = now;
  exits = 0;
  writes = 0;
}
