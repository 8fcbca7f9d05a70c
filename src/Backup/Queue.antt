-- ===== src/Backup/Queue.antt =====
-- internal/backup/queue.go with the table of internal/backup/schema.sql, and Runner.RunOnce of
-- internal/backup/runner.go. A statement of the database is one step on the table, whose rows stand
-- in the order of their ids; a statement that fails takes an id all the same. What the database does
-- with a connection that is lost is left out: every statement is answered.
mod Rows
pub mod OneInFlight
pub mod Released
use crucible_analytic.Prelude.{
  ℕ, suc, ◌+◌, ◌*◌, ◌/◌, Bool, true, false, not, ◌&&◌, ◌||◌, List, [], ◌∷◌, ◌++◌, map, Option, none,
  some, Bytes, any, count_if, ltb, ◌==◌, if◌then◌else◌, length, Result, ok, err, guard, ◌>>=◌, ◌>>◌,
  codes,
}
use crucible_analytic.Prelude.Int.{ℤ, is_positive}
use crucible_analytic.RateStore.Window.{second}
use crucible_analytic.Backup.Sets.{SetError, normalise, validate_sets}

pub data State : Type 0 where
  pending running succeeded failed : State

abbrev pub stale_after : ℕ
stale_after = 60 * 60 * second

pub record Actor : Type 0 where
  pub kind : Bytes
  pub id : Option ℤ
  pub label : Bytes

-- `other` is a kind of work that this build does not know.
pub data Work : Type 0 where
  take verify restore : Work
  other : Bytes → Work

pub record Request : Type 0 where
  pub id : ℕ
  pub requested_at : ℕ
  pub actor : Actor
  pub operation_id : Bytes
  pub work : Work
  pub sets : List Bytes
  pub target_id : Option ℤ
  pub state : State
  pub claimed_at : Option ℕ
  pub claimed_by : Bytes
  pub finished_at : Option ℕ
  pub error_chain : Bytes
  pub backup_id : Option ℤ
  pub result : Bytes

-- panel_backup_requests and its identity column.
pub record Table : Type 0 where
  pub rows : List Request
  pub next_id : ℕ

pub data QueueError : Type 0 where
  invalid_sets : SetError → QueueError
  no_backup_named already_in_flight nothing_to_do constraint_violated unknown_work : QueueError

unfoldable pub in_flight_state : State → Bool
in_flight_state pending = true
in_flight_state running = true
in_flight_state succeeded = false
in_flight_state failed = false

unfoldable pub in_flight : Request → Bool
unfolding in_flight_state
in_flight r = in_flight_state r.state

unfoldable pub is_pending : State → Bool
is_pending pending = true
is_pending running = false
is_pending succeeded = false
is_pending failed = false

-- The constraints on the kind of work: `al` names sets and no target, the others a target and no
-- sets.
unfoldable pub kind_fields : Work → List Bytes → Option ℤ → Bool
kind_fields take (s ∷ sets) none = true
kind_fields verify [] (some target) = true
kind_fields restore [] (some target) = true
kind_fields _ _ _ = false

abbrev pub lift_error {ℓ} : {A : Type ℓ} → Result SetError A → Result QueueError A
lift_error (err e) = err (invalid_sets e)
lift_error (ok a) = ok a

-- The INSERT: the checks of the table, then the index on the one request in flight.
unfoldable pub write :
    ℕ → Actor → Bytes → Work → List Bytes → Option ℤ → Table → Table × Result QueueError Request
write now a operation_id work sets target t =
    let r : Request = record {
      id = t.next_id;
      requested_at = now;
      actor = a;
      operation_id = operation_id;
      work = work;
      sets = sets;
      target_id = target;
      state = pending;
      claimed_at = none;
      claimed_by = [];
      finished_at = none;
      error_chain = [];
      backup_id = none;
      result = [];
    } in
    let taken : Table = record t { next_id = suc t.next_id } in
    if not (kind_fields work sets target)
    then (taken, err constraint_violated)
    else if any in_flight t.rows
    then (taken, err already_in_flight)
    else (record taken { rows = t.rows ++ r ∷ [] }, ok r)

unfoldable pub ask : ℕ → Actor → Bytes → List Bytes → Table → Table × Result QueueError Request
ask now a operation_id sets t = elim (validate_sets sets) [
  | err e ↦ (t, err (invalid_sets e))
  | ok _ ↦ write now a operation_id take (normalise sets) none t
]

unfoldable pub ask_restore : ℕ → Actor → Bytes → ℤ → Table → Table × Result QueueError Request
ask_restore now a operation_id target t =
    if is_positive target
    then write now a operation_id restore [] (some target) t
    else (t, err no_backup_named)

unfoldable pub ask_verify : ℕ → Actor → Bytes → ℤ → Table → Table × Result QueueError Request
ask_verify now a operation_id target t =
    if is_positive target
    then write now a operation_id verify [] (some target) t
    else (t, err no_backup_named)

-- The row with the greatest id.
unfoldable pub latest : List Request → Option Request
latest [] = none
latest (r ∷ rows) = let rest = latest rows in elim rest [ none ↦ some r | some last ↦ some last ]

abbrev pub claimed : ℕ → Bytes → Request → Request
claimed now by r = record r { state = running; claimed_at = some now; claimed_by = by }

-- The UPDATE of the pending row with the least id.
unfoldable pub claim_rows : ℕ → Bytes → List Request → Option (List Request × Request)
claim_rows now by [] = none
claim_rows now by (r ∷ rows) =
    let rest = claim_rows now by rows in
    if is_pending r.state
    then some (claimed now by r ∷ rows, claimed now by r)
    else elim rest [ none ↦ none | some (rows', q) ↦ some (r ∷ rows', q) ]

unfoldable pub validate_request : Request → Result QueueError (Unit {0})
validate_request r = elim r.work [
  | take ↦ lift_error (validate_sets r.sets)
  | verify ↦ ok tt
  | restore ↦ ok tt
  | other w ↦ err unknown_work
]

-- The row that was claimed, if any, and what validateRequest says of it.
unfoldable pub claim : ℕ → Bytes → Table → Table × (Option Request × Result QueueError (Unit {0}))
claim now by t = elim (claim_rows now by t.rows) [
  | none ↦ (t, (none, err nothing_to_do))
  | some (rows, r) ↦ (record t { rows = rows }, (some r, validate_request r))
]

pub record Outcome : Type 0 where
  pub state : State
  pub cause : Bytes  -- the text of the error, empty when there is none
  pub result : Bytes
  pub backup_id : Option ℤ

abbrev pub finished : ℕ → Outcome → Request → Request
finished now o r = record r {
  state = o.state;
  finished_at = some now;
  error_chain = o.cause;
  result = o.result;
  backup_id = o.backup_id;
}

unfoldable pub finish_rows : ℕ → ℕ → Outcome → List Request → List Request
finish_rows now id o [] = []
finish_rows now id o (r ∷ rows) =
    let rest = finish_rows now id o rows in if r.id == id then finished now o r ∷ rest else r ∷ rest

unfoldable pub finish : ℕ → ℕ → Outcome → Table → Table
finish now id o t = record t { rows = finish_rows now id o t.rows }

-- `state = 'running' AND claimed_at < now() - age`.
unfoldable pub is_stale : ℕ → ℕ → State → Option ℕ → Bool
is_stale now age running (some at) = ltb (at + age) now
is_stale now age _ _ = false

abbrev pub expired : ℕ → Request → Request
expired now r = record r {
  state = failed;
  finished_at = some now;
  error_chain = codes "the upgrader claimed this and never finished";
}

unfoldable pub expire_rows : ℕ → ℕ → List Request → List Request
expire_rows now age [] = []
expire_rows now age (r ∷ rows) =
    let rest = expire_rows now age rows in
    if is_stale now age r.state r.claimed_at then expired now r ∷ rest else r ∷ rest

-- The age is written in whole seconds. The number of rows that were freed is the second component.
unfoldable pub expire_stale : ℕ → ℕ → Table → Table × ℕ
expire_stale now age t =
    let whole = age / second * second in
    (
      record t { rows = expire_rows now whole t.rows },
      count_if (λ (r : Request). is_stale now whole r.state r.claimed_at) t.rows,
    )

-- What carrying out a request gives: an outcome whose state and cause are still to be set, and the
-- error if there is one.
pub record Carried : Type 0 where
  pub outcome : Outcome
  pub error : Option Bytes

unfoldable pub outcome_of : Carried → Outcome
outcome_of c = elim c.error [
  | none ↦ record c.outcome { state = succeeded; cause = [] }
  | some e ↦ record c.outcome { state = failed; cause = e }
]

-- The outcome of a request that this build cannot carry out, with the text of the error.
abbrev pub refused_outcome : Bytes → Outcome
refused_outcome e = record { state = failed; cause = e; result = []; backup_id = none }

-- The clock readings of one run: the sweep, the claim and the end.
pub record Times : Type 0 where
  pub swept_at : ℕ
  pub claimed_at : ℕ
  pub finished_at : ℕ

unfoldable pub conclude :
    ℕ
    → (QueueError → Bytes)
    → (Request → Carried)
    → Table
    → Option Request × Result QueueError (Unit {0})
    → Table × Option Request
conclude now text carry_out t (none, _) = (t, none)
conclude now text carry_out t (some r, err e) =
    (finish now r.id (refused_outcome (text e)) t, some r)
conclude now text carry_out t (some r, ok _) =
    (finish now r.id (outcome_of (carry_out r)) t, some r)

unfoldable pub run_once :
    Times → Bytes → (QueueError → Bytes) → (Request → Carried) → Table → Table × Option Request
run_once times by text carry_out t =
    let swept = (expire_stale times.swept_at stale_after t).0 in
    let (t', answer) = claim times.claimed_at by swept in
    conclude times.finished_at text carry_out t' answer
