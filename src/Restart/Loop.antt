-- ===== src/Restart/Loop.antt =====
-- A request is acted on once it is due, and never twice.
use crucible_analytic.Prelude.{
  ℕ, ◌+◌, ◌≤◌, ◌≡◌, refl, ◌∙◌, Bool, true, false, ◌&&◌, List, [], ◌∷◌, Option, none, some, Bytes,
  unit, arith, ltb, leb, if◌then◌else◌, Bool-cases, inl, inr,
}
use crucible_analytic.Restart.Watcher.{
  State, Line, Read, row, may_not_read, failed, Question, Stepped, satisfied, asks_role, who_answer,
  ask_role, report, judge, found, read_request, when_started, with_role, step,
}
use crucible_analytic.Restart.Service.{
  Service, Event, ticks, row_becomes, polls, crashes, read_from, started_from, answered, restarted,
  poll, happen, happen_all, first_process,
}

-- The process has not started at the request or behind it.
unfoldable pub is_owed : Option ℕ → ℕ → Bool
is_owed none started = false
is_owed (some requested) started = ltb started requested

unfoldable pub is_due : Option ℕ → ℕ → Bool
is_due none now = false
is_due (some requested) now = leb requested now

-- What the role may read, as far as this step knows.
unfoldable pub answers_may : Option (Bytes × Bool) → Bool
answers_may none = false
answers_may (some (role, may)) = may

unfoldable pub may_read : ℕ → State → Question → Bool
may_read recheck st q = if asks_role recheck st q.clock then answers_may q.who else st.permitted

module _ (parse_request : Bytes → Option ℕ) where
  -- The time that a row asks for.
  unfoldable pub requested_in : Option Bytes → Option ℕ
  requested_in none = none
  requested_in (some value) = parse_request value

  unfoldable pub asks_exit : Option ℕ → Read → Bool
  asks_exit (some started) (row value now) =
      is_owed (requested_in value) started && is_due (requested_in value) now
  asks_exit _ _ = false

  report-go : (st : State) (value : Bytes) (line : Line) → (report st value line).go ≡ false
  unfolding report
  report-go st value line = ground arith

  judge-go :
      (st : State) (started now : ℕ) (value : Bytes) (at : Option ℕ)
      → (judge parse_request st started now value at).go ≡ (is_owed at started && is_due at now)
  unfolding judge report is_owed is_due
  judge-go st started now value none = ground arith
  judge-go st started now value (some r) = ground arith

  found-go :
      (st : State) (started now : ℕ) (value : Option Bytes)
      → (found parse_request st started value now).go
        ≡ (is_owed (requested_in value) started && is_due (requested_in value) now)
  unfolding found requested_in is_owed
  found-go st started now none = refl
  found-go st started now (some v) = judge-go st started now v (parse_request v)

  read_request-go :
      (st : State) (q : Question) (started : ℕ) (r : Read)
      → (read_request parse_request st q started r).go ≡ asks_exit (some started) r
  unfolding read_request asks_exit
  read_request-go st q started may_not_read = ground arith
  read_request-go st q started failed = ground arith
  read_request-go st q started (row value now) =
      ground (arith, found-go (record st { read_warned = false }) started now value)

  when_started-go :
      (st : State) (q : Question) (permitted : Bool) (started : Option ℕ)
      → (when_started parse_request st q permitted started).go
        ≡ (permitted && asks_exit started q.read)
  unfolding when_started asks_exit
  when_started-go st q false started = refl
  when_started-go st q true none = refl
  when_started-go st q true (some at) = read_request-go st q at q.read

  with_role-go :
      (s : Stepped) (q : Question)
      → (with_role parse_request s q).go
        ≡ (s.go && (s.state.permitted && asks_exit q.started q.read))
  unfolding with_role
  with_role-go s q = ground (arith, when_started-go s.state q s.state.permitted q.started)

  who_answer-go :
      (st : State) (stopping : Bool) (who : Option (Bytes × Bool)) (b : Bool)
      → ((who_answer st stopping who).go && ((who_answer st stopping who).state.permitted && b))
        ≡ (answers_may who && b)
  unfolding who_answer answers_may
  who_answer-go st stopping none b = ground arith
  who_answer-go st stopping (some (role, may)) b = refl

  ask_role-go :
      (recheck : ℕ) (st : State) (q : Question) (b : Bool)
      → ((ask_role recheck st q).go && ((ask_role recheck st q).state.permitted && b))
        ≡ (may_read recheck st q && b)
  unfolding ask_role may_read
  ask_role-go recheck st q b =
      ground (arith, who_answer-go (record st { asked_at = q.asked }) q.stopping q.who b)

  -- Whatever the watcher has logged and learned before, a step exits if and only if the role may read,
  -- the start is known, and the row holds a time that the database's clock has reached and the
  -- process has not.
  pub step-go :
      (recheck : ℕ) (st : State) (q : Question)
      → (step parse_request recheck st q).go ≡ (may_read recheck st q && asks_exit q.started q.read)
  unfolding step
  step-go recheck st q =
      with_role-go (ask_role recheck st q) q ∙ ask_role-go recheck st q (asks_exit q.started q.read)

  owed-answered :
      (v : Service) (started : Option ℕ) (r : Read)
      → asks_exit (started_from v started) (read_from v r) ≡ true
      → (is_owed (requested_in v.value) v.started && is_due (requested_in v.value) v.clock) ≡ true
  unfolding asks_exit started_from read_from
  owed-answered v none r e = cc
  owed-answered v (some at) (row value now) e = e
  owed-answered v (some at) may_not_read e = cc
  owed-answered v (some at) failed e = cc

  not_owed : (at : Option ℕ) (now n : ℕ) → is_due at now ≡ true → is_owed at (now + n) ≡ false
  unfolding is_due is_owed
  not_owed none now n d = refl
  not_owed (some r) now n d = ground (arith, d)

  owed-later :
      (at : Option ℕ) (now later : ℕ)
      → now ≤ later
      → is_owed at now ≡ false
      → is_owed at later ≡ false
  unfolding is_owed
  owed-later none now later h e = refl
  owed-later (some r) now later h e = ground (arith, e)

  record IsAnswered (v : Service) : Type 0 where
    past : v.started ≤ v.clock
    counted : v.exits + unit (is_owed (requested_in v.value) v.started) ≤ v.writes

  poll-IsAnswered :
      (recheck : ℕ) (v : Service) (q : Question) (n : ℕ)
      → IsAnswered v
      → IsAnswered (poll parse_request recheck v q n)
  unfolding poll restarted answered
  poll-IsAnswered recheck v q n i =
      elim (Bool-cases (step parse_request recheck v.state (answered v q)).go) [
        | inr stays ↦ rw (stays) (record { past = i.past; counted = i.counted })
        | inl exits ↦ rw (exits) (
            let asked = step-go recheck v.state (answered v q) in
            let owed = owed-answered v q.started q.read (ground (arith, exits, asked)) in
            record {
              past = omega arith;
              counted = ground (arith, i.counted, owed, not_owed (requested_in v.value) v.clock n);
            })
      ]

  happen-IsAnswered :
      (recheck : ℕ) (v : Service) (e : Event)
      → IsAnswered v
      → IsAnswered (happen parse_request recheck v e)
  unfolding happen restarted
  happen-IsAnswered recheck v (ticks n) i = record {
    past = omega (arith, i.past);
    counted = i.counted;
  }
  happen-IsAnswered recheck v (row_becomes value) i = record {
    past = i.past;
    counted = ground (arith, i.counted);
  }
  happen-IsAnswered recheck v (polls q n) i = poll-IsAnswered recheck v q n i
  happen-IsAnswered recheck v (crashes n) i = record {
    past = omega arith;
    counted =
        ground
          (arith, i.counted, i.past, owed-later (requested_in v.value) v.started (v.clock + n));
  }

  happen_all-IsAnswered :
      (recheck : ℕ) (v : Service) (es : List Event)
      → IsAnswered v
      → IsAnswered (happen_all parse_request recheck v es)
  unfolding happen_all
  happen_all-IsAnswered recheck v [] i = i
  happen_all-IsAnswered recheck v (e ∷ es) i =
      happen_all-IsAnswered recheck (happen parse_request recheck v e) es
        (happen-IsAnswered recheck v e i)

  -- From a start that nobody has asked to restart, whatever the row becomes, however often it is
  -- asked for, whatever fails and whenever the process ends by itself: the process exits for the
  -- panel at most as often as the row is written.
  pub exits-happen_all :
      (recheck now : ℕ) (es : List Event)
      → (happen_all parse_request recheck (first_process now) es).exits
        ≤ (happen_all parse_request recheck (first_process now) es).writes
  unfolding requested_in is_owed
  exits-happen_all recheck now es =
      let start : IsAnswered (first_process now) = record {
        past = omega arith;
        counted = omega arith;
      } in
      let behind = happen_all-IsAnswered recheck (first_process now) es start in
      omega (arith, behind.counted)

  -- Once the database's clock has reached the time in the row, one step that may read, knows the
  -- start and is answered leaves a process for which the request is satisfied.
  pub poll-satisfied :
      (recheck : ℕ) (v : Service) (q : Question) (n requested : ℕ)
      → requested_in v.value ≡ some requested
      → requested ≤ v.clock
      → (at : ℕ) → q.started ≡ some at
      → (x : Option Bytes) (y : ℕ) → q.read ≡ row x y
      → may_read recheck v.state (answered v q) ≡ true
      → satisfied requested (poll parse_request recheck v q n).started ≡ true
  unfolding poll restarted answered asks_exit started_from read_from is_owed is_due
  poll-satisfied recheck v q n requested asked due at known x y answer may =
      ground (arith, step-go recheck v.state (answered v q), asked, due, known, answer, may)
