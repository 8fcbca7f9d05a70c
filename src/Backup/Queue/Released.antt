-- ===== src/Backup/Queue/Released.antt =====
-- The queue never stays occupied, and a run of the upgrader ends what it claims.
use crucible_analytic.Prelude.{
  ℕ, ◌+◌, ◌*◌, ◌/◌, ◌≤◌, ◌<◌, ◌≡◌, ◌≢◌, refl, true, false, List, [], ◌∷◌, ◌++◌, Option, none, some,
  Bytes, any, All, count_if, arith, Option-cases, Result, ok, err, inl, inr,
}
use crucible_analytic.Prelude.Int.{ℤ}
use crucible_analytic.RateStore.Window.{second}
use crucible_analytic.Backup.Sets.{
  sets, normalise, known_names, unknown_names, sort_strings, insert_string, validate_sets,
}
use crucible_analytic.Backup.Sets.Kinds.{validate_sets_lem}
use crucible_analytic.Backup.Queue.{
  failed, Work, stale_after, Actor, take, Request, Table, QueueError, in_flight_state, in_flight,
  kind_fields, write, ask, claim_rows, claim, finish, expire_rows, expire_stale, Carried,
  outcome_of, refused_outcome, Times, conclude, run_once, validate_request,
}
use crucible_analytic.Backup.Queue.Rows.{
  any-count_if, finish_rows-claim_rows, expire_rows-in_flight, expire_rows-late,
}
use crucible_analytic.Backup.Queue.OneInFlight.{
  Statement, IsBy, IsQueue, perform_all, empty_table, perform_all-IsQueue, empty_table-IsQueue,
}

sorted_cons : (s : Bytes) (ss : List Bytes) → insert_string s ss ≢ []
unfolding insert_string
sorted_cons s [] e = cc
sorted_cons s (t ∷ ss) e = ground (arith, e)

-- A request that names something is not written as an empty one.
normalise_names :
    (known : List Bytes) (n : Bytes) (names : List Bytes)
    → (known ++ sort_strings (unknown_names known (n ∷ names))) ≢ []
unfolding unknown_names sort_strings
normalise_names [] n names e = sorted_cons n _ e
normalise_names (k ∷ known) n names e = cc

kind_fields-take : (names : List Bytes) → names ≢ [] → kind_fields take names none ≡ true
unfolding kind_fields
kind_fields-take [] h = absurd (h refl)
kind_fields-take (n ∷ names) h = refl

write-free :
    (now : ℕ) (a : Actor) (operation_id : Bytes) (w : Work) (names : List Bytes) (target : Option ℤ)
    (t : Table)
    → kind_fields w names target ≡ true
    → any in_flight t.rows ≡ false
    → (r : Request) × ((write now a operation_id w names target t).1 ≡ ok r)
unfolding write
write-free now a operation_id w names target t k f = rw (k, f, write) (_, refl)

-- With nothing in flight, a request that is valid is written.
ask-free :
    (now : ℕ) (a : Actor) (operation_id : Bytes) (names : List Bytes) (t : Table)
    → count_if in_flight t.rows ≡ 0
    → names ≢ []
    → validate_sets names ≡ ok tt
    → (r : Request) × ((ask now a operation_id names t).1 ≡ ok r)
unfolding ask write normalise
ask-free now a operation_id [] t free some_name valid = absurd (some_name refl)
ask-free now a operation_id (n ∷ names) t free some_name valid =
    let named =
      kind_fields-take (normalise (n ∷ names))
        (normalise_names (known_names sets (n ∷ names)) n names) in
    let nobody = any-count_if in_flight t.rows in
    rw (valid, ask)
      (write-free now a operation_id take (normalise (n ∷ names)) none t named
        (ground (arith, nobody, free)))

conclude-ends : (c : Carried) → in_flight_state (outcome_of c).state ≡ false
unfolding outcome_of in_flight_state
conclude-ends c = ground arith

refused-ends : in_flight_state failed ≡ false
unfolding in_flight_state
refused-ends = refl

conclude-free :
    (T : ℕ) (times : Times) (by : Bytes) (text : QueueError → Bytes) (carry_out : Request → Carried)
    (t : Table)
    → IsQueue T t
    → (rows : List Request) (q : Request)
    → let swept = expire_rows times.swept_at (stale_after / second * second) t.rows in
      claim_rows times.claimed_at by swept ≡ some (rows, q)
      → count_if in_flight swept ≤ count_if in_flight t.rows
      → (answer : Result QueueError (Unit {0})) → validate_request q ≡ answer
      → count_if in_flight (run_once times by text carry_out t).0.rows ≡ 0
unfolding run_once expire_stale claim conclude finish
conclude-free T times by text carry_out t v rows q e few (err x) a =
    let swept = expire_rows times.swept_at (stale_after / second * second) t.rows in
    let ended =
      finish_rows-claim_rows times.claimed_at times.finished_at by (refused_outcome (text x)) swept
        rows q refused-ends e in
    rw (e, a, run_once, claim) (ground (arith, ended, few, v.one))
conclude-free T times by text carry_out t v rows q e few (ok x) a =
    let swept = expire_rows times.swept_at (stale_after / second * second) t.rows in
    let ended =
      finish_rows-claim_rows times.claimed_at times.finished_at by (outcome_of (carry_out q)) swept
        rows q (conclude-ends (carry_out q)) e in
    rw (e, a, run_once, claim) (ground (arith, ended, few, v.one))

-- Behind a run of the upgrader that comes late enough nothing is in flight.
run_once-free :
    (T : ℕ) (times : Times) (by : Bytes) (text : QueueError → Bytes) (carry_out : Request → Carried)
    (t : Table)
    → IsQueue T t
    → T + stale_after < times.swept_at
    → count_if in_flight (run_once times by text carry_out t).0.rows ≡ 0
unfolding run_once expire_stale claim conclude finish
run_once-free T times by text carry_out t v late =
    let swept = expire_rows times.swept_at (stale_after / second * second) t.rows in
    let few = expire_rows-in_flight times.swept_at (stale_after / second * second) t.rows in
    elim (Option-cases (claim_rows times.claimed_at by swept)) [
      | inl e ↦
          rw (e, run_once, claim)
            (expire_rows-late times.swept_at (stale_after / second * second) T by times.claimed_at
              t.rows v.timed late e)
      | inr ((rows, q), e) ↦
          conclude-free T times by text carry_out t v rows q e few (validate_request q) refl
    ]

-- No crash blocks the queue: whatever statements have reached the table, behind a run of the upgrader
-- that sweeps more than an hour after the last claim, and whatever that run makes of the request
-- that it finds, every request for valid sets is accepted and written.
pub ask-run_once :
    (T : ℕ) (ss : List Statement) (times : Times) (by : Bytes) (text : QueueError → Bytes)
    (carry_out : Request → Carried) (now : ℕ) (a : Actor) (operation_id : Bytes)
    (names : List Bytes)
    → All (IsBy T) ss
    → T + stale_after < times.swept_at
    → validate_sets names ≡ ok tt
    → let t = (run_once times by text carry_out (perform_all empty_table ss)).0 in
      (r : Request) × ((ask now a operation_id names t).1 ≡ ok r)
ask-run_once T ss times by text carry_out now a operation_id names h late valid =
    let v = perform_all-IsQueue T empty_table ss h (empty_table-IsQueue T) in
    let free = run_once-free T times by text carry_out (perform_all empty_table ss) v late in
    ask-free now a operation_id names _ free ((validate_sets_lem names).0 valid).0 valid
