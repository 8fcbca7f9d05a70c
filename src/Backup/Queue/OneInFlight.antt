-- ===== src/Backup/Queue/OneInFlight.antt =====
-- One request is in flight at a time, and the queue never stays occupied.
use mathlib.Core.Option.{some-injective}
use crucible_analytic.Prelude.{
  subst, ℕ, ◌*◌, ◌/◌, ◌≤◌, ◌≡◌, refl, ap, false, List, [], ◌∷◌, Option, none, some, Bytes, any, All,
  All-append, count_if, count_if-append, arith, ◌==◌, Bool-cases, Option-cases, Result-cases, inl,
  inr,
}
use crucible_analytic.Prelude.Int.{ℤ, is_positive}
use crucible_analytic.RateStore.Window.{second}
use crucible_analytic.Backup.Sets.{sets, normalise, validate_sets}
use crucible_analytic.Backup.Queue.{
  pending, Actor, Work, take, verify, restore, Request, Table, Outcome, in_flight_state, in_flight,
  is_pending, kind_fields, write, ask, ask_restore, ask_verify, claimed, claim_rows, claim,
  finish_rows, finish, is_stale, expire_rows, expire_stale,
}
use crucible_analytic.Backup.Queue.Rows.{
  IsTimed, any-count_if, claim_rows-in_flight, finish_rows-in_flight, expire_rows-in_flight,
}

-- The statements of the panel and of any number of upgraders, one after the other.
pub data Statement : Type 0 where
  asks : ℕ → Actor → Bytes → List Bytes → Statement
  asks_restore asks_verify : ℕ → Actor → Bytes → ℤ → Statement
  claims : ℕ → Bytes → Statement
  finishes : ℕ → ℕ → Outcome → Statement
  expires : ℕ → ℕ → Statement

unfoldable pub perform : Table → Statement → Table
unfolding ask ask_restore ask_verify claim finish expire_stale
perform t (asks now a operation_id sets) = (ask now a operation_id sets t).0
perform t (asks_restore now a operation_id target) = (ask_restore now a operation_id target t).0
perform t (asks_verify now a operation_id target) = (ask_verify now a operation_id target t).0
perform t (claims now by) = (claim now by t).0
perform t (finishes now id o) = finish now id o t
perform t (expires now age) = (expire_stale now age t).0

unfoldable pub perform_all : Table → List Statement → Table
unfolding perform
perform_all t [] = t
perform_all t (s ∷ ss) = perform_all (perform t s) ss

-- A claim is made by the time, and a request is finished with one of the two ends.
abbrev pub IsBy : ℕ → Statement → Type 0
IsBy T (claims now by) = now ≤ T
IsBy T (finishes now id o) = in_flight_state o.state ≡ false
IsBy T _ = Unit

abbrev pub empty_table : Table
empty_table = record { rows = []; next_id = 1 }

pub record IsQueue (T : ℕ) (t : Table) : Type 0 where
  pub one : count_if in_flight t.rows ≤ 1
  pub timed : All (IsTimed T) t.rows

write-IsQueue :
    (T now : ℕ) (a : Actor) (operation_id : Bytes) (w : Work) (sets : List Bytes)
    (target : Option ℤ) (t : Table)
    → IsQueue T t
    → IsQueue T (write now a operation_id w sets target t).0
unfolding write
write-IsQueue T now a operation_id w sets target t v =
    elim (Bool-cases (kind_fields w sets target)) [
      | inr e ↦ rw e (record { one = v.one; timed = v.timed })
      | inl e ↦ elim (Bool-cases (any in_flight t.rows)) [
        | inl busy ↦ rw (e, busy) (record { one = v.one; timed = v.timed })
        | inr free ↦
            rw (e, free)
              (record {
                one = ground (
                  arith,
                  free,
                  any-count_if in_flight t.rows,
                  count_if-append in_flight t.rows (new_row ∷ []),
                );
                timed = All-append (IsTimed T) t.rows (new_row ∷ []) v.timed ((λ running. cc), tt);
              })
      ]
    ]
  where
    new_row : Request
    new_row = record {
      id = t.next_id;
      requested_at = now;
      actor = a;
      operation_id = operation_id;
      work = w;
      sets = sets;
      target_id = target;
      state = pending;
      claimed_at = none;
      claimed_by = [];
      finished_at = none;
      error_chain = [];
      backup_id = none;
      result = [];
    }

claim_rows-IsTimed :
    (T now : ℕ) (by : Bytes) (rows rows' : List Request) (q : Request)
    → now ≤ T
    → All (IsTimed T) rows
    → claim_rows now by rows ≡ some (rows', q)
    → All (IsTimed T) rows'
unfolding claim_rows
claim_rows-IsTimed T now by [] rows' q le a e = cc
claim_rows-IsTimed T now by (r ∷ rows) rows' q le a e = elim (Bool-cases (is_pending r.state)) [
  | inl p ↦
      let taken : some (claimed now by r ∷ rows, claimed now by r) ≡ some (rows', q) = rw p at e in
      let same = ap (λ (x : List Request × Request). x.0) (some-injective _ _ taken) in
      subst (All (IsTimed T)) same ((λ running. (now, refl, le)), a.1)
  | inr p ↦ elim (Option-cases (claim_rows now by rows)) [
    | inl n ↦ let refused = rw (p, n) at e in cc
    | inr ((rest, x), s) ↦
        let taken : some (r ∷ rest, x) ≡ some (rows', q) = rw (p, s) at e in
        let same = ap (λ (x : List Request × Request). x.0) (some-injective _ _ taken) in
        subst (All (IsTimed T)) same (a.0, claim_rows-IsTimed T now by rows rest x le a.1 s)
  ]
]

finish_rows-IsTimed :
    (T now id : ℕ) (o : Outcome) (rows : List Request)
    → in_flight_state o.state ≡ false
    → All (IsTimed T) rows
    → All (IsTimed T) (finish_rows now id o rows)
unfolding finish_rows in_flight_state
finish_rows-IsTimed T now id o [] h a = tt
finish_rows-IsTimed T now id o (r ∷ rows) h a =
    let rest = finish_rows-IsTimed T now id o rows h a.1 in
    elim (Bool-cases (r.id == id)) [
      | inl e ↦ rw e ((λ running. let bad = rw running at h in cc), rest)
      | inr e ↦ rw e (a.0, rest)
    ]

expire_rows-IsTimed :
    (T now age : ℕ) (rows : List Request)
    → All (IsTimed T) rows
    → All (IsTimed T) (expire_rows now age rows)
unfolding expire_rows
expire_rows-IsTimed T now age [] a = tt
expire_rows-IsTimed T now age (r ∷ rows) a =
    let rest = expire_rows-IsTimed T now age rows a.1 in
    elim (Bool-cases (is_stale now age r.state r.claimed_at)) [
      | inl e ↦ rw e ((λ running. cc), rest)
      | inr e ↦ rw e (a.0, rest)
    ]

ask-IsQueue :
    (T now : ℕ) (a : Actor) (operation_id : Bytes) (names : List Bytes) (t : Table)
    → IsQueue T t
    → IsQueue T (ask now a operation_id names t).0
unfolding ask
ask-IsQueue T now a operation_id names t v = elim (Result-cases (validate_sets names)) [
  | inl (x, e) ↦ rw (e, ask) v
  | inr (x, e) ↦ rw (e, ask) (write-IsQueue T now a operation_id take (normalise names) none t v)
]

claim-IsQueue :
    (T now : ℕ) (by : Bytes) (t : Table) → now ≤ T → IsQueue T t → IsQueue T (claim now by t).0
unfolding claim
claim-IsQueue T now by t le v = elim (Option-cases (claim_rows now by t.rows)) [
  | inl e ↦ rw (e, claim) v
  | inr ((rows, q), e) ↦
      rw (e, claim)
        (record {
          one = ground (arith, claim_rows-in_flight now by t.rows rows q e, v.one);
          timed = claim_rows-IsTimed T now by t.rows rows q le v.timed e;
        })
]

perform-IsQueue :
    (T : ℕ) (t : Table) (s : Statement) → IsBy T s → IsQueue T t → IsQueue T (perform t s)
unfolding perform ask_restore ask_verify finish expire_stale
perform-IsQueue T t (asks now a operation_id names) h v = ask-IsQueue T now a operation_id names t v
perform-IsQueue T t (asks_restore now a operation_id target) h v =
    elim (Bool-cases (is_positive target)) [
      | inl e ↦
          rw (e, perform, ask_restore)
            (write-IsQueue T now a operation_id restore [] (some target) t v)
      | inr e ↦ rw (e, perform, ask_restore) v
    ]
perform-IsQueue T t (asks_verify now a operation_id target) h v =
    elim (Bool-cases (is_positive target)) [
      | inl e ↦
          rw (e, perform, ask_verify)
            (write-IsQueue T now a operation_id verify [] (some target) t v)
      | inr e ↦ rw (e, perform, ask_verify) v
    ]
perform-IsQueue T t (claims now by) h v = claim-IsQueue T now by t h v
perform-IsQueue T t (finishes now id o) h v = record {
  one = ground (arith, finish_rows-in_flight now id o t.rows h, v.one);
  timed = finish_rows-IsTimed T now id o t.rows h v.timed;
}
perform-IsQueue T t (expires now age) h v = record {
  one = ground (arith, expire_rows-in_flight now (age / second * second) t.rows, v.one);
  timed = expire_rows-IsTimed T now (age / second * second) t.rows v.timed;
}

pub perform_all-IsQueue :
    (T : ℕ) (t : Table) (ss : List Statement)
    → All (IsBy T) ss
    → IsQueue T t
    → IsQueue T (perform_all t ss)
unfolding perform_all
perform_all-IsQueue T t [] h v = v
perform_all-IsQueue T t (s ∷ ss) h v =
    perform_all-IsQueue T (perform t s) ss h.1 (perform-IsQueue T t s h.0 v)

pub empty_table-IsQueue : (T : ℕ) → IsQueue T empty_table
empty_table-IsQueue T = record { one = omega arith; timed = tt }

-- Whatever statements of the panel and of any number of upgraders reach the table, in whatever
-- order, at most one request is in flight, as long as a request is finished only as succeeded or
-- failed.
pub perform_all-one :
    (T : ℕ) (ss : List Statement)
    → All (IsBy T) ss
    → count_if in_flight (perform_all empty_table ss).rows ≤ 1
perform_all-one T ss h =
    let v = perform_all-IsQueue T empty_table ss h (empty_table-IsQueue T) in v.one
