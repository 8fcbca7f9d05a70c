-- ===== src/Backup/Queue/Rows.antt =====
-- What each statement does to the requests that are in flight.
use crucible_analytic.Prelude.{
  ℕ, suc, ◌+◌, ◌≤◌, ◌<◌, ◌≡◌, refl, Bool, false, List, [], ◌∷◌, none, some, Bytes, any, All,
  count_if, arith, ltb, Option-cases, inl, inr,
}
use crucible_analytic.Backup.Queue.{
  running, Request, Outcome, in_flight_state, in_flight, is_pending, claim_rows, finish_rows,
  is_stale, expire_rows,
}

-- A running request was claimed, and not after the time.
abbrev pub IsTimed : ℕ → Request → Type 0
IsTimed T r = (r.state ≡ running) → (at : ℕ) × (r.claimed_at ≡ some at) × (at ≤ T)

pub any-count_if : {A : Type 0} (p : A → Bool) (xs : List A) → any p xs ≡ ltb 0 (count_if p xs)
any-count_if p [] = refl
any-count_if p (x ∷ xs) = ground (arith, any-count_if p xs)

-- A claim takes a row that was in flight.
pub claim_rows-in_flight :
    (now : ℕ) (by : Bytes) (rows rows' : List Request) (q : Request)
    → claim_rows now by rows ≡ some (rows', q)
    → count_if in_flight rows' ≡ count_if in_flight rows
unfolding claim_rows in_flight in_flight_state is_pending
claim_rows-in_flight now by [] rows' q e = cc
claim_rows-in_flight now by (r ∷ rows) rows' q e = elim (Option-cases (claim_rows now by rows)) [
  | inl n ↦ ground (arith, e, n)
  | inr ((rest, p), s) ↦ ground (arith, e, s, claim_rows-in_flight now by rows rest p s)
]

pub finish_rows-in_flight :
    (now id : ℕ) (o : Outcome) (rows : List Request)
    → in_flight_state o.state ≡ false
    → count_if in_flight (finish_rows now id o rows) ≤ count_if in_flight rows
unfolding in_flight finish_rows
finish_rows-in_flight now id o [] h = omega arith
finish_rows-in_flight now id o (r ∷ rows) h =
    ground (arith, h, finish_rows-in_flight now id o rows h)

-- The row that a claim takes is no longer in flight when it is finished.
pub finish_rows-claim_rows :
    (now at : ℕ) (by : Bytes) (o : Outcome) (rows rows' : List Request) (q : Request)
    → in_flight_state o.state ≡ false
    → claim_rows now by rows ≡ some (rows', q)
    → suc (count_if in_flight (finish_rows at q.id o rows')) ≤ count_if in_flight rows
unfolding claim_rows in_flight is_pending finish_rows
finish_rows-claim_rows now at by o [] rows' q h e = cc
finish_rows-claim_rows now at by o (r ∷ rows) rows' q h e =
    elim (Option-cases (claim_rows now by rows)) [
      | inl n ↦ ground (arith, e, n, h, finish_rows-in_flight at r.id o rows h)
      | inr ((rest, p), s) ↦ ground (
        arith,
        e,
        s,
        h,
        finish_rows-in_flight at r.id o rows h,
        finish_rows-claim_rows now at by o rows rest p h s,
      )
    ]

pub expire_rows-in_flight :
    (now age : ℕ) (rows : List Request)
    → count_if in_flight (expire_rows now age rows) ≤ count_if in_flight rows
unfolding in_flight in_flight_state expire_rows
expire_rows-in_flight now age [] = omega arith
expire_rows-in_flight now age (r ∷ rows) = ground (arith, expire_rows-in_flight now age rows)

-- Behind a sweep that comes late enough, and that no claim follows, nothing is in flight.
pub expire_rows-late :
    (now age T : ℕ) (by : Bytes) (at : ℕ) (rows : List Request)
    → All (IsTimed T) rows
    → T + age < now
    → claim_rows at by (expire_rows now age rows) ≡ none
    → count_if in_flight (expire_rows now age rows) ≡ 0
unfolding in_flight in_flight_state expire_rows claim_rows is_pending is_stale
expire_rows-late now age T by at [] a late e = refl
expire_rows-late now age T by at (r ∷ rows) a late e =
    elim (Option-cases (claim_rows at by (expire_rows now age rows))) [
      | inl n ↦ ground (arith, e, n, a.0, late, expire_rows-late now age T by at rows a.1 late n)
      | inr (x, s) ↦ ground (arith, e, s, a.0, late)
    ]
