-- ===== src/Storage/Rollup/CatchUp.antt =====
-- How many refreshes reach a horizon.
use crucible_analytic.Prelude.{
  ℕ, suc, ◌+◌, ◌-◌, ◌*◌, ◌≤◌, ◌≡◌, refl, List, [], ◌∷◌, Option, none, some, All, length, arith, leb,
  ltb, Bool-cases, inl, inr,
}
use crucible_analytic.Storage.Buckets.{time_bucket, min_time}
use crucible_analytic.Storage.Buckets.Right.{IsCut, time_bucket_mono}
use crucible_analytic.Storage.Rollup.{
  rollup_bucket, rollup_settle, rollup_recheck, rollup_max_span, Rollup, start_from, start_of,
  moved_mark, write_buckets, move_mark, planned, carry_out, refresh,
}
use crucible_analytic.Storage.Rollup.Claim.{
  IsRolled, IsDone, start_from-IsStart, time_bucket-IsCut, span-IsCut, materialize-IsDone,
}

-- Refreshes by these clocks, one after the other.
unfoldable pub refreshes : List ℕ → Rollup → Rollup
refreshes [] r = r
refreshes (now ∷ nows) r = refreshes nows (refresh now r).0

-- The horizon is at most so far from where the next refresh starts.
abbrev IsWithin : ℕ → ℕ → Option ℕ → Type 0
IsWithin horizon reach none = ⊥
IsWithin horizon reach (some from) = horizon ≤ from + reach

abbrev gain : ℕ
gain = rollup_max_span - rollup_recheck

abbrev horizon_of : ℕ → ℕ
horizon_of now = time_bucket rollup_bucket (now - rollup_settle)

abbrev refreshed : ℕ → Option ℕ → Rollup → Rollup
refreshed horizon start r = carry_out (planned horizon start).skipped (planned horizon start) r

moved-start :
    (mark first : Option ℕ) (from through horizon reach : ℕ)
    → start_from mark first ≡ some from
    → from ≤ through
    → horizon ≤ through - rollup_recheck + reach
    → IsWithin horizon reach (start_from (moved_mark mark through) first)
unfolding start_from moved_mark
moved-start none first from through horizon reach s le h = h
moved-start (some m) first from through horizon reach s le h = elim (Bool-cases (ltb m through)) [
  | inl e ↦ rw (e) h
  | inr e ↦ rw (e) (ground (arith, e, h))
]

refreshed-nearer :
    (r : Rollup) (goal horizon n from : ℕ)
    → goal ≤ horizon
    → start_of r ≡ some from
    → goal ≤ from + (rollup_max_span + suc n * gain)
    → IsWithin goal (rollup_max_span + n * gain) (start_of (refreshed horizon (some from) r))
unfolding planned start_of
refreshed-nearer r goal horizon n from le s h = elim (Bool-cases (leb horizon from)) [
  | inl e ↦ rw (e) (unfold carry_out in rw (s) (ground (arith, e, le)))
  | inr e ↦ elim (Bool-cases (ltb (from + rollup_max_span) horizon)) [
    | inl k ↦
        rw (e, k)
          (unfold carry_out move_mark write_buckets in
            moved-start r.mark (min_time r.raw) from (from + rollup_max_span) goal
              (rollup_max_span + n * gain) s (omega arith) (omega (arith, h)))
    | inr k ↦
        rw (e, k)
          (unfold carry_out move_mark write_buckets in
            moved-start r.mark (min_time r.raw) from horizon goal (rollup_max_span + n * gain) s
              (ground (arith, e)) (omega (arith, le)))
  ]
]

-- What the rollup claims holds behind a refresh, and up to a goal within one span everything is
-- summed.
refreshed-IsRolled :
    (r : Rollup) (horizon from : ℕ)
    → IsRolled r
    → start_of r ≡ some from
    → IsCut rollup_bucket horizon
    → IsRolled (refreshed horizon (some from) r)
      × ((goal : ℕ)
          → goal ≤ horizon
          → goal ≤ from + rollup_max_span
          → IsDone (refreshed horizon (some from) r) goal)
unfolding planned
refreshed-IsRolled r horizon from c s cut =
    let start =
      start_from-IsStart r.raw r.table r.mark (min_time r.raw) from refl c (unfold start_of in s) in
    elim (Bool-cases (leb horizon from)) [
      | inl e ↦
          rw (e) (unfold carry_out in (c, λ goal le near b h. start.1 b (ground (arith, e, le, h))))
      | inr e ↦ elim (Bool-cases (ltb (from + rollup_max_span) horizon)) [
        | inl k ↦
            let (done, rolled) =
              materialize-IsDone r from (from + rollup_max_span) c s (span-IsCut from start.0)
                (omega arith) in
            rw (e, k)
              (unfold carry_out in (rolled, λ goal le near b h. done b (omega (arith, near, h))))
        | inr k ↦
            let (done, rolled) = materialize-IsDone r from horizon c s cut (ground (arith, e)) in
            rw (e, k)
              (unfold carry_out in (rolled, λ goal le near b h. done b (omega (arith, le, h))))
      ]
    ]

-- The start, where there is one.
with_start :
    (P : Type 0) (goal reach : ℕ) (start : Option ℕ)
    → IsWithin goal reach start
    → ((from : ℕ) → start ≡ some from → goal ≤ from + reach → P)
    → P
with_start P goal reach none w f = absurd w
with_start P goal reach (some from) w f = f from refl w

horizon_le : (now later : ℕ) → now ≤ later → horizon_of now ≤ horizon_of later
horizon_le now later h =
    time_bucket_mono rollup_bucket (now - rollup_settle) (later - rollup_settle) (omega arith)
      (omega (arith, h))

refreshes-IsDone :
    (nows : List ℕ) (now last : ℕ) (r : Rollup)
    → IsRolled r
    → All (λ at. now ≤ at) nows
    → now ≤ last
    → IsWithin (horizon_of now) (rollup_max_span + length nows * gain) (start_of r)
    → IsDone (refresh last (refreshes nows r)).0 (horizon_of now)
unfolding refreshes refresh
refreshes-IsDone [] now last r c a le w =
    with_start _ (horizon_of now) (rollup_max_span + 0 * gain) (start_of r) w (λ from s near.
      let (rolled, done) =
        refreshed-IsRolled r (horizon_of last) from c s
          (time_bucket-IsCut (last - rollup_settle)) in
      rw (s) (done (horizon_of now) (horizon_le now last le) (omega (arith, near))))
refreshes-IsDone (at ∷ nows) now last r c a le w =
    with_start _ (horizon_of now) (rollup_max_span + suc (length nows) * gain) (start_of r) w
      (λ from s near.
        let (rolled, done) =
          refreshed-IsRolled r (horizon_of at) from c s (time_bucket-IsCut (at - rollup_settle)) in
        refreshes-IsDone nows now last (refresh at r).0 (unfold refresh in rw (s) rolled) a.1 le (
          unfold refresh in
          rw (s) (
            refreshed-nearer r (horizon_of now) (horizon_of at) (length nows) from
              (horizon_le now at a.0) s near)))

-- Where everything that the watermark claims is summed: refreshes by any clocks that do not lie
-- before `now`, one more than it takes spans of thirty days less one hour to get to the horizon of
-- `now` from thirty days behind the start of the first, leave every bucket before that horizon that
-- has rows with the summary of exactly its rows, if no row comes in the meantime.
pub refresh-refreshes :
    (nows : List ℕ) (now last from : ℕ) (r : Rollup)
    → IsRolled r
    → All (λ at. now ≤ at) nows
    → now ≤ last
    → start_of r ≡ some from
    → time_bucket rollup_bucket (now - rollup_settle)
      ≤ from + (rollup_max_span + length nows * (rollup_max_span - rollup_recheck))
    → IsDone (refresh last (refreshes nows r)).0 (time_bucket rollup_bucket (now - rollup_settle))
refresh-refreshes nows now last from r c a le s h =
    refreshes-IsDone nows now last r c a le (rw (s) h)
