-- ===== src/Storage/Rollup/Claim.antt =====
-- What the watermark claims, and that it gets to the horizon.
use crucible_analytic.Prelude.{
  ℕ, ◌+◌, ◌-◌, ◌≤◌, ◌<◌, ◌≡◌, refl, subst, false, List, [], ◌∷◌, Option, none, some, All, any,
  arith, ltb, min, Bool-cases, inl, inr,
}
use mathlib.Core.Option.{some-injective}
use crucible_analytic.Storage.Buckets.{Traffic, time_bucket, falls_in, min_time, upsert}
use crucible_analytic.Storage.Buckets.Right.{IsRight, IsCut, upsert-before}
use crucible_analytic.Storage.Rollup.{
  rollup_bucket, rollup_recheck, rollup_max_span, Summary, summarize, Rollup, start_from, start_of,
  moved_mark, write_buckets, move_mark,
}

-- The rollup has the summary of the bucket's rows.
abbrev pub IsSummed : List Traffic → List (ℕ × Summary) → ℕ → Type 0
IsSummed = IsRight summarize rollup_bucket

abbrev pub Claims : List Traffic → List (ℕ × Summary) → Option ℕ → Type 0
Claims raw table none = Unit
Claims raw table (some m) =
    IsCut rollup_bucket m × ((b : ℕ) → b < m - rollup_recheck → IsSummed raw table b)

abbrev pub IsRolled : Rollup → Type 0
IsRolled r = Claims r.raw r.table r.mark

pub time_bucket-IsCut : (t : ℕ) → IsCut rollup_bucket (time_bucket rollup_bucket t)
unfolding time_bucket
time_bucket-IsCut t = omega arith

pub recheck-IsCut : (m : ℕ) → IsCut rollup_bucket m → IsCut rollup_bucket (m - rollup_recheck)
unfolding time_bucket
recheck-IsCut m c = omega (arith, c)

pub span-IsCut : (m : ℕ) → IsCut rollup_bucket m → IsCut rollup_bucket (m + rollup_max_span)
unfolding time_bucket
span-IsCut m c = omega (arith, c)

abbrev IsAtLeast : ℕ → Option ℕ → Type 0
IsAtLeast first none = Unit
IsAtLeast first (some t) = first ≤ t

min_time_le :
    (first : ℕ) (raw : List Traffic)
    → IsAtLeast first (min_time raw)
    → All (λ r. first ≤ r.time) raw
unfolding min_time
min_time_le first [] h = tt
min_time_le first (r ∷ raw) h = min_time_step (min_time raw) (min_time_le first raw) h
  where
    min_time_step :
        (o : Option ℕ)
        → (IsAtLeast first o → All (λ x. first ≤ x.time) raw)
        → IsAtLeast first (elim o [ none ↦ some r.time | some t ↦ some (min r.time t) ])
        → (first ≤ r.time) × All (λ x. first ≤ x.time) raw
    min_time_step none rest k = (k, rest tt)
    min_time_step (some t) rest k = (omega (arith, k), rest (omega (arith, k)))

-- No row lies in a bucket before the first one's.
none-before :
    (first b : ℕ) (raw : List Traffic)
    → All (λ r. first ≤ r.time) raw
    → b < time_bucket rollup_bucket first
    → any (falls_in rollup_bucket b) raw ≡ false
unfolding time_bucket
none-before first b [] a h = refl
none-before first b (r ∷ raw) a h = ground (arith, a.0, h, none-before first b raw a.1 h)

-- Before the place where a refresh starts, every bucket is right.
abbrev pub IsStart : List Traffic → List (ℕ × Summary) → ℕ → Type 0
IsStart raw table from = IsCut rollup_bucket from × ((b : ℕ) → b < from → IsSummed raw table b)

pub first-IsStart :
    (raw : List Traffic) (table : List (ℕ × Summary)) (t : ℕ)
    → min_time raw ≡ some t
    → IsStart raw table (time_bucket rollup_bucket t)
first-IsStart raw table t e = (
  time_bucket-IsCut t,
  λ b h rows.
      let lower : IsAtLeast t (min_time raw) = rw (e) (omega arith) in
      ground (arith, rows, none-before t b raw (min_time_le t raw lower) h),
)

pub start_from-IsStart :
    (raw : List Traffic) (table : List (ℕ × Summary)) (mark first : Option ℕ) (from : ℕ)
    → min_time raw ≡ first
    → Claims raw table mark
    → start_from mark first ≡ some from
    → IsStart raw table from
unfolding start_from
start_from-IsStart raw table (some m) first from e c s =
    subst (IsStart raw table) (some-injective _ _ s) (recheck-IsCut m c.0, c.1)
start_from-IsStart raw table none (some t) from e c s =
    subst (IsStart raw table) (some-injective _ _ s) (first-IsStart raw table t e)
start_from-IsStart raw table none none from e c s = cc

moved_mark-Claims :
    (raw : List Traffic) (table : List (ℕ × Summary)) (mark : Option ℕ) (from horizon : ℕ)
    → IsCut rollup_bucket horizon
    → ((m : ℕ) → mark ≡ some m → IsCut rollup_bucket m × (m - rollup_recheck ≤ from))
    → from < horizon
    → ((b : ℕ) → b < horizon → IsSummed raw table b)
    → Claims raw table (moved_mark mark horizon)
unfolding moved_mark
moved_mark-Claims raw table none from horizon c old lt right =
    (c, λ b h. right b (omega (arith, h)))
moved_mark-Claims raw table (some m) from horizon c old lt right =
    elim (Bool-cases (ltb m horizon)) [
      | inl e ↦ rw (e) (c, λ b h. right b (omega (arith, h)))
      | inr e ↦ rw (e) ((old m refl).0, λ b h. right b (omega (arith, h, (old m refl).1, lt)))
    ]

-- The watermark that a refresh found, and the place where it started.
mark-start :
    (mark first : Option ℕ) (raw : List Traffic) (table : List (ℕ × Summary)) (from m : ℕ)
    → Claims raw table mark
    → start_from mark first ≡ some from
    → mark ≡ some m
    → IsCut rollup_bucket m × (m - rollup_recheck ≤ from)
unfolding start_from
mark-start none first raw table from m c s e = cc
mark-start (some k) first raw table from m c s e =
    let same = some-injective _ _ e in
    let place = some-injective _ _ s in
    (subst (IsCut rollup_bucket) same c.0, omega (arith, same, place))

-- What a refresh that did something leaves, up to where it went.
abbrev pub IsDone : Rollup → ℕ → Type 0
IsDone r through = (b : ℕ) → b < through → IsSummed r.raw r.table b

pub materialize-IsDone :
    (r : Rollup) (from horizon : ℕ)
    → IsRolled r
    → start_of r ≡ some from
    → IsCut rollup_bucket horizon
    → from < horizon
    → IsDone (move_mark horizon (write_buckets from horizon r)) horizon
      × IsRolled (move_mark horizon (write_buckets from horizon r))
unfolding move_mark write_buckets start_of
materialize-IsDone r from horizon c s cut lt =
    let start = start_from-IsStart r.raw r.table r.mark (min_time r.raw) from refl c s in
    let right : (b : ℕ)
        → b < horizon
        → IsSummed r.raw (upsert summarize rollup_bucket from horizon r.raw r.table) b =
      (λ b h.
        upsert-before summarize rollup_bucket from horizon (omega arith) start.0 cut r.raw r.table b
          start.1 h) in
    (
      right,
      moved_mark-Claims r.raw (upsert summarize rollup_bucket from horizon r.raw r.table) r.mark
          from horizon cut (λ m e. mark-start r.mark (min_time r.raw) r.raw r.table from m c s e) lt
          right,
    )
