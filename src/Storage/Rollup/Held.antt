-- ===== src/Storage/Rollup/Held.antt =====
-- What is claimed of one bucket between the statements of a refresh, and the changes that keep it.
use crucible_analytic.Prelude.{
  ℕ, ◌+◌, ◌-◌, ◌≤◌, ◌<◌, ◌≡◌, refl, subst, ap, ◌∙◌, Bool, true, List, [], ◌∷◌, Option, none, some,
  arith, leb, ltb, keep_if, Bool-cases, inl, inr, ℕ_discrete,
}
use mathlib.Core.Option.{some-injective}
use crucible_analytic.Prelude.Maps.{lookup}
use crucible_analytic.Storage.Buckets.{Traffic, time_bucket, falls_in, min_time, upsert}
use crucible_analytic.Storage.Buckets.Right.{
  IsCut, time_bucket_le, keep_if-keep_if, any-keep_if, upsert-before_at, upsert-outside,
}
use crucible_analytic.Storage.Rollup.{
  rollup_bucket, rollup_recheck, rollup_max_span, Summary, summarize, RollupReport, start_from,
  moved_mark, planned,
}
use crucible_analytic.Storage.Rollup.Steps.{
  Phase, idle, has_planned, has_written, Cycle, begin, IsSince, IsInTime,
}
use crucible_analytic.Storage.Rollup.Claim.{
  first-IsStart, IsSummed, IsStart, recheck-IsCut, span-IsCut,
}

module _ (b : ℕ) where
  abbrev pub Claims : List Traffic → List (ℕ × Summary) → Option ℕ → Type 0
  Claims raw table none = Unit
  Claims raw table (some m) =
      IsCut rollup_bucket m × (b < m - rollup_recheck → IsSummed raw table b)

  abbrev pub Stands : List Traffic → List (ℕ × Summary) → Phase → Type 0
  Stands raw table idle = Unit
  Stands raw table (has_planned report) =
      IsCut rollup_bucket report.from
      × IsCut rollup_bucket report.through
      × (b < report.from → IsSummed raw table b)
  Stands raw table (has_written report) =
      IsCut rollup_bucket report.through
      × (b < report.through - rollup_recheck → IsSummed raw table b)

  -- What is claimed of the bucket, by the watermark and by the refresh that is under way.
  abbrev pub IsHeld : Cycle → Type 0
  IsHeld c =
      Claims c.rollup.raw c.rollup.table c.rollup.mark × Stands c.rollup.raw c.rollup.table c.phase

  -- A change of the tables that leaves a right bucket right leaves the claims.
  pub Claims-map :
      (raw raw' : List Traffic) (table table' : List (ℕ × Summary)) (mark : Option ℕ)
      (phase : Phase)
      → (IsSummed raw table b → IsSummed raw' table' b)
      → Claims raw table mark × Stands raw table phase
      → Claims raw' table' mark × Stands raw' table' phase
  Claims-map raw raw' table table' mark phase f (c, s) = (claims mark c, stands phase s)
    where
      claims : (m : Option ℕ) → Claims raw table m → Claims raw' table' m
      claims none k = tt
      claims (some m) k = (k.0, λ h. f (k.1 h))

      stands : (p : Phase) → Stands raw table p → Stands raw' table' p
      stands idle k = tt
      stands (has_planned report) k = (k.0, k.1, λ h. f (k.2 h))
      stands (has_written report) k = (k.0, λ h. f (k.1 h))

  -- A row of another bucket.
  pub arrives-IsSummed :
      (row : Traffic) (cut : ℕ) (raw : List Traffic) (table : List (ℕ × Summary))
      → IsCut rollup_bucket cut
      → cut ≤ row.time
      → b < cut
      → IsSummed raw table b
      → IsSummed (row ∷ raw) table b
  unfolding time_bucket
  arrives-IsSummed row cut raw table c t h rows = ground (arith, c, t, h, rows)

  pub arrives-IsHeld :
      (row : Traffic) (raw : List Traffic) (table : List (ℕ × Summary)) (mark : Option ℕ)
      (phase : Phase)
      → IsSince mark row.time
      → IsInTime phase row.time
      → Claims raw table mark × Stands raw table phase
      → Claims (row ∷ raw) table mark × Stands (row ∷ raw) table phase
  arrives-IsHeld row raw table mark phase since in_time (c, s) =
      (claims mark since c, stands phase in_time s)
    where
      claims : (m : Option ℕ) → IsSince m row.time → Claims raw table m → Claims (row ∷ raw) table m
      claims none t k = tt
      claims (some m) t k = (
        k.0,
        λ h. arrives-IsSummed row (m - rollup_recheck) raw table (recheck-IsCut m k.0) t h (k.1 h),
      )

      stands : (p : Phase) → IsInTime p row.time → Stands raw table p → Stands (row ∷ raw) table p
      stands idle t k = tt
      stands (has_planned report) t k =
          (k.0, k.1, λ h. arrives-IsSummed row report.from raw table k.0 t h (k.2 h))
      stands (has_written report) t k = (
        k.0,
        λ h.
            arrives-IsSummed row (report.through - rollup_recheck) raw table
              (recheck-IsCut report.through k.0) t h (k.1 h),
      )

  pub expires-IsSummed :
      (before : ℕ) (raw : List Traffic) (table : List (ℕ × Summary))
      → before ≤ b
      → IsSummed raw table b
      → IsSummed (keep_if (λ r. leb before r.time) raw) table b
  expires-IsSummed before raw table h right =
      let kept : (r : Traffic) → falls_in rollup_bucket b r ≡ true → leb before r.time ≡ true =
        λ r f. ground (arith, f, h, time_bucket_le rollup_bucket r.time) in
      rw
        (
          any-keep_if (λ r. leb before r.time) (falls_in rollup_bucket b) raw kept,
          keep_if-keep_if (λ r. leb before r.time) (falls_in rollup_bucket b) raw kept,
        )
        right

  pub lookup-keep_key :
      (p : ℕ → Bool) (table : List (ℕ × Summary))
      → p b ≡ true
      → lookup ℕ_discrete b (keep_if (λ (k, _). p k) table) ≡ lookup ℕ_discrete b table
  unfolding lookup
  lookup-keep_key p [] h = refl
  lookup-keep_key p ((k, v) ∷ table) h = ground (arith, h, ap p, lookup-keep_key p table h)

  pub written-IsHeld :
      (raw : List Traffic) (table : List (ℕ × Summary)) (mark : Option ℕ) (report : RollupReport)
      → Claims raw table mark
      → Stands raw table (has_planned report)
      → (b < report.through
          → IsSummed raw (upsert summarize rollup_bucket report.from report.through raw table) b)
        × Claims raw (upsert summarize rollup_bucket report.from report.through raw table) mark
  written-IsHeld raw table mark report c s = (done, claims mark c)
    where
      done :
          b < report.through
          → IsSummed raw (upsert summarize rollup_bucket report.from report.through raw table) b
      done h =
          upsert-before_at summarize rollup_bucket report.from report.through (omega arith) s.0 s.1
            raw table b s.2 h

      claims :
          (m : Option ℕ)
          → Claims raw table m
          → Claims raw (upsert summarize rollup_bucket report.from report.through raw table) m
      claims none k = tt
      claims (some m) k = (
        k.0,
        λ h rows. elim (Bool-cases (ltb b report.through)) [
          | inl e ↦ done (ground (arith, e)) rows
          | inr e ↦
              upsert-outside summarize rollup_bucket report.from report.through (omega arith) s.0
                s.1 raw table b (ground (arith, e))
              ∙ k.1 h rows
        ],
      )

  pub moved-IsHeld :
      (raw : List Traffic) (table : List (ℕ × Summary)) (mark : Option ℕ) (report : RollupReport)
      → Claims raw table mark
      → Stands raw table (has_written report)
      → Claims raw table (moved_mark mark report.through)
  unfolding moved_mark
  moved-IsHeld raw table none report c s = s
  moved-IsHeld raw table (some m) report c s = elim (Bool-cases (ltb m report.through)) [
    | inl e ↦ rw (e) s
    | inr e ↦ rw (e) c
  ]

  pub begin-Stands :
      (raw : List Traffic) (table : List (ℕ × Summary)) (mark : Option ℕ) (horizon : ℕ)
      (start : Option ℕ)
      → IsCut rollup_bucket horizon
      → ((from : ℕ)
          → start ≡ some from
          → IsCut rollup_bucket from × (b < from → IsSummed raw table b))
      → Stands raw table (begin (planned horizon start))
  unfolding begin planned
  begin-Stands raw table mark horizon none cut f = tt
  begin-Stands raw table mark horizon (some from) cut f = elim (Bool-cases (leb horizon from)) [
    | inl e ↦ rw (e) tt
    | inr e ↦ elim (Bool-cases (ltb (from + rollup_max_span) horizon)) [
      | inl k ↦ rw (e, k) ((f from refl).0, span-IsCut from (f from refl).0, (f from refl).1)
      | inr k ↦ rw (e, k) ((f from refl).0, cut, (f from refl).1)
    ]
  ]

  pub start-Claims :
      (raw : List Traffic) (table : List (ℕ × Summary)) (mark first : Option ℕ) (from : ℕ)
      → min_time raw ≡ first
      → Claims raw table mark
      → start_from mark first ≡ some from
      → IsCut rollup_bucket from × (b < from → IsSummed raw table b)
  unfolding start_from
  start-Claims raw table (some m) first from e c s =
      subst (λ (at : ℕ). IsCut rollup_bucket at × (b < at → IsSummed raw table b))
        (some-injective _ _ s) (recheck-IsCut m c.0, c.1)
  start-Claims raw table none (some t) from e c s =
      let start = subst (IsStart raw table) (some-injective _ _ s) (first-IsStart raw table t e) in
      (start.0, start.1 b)
  start-Claims raw table none none from e c s = cc
