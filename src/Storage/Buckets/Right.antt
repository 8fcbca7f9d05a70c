-- ===== src/Storage/Buckets/Right.antt =====
-- Which buckets stand for their rows behind an upsert.
use crucible_analytic.Prelude.{
  ℕ, ◌≤◌, ◌<◌, ◌≡◌, refl, ap, ◌∙◌, Bool, true, false, ◌&&◌, List, [], ◌∷◌, some, any, arith, leb,
  ltb, if◌then◌else◌, keep_if, ℕ_discrete, Bool-cases, inl, inr,
}
use native.Mathlib.Nat.{le-div_iff_mul-le, div-mul-le_self, mul-le-mul_right}
use crucible_analytic.Prelude.Maps.{lookup, lookup-insert}
use crucible_analytic.Storage.Buckets.{
  Traffic, time_bucket, is_between, falls_in, upsert_loop, upsert,
}

module _ {A : Type 0} where
  -- A test that the first test lets through sees the same elements behind it.
  pub keep_if-keep_if :
      (p q : A → Bool) (xs : List A)
      → ((x : A) → q x ≡ true → p x ≡ true)
      → keep_if q (keep_if p xs) ≡ keep_if q xs
  keep_if-keep_if p q [] h = refl
  keep_if-keep_if p q (x ∷ xs) h = ground (arith, h x, keep_if-keep_if p q xs h)

  pub any-keep_if :
      (p q : A → Bool) (xs : List A)
      → ((x : A) → q x ≡ true → p x ≡ true)
      → any q (keep_if p xs) ≡ any q xs
  any-keep_if p q [] h = refl
  any-keep_if p q (x ∷ xs) h = ground (arith, h x, any-keep_if p q xs h)

  pub any-keep_none :
      (p q : A → Bool) (xs : List A)
      → ((x : A) → q x ≡ true → p x ≡ false)
      → any q (keep_if p xs) ≡ false
  any-keep_none p q [] h = refl
  any-keep_none p q (x ∷ xs) h = ground (arith, h x, any-keep_none p q xs h)

module _ (width : ℕ) where
  abbrev pub IsCut : ℕ → Type 0
  IsCut t = time_bucket width t ≡ t

  pub time_bucket_le : (t : ℕ) → time_bucket width t ≤ t
  unfolding time_bucket
  time_bucket_le t = div-mul-le_self t width

  pub time_bucket_mono : (s t : ℕ) → 0 < width → s ≤ t → time_bucket width s ≤ time_bucket width t
  unfolding time_bucket
  time_bucket_mono s t pos h =
      mul-le-mul_right width ((le-div_iff_mul-le pos).1 (omega (arith, div-mul-le_self s width, h)))

  -- A time before a cut has its bucket before the cut, and a time from the cut on has not.
  pub bucket-before :
      (cut b : ℕ) (r : Traffic)
      → 0 < width
      → IsCut cut
      → falls_in width b r ≡ true
      → ltb r.time cut ≡ ltb b cut
  bucket-before cut b r pos c f =
      ground (arith, f, c, time_bucket_le r.time, time_bucket_mono cut r.time pos)

module _ {S : Type 0} (summary : List Traffic → S) (width : ℕ) where
  lookup-upsert_loop :
      (rows todo : List Traffic) (table : List (ℕ × S)) (b : ℕ)
      → lookup ℕ_discrete b (upsert_loop summary width rows todo table) ≡ (
          if any (falls_in width b) todo
          then some (summary (keep_if (falls_in width b) rows))
          else lookup ℕ_discrete b table)
  unfolding upsert_loop
  lookup-upsert_loop rows [] table b = refl
  lookup-upsert_loop rows (r ∷ todo) table b = ground (
    arith,
    lookup-insert ℕ_discrete b (time_bucket width r.time)
        (summary (keep_if (falls_in width (time_bucket width r.time)) rows))
        (upsert_loop summary width rows todo table),
    lookup-upsert_loop rows todo table b,
    ap (λ (k : ℕ). summary (keep_if (falls_in width k) rows)),
  )

  -- The bucket's entry is the summary of its rows, if it has rows.
  abbrev pub IsRight : List Traffic → List (ℕ × S) → ℕ → Type 0
  IsRight raw table b =
      any (falls_in width b) raw ≡ true
      → lookup ℕ_discrete b table ≡ some (summary (keep_if (falls_in width b) raw))

  module _ (from to : ℕ) (pos : 0 < width) (cut_from : IsCut width from)
      (cut_to : IsCut width to) where
    between-bucket :
        (b : ℕ) (r : Traffic)
        → falls_in width b r ≡ true
        → is_between from to r ≡ (leb from b && ltb b to)
    between-bucket b r f = ground (
      arith,
      bucket-before width from b r pos cut_from f,
      bucket-before width to b r pos cut_to f,
    )

    pub upsert-IsRight :
        (raw : List Traffic) (table : List (ℕ × S)) (b : ℕ)
        → from ≤ b
        → b < to
        → IsRight raw (upsert summary width from to raw table) b
    unfolding upsert
    upsert-IsRight raw table b h k some_rows =
        let inside_range : (leb from b && ltb b to) ≡ true = ground (arith, h, k) in
        let inside =
          λ (r : Traffic) (f : falls_in width b r ≡ true). between-bucket b r f ∙ inside_range in
        let rows = keep_if (is_between from to) raw in
        lookup-upsert_loop rows rows table b
        ∙ rw
            (
              any-keep_if (is_between from to) (falls_in width b) raw inside,
              some_rows,
              keep_if-keep_if (is_between from to) (falls_in width b) raw inside,
            )
            refl

    pub upsert-outside :
        (raw : List Traffic) (table : List (ℕ × S)) (b : ℕ)
        → (leb from b && ltb b to) ≡ false
        → lookup ℕ_discrete b (upsert summary width from to raw table) ≡ lookup ℕ_discrete b table
    unfolding upsert
    upsert-outside raw table b h =
        let rows = keep_if (is_between from to) raw in
        lookup-upsert_loop rows rows table b
        ∙ rw
            (any-keep_none (is_between from to) (falls_in width b) raw
              (λ r f. between-bucket b r f ∙ h))
            refl

    -- A bucket before the range's end that is right if it lies before the range is right behind it.
    pub upsert-before_at :
        (raw : List Traffic) (table : List (ℕ × S)) (b : ℕ)
        → (b < from → IsRight raw table b)
        → b < to
        → IsRight raw (upsert summary width from to raw table) b
    upsert-before_at raw table b before k some_rows = elim (Bool-cases (leb from b)) [
      | inl h ↦ upsert-IsRight raw table b (ground (arith, h)) k some_rows
      | inr h ↦
          upsert-outside raw table b (ground (arith, h)) ∙ before (ground (arith, h)) some_rows
    ]

    -- What is right before the range is right before its end.
    pub upsert-before :
        (raw : List Traffic) (table : List (ℕ × S)) (b : ℕ)
        → ((c : ℕ) → c < from → IsRight raw table c)
        → b < to
        → IsRight raw (upsert summary width from to raw table) b
    upsert-before raw table b before k = upsert-before_at raw table b (before b) k
