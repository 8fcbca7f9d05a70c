-- ===== src/AsnLookup/RangeTable/Search.antt =====
-- What binary search finds.
use crucible_analytic.Prelude.{
  ℕ, zero, suc, ◌+◌, ◌-◌, ◌/◌, ◌≤◌, ◌<◌, ◌≡◌, Bool, true, false, ltb, arith, Bool-cases, inl, inr,
}
use crucible_analytic.AsnLookup.RangeTable.{search}

-- The index splits the range: the test fails below it and holds from it on.
pub record Splits (f : ℕ → Bool) (n r : ℕ) : Type 0 where
  pub within : r ≤ n
  pub below : (x : ℕ) → x < r → f x ≡ false
  pub above : (x : ℕ) → r ≤ x → x < n → f x ≡ true

module _ (f : ℕ → Bool) (n : ℕ) (mono : (x y : ℕ) → x ≤ y → y < n → f x ≡ true → f y ≡ true) where
  search_loop :
      (fuel i j : ℕ)
      → j - i ≤ fuel
      → i ≤ j
      → j ≤ n
      → ((x : ℕ) → x < i → f x ≡ false)
      → ((x : ℕ) → j ≤ x → x < n → f x ≡ true)
      → Splits f n (search fuel f i j)
  unfolding search
  search_loop zero i j gap le top below above = record {
    within = omega arith;
    below = below;
    above = λ x h lt. above x (omega arith) lt;
  }
  search_loop (suc fuel) i j gap le top below above = elim (Bool-cases (ltb i j)) [
    | inr done ↦
        rw (done, search)
          (record {
            within = omega arith;
            below = below;
            above = λ x h lt. above x (ground arith) lt;
          })
    | inl more ↦ elim (Bool-cases (f ((i + j) / 2))) [
      | inl up ↦
          rw (more, search, up, search)
            (search_loop fuel i ((i + j) / 2) (ground arith) (ground arith) (ground arith) below
              (λ x h lt. mono ((i + j) / 2) x h lt up))
      | inr down ↦
          rw (more, search, down, search)
            (search_loop fuel ((i + j) / 2 + 1) j (ground arith) (ground arith) top
              (λ x h. ground (arith, mono x ((i + j) / 2))) above)
    ]
  ]

  -- For a test that stays true once it is, the search gives the first index where it holds, or
  -- the end.
  pub search_lem : Splits f n (search n f 0 n)
  search_lem =
      search_loop n 0 n (omega arith) (omega arith) (omega arith) (λ x h. absurd (omega arith))
        (λ x h lt. absurd (omega arith))
