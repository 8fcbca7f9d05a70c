-- ===== src/AsnLookup/RangeTable/Lookup.antt =====
-- A table answers as a scan of the entries does, in whatever order they were read.
use crucible_analytic.Prelude.{
  ℕ, zero, suc, ◌≤◌, ◌<◌, ◌≡◌, refl, ap, sym, ◌∙◌, ◌⊎◌, inl, inr, Bool, true, false, ◌&&◌, List, [],
  ◌∷◌, Option, none, some, leb, ◌==◌, if◌then◌else◌, length, get_elem?, All, arith, Bool-cases,
}
use crucible_analytic.Prelude.Sorting.{insert_by, sort_by}
use crucible_analytic.AsnLookup.RangeTable.{
  RangeEntry, new_range_table, starts_after, checked, entry_before, lookup,
}
use crucible_analytic.AsnLookup.RangeTable.Search.{Splits, search_lem}

module _ {T : Type 0} where
  -- The value of the first entry that holds the address.
  abbrev pub scan : List (RangeEntry T) → ℕ → Option T
  scan [] ip = none
  scan (e ∷ es) ip =
      let rest = scan es ip in if leb e.start ip && leb ip e.last then some e.value else rest

  -- Two ranges without a common address.
  abbrev pub IsApart : RangeEntry T → RangeEntry T → Type 0
  IsApart d e = (d.last < e.start) ⊎ (e.last < d.start)

  -- No range is empty, and no two have a common address.
  abbrev pub IsDisjoint : List (RangeEntry T) → Type 0
  IsDisjoint [] = Unit
  IsDisjoint (e ∷ es) = (e.start ≤ e.last) × All (IsApart e) es × IsDisjoint es

  -- Each range ends before every later one starts.
  abbrev IsChain : List (RangeEntry T) → Type 0
  IsChain [] = Unit
  IsChain (e ∷ es) = (e.start ≤ e.last) × All (λ x. e.last < x.start) es × IsChain es

  insert : RangeEntry T → List (RangeEntry T) → List (RangeEntry T)
  unfolding insert_by
  insert = insert_by (λ e. e.start)

  All-insert {κ} :
      (P : RangeEntry T → Type κ) (e : RangeEntry T) (es : List (RangeEntry T))
      → P e
      → All P es
      → All P (insert e es)
  unfolding insert
  All-insert P e [] p ps = (p, tt)
  All-insert P e (x ∷ es) p ps = elim (Bool-cases (leb e.start x.start)) [
    | inl b ↦ rw (b, insert_by) (p, ps)
    | inr b ↦ rw (b, insert_by) (ps.0, All-insert P e es p ps.1)
  ]

  chain_before :
      (e : RangeEntry T) (b : ℕ) (es : List (RangeEntry T))
      → b ≤ e.last
      → All (λ x. e.last < x.start) es
      → All (λ x. b < x.start) es
  chain_before e b [] h a = tt
  chain_before e b (x ∷ es) h a = (omega arith, chain_before e b es h a.1)

  insert-IsChain :
      (e : RangeEntry T) (es : List (RangeEntry T))
      → e.start ≤ e.last
      → All (IsApart e) es
      → IsChain es
      → IsChain (insert e es)
  unfolding insert
  insert-IsChain e [] h a c = (h, tt, tt)
  insert-IsChain e (x ∷ es) h a c = elim (Bool-cases (leb e.start x.start)) [
    | inl b ↦
        rw (b, insert_by)
          (h, (ground (arith, a.0), chain_before x e.last es (ground (arith, a.0)) c.1), c)
    | inr b ↦
        rw (b, insert_by)
          (
            c.0,
            All-insert (λ y. x.last < y.start) e es (ground (arith, a.0)) c.1,
            insert-IsChain e es h a.1 c.2,
          )
  ]

  All-sort {κ} :
      (P : RangeEntry T → Type κ) (es : List (RangeEntry T))
      → All P es
      → All P (sort_by (λ e. e.start) es)
  unfolding sort_by insert
  All-sort P [] ps = tt
  All-sort P (e ∷ es) ps = All-insert P e _ ps.0 (All-sort P es ps.1)

  sort-IsChain : (es : List (RangeEntry T)) → IsDisjoint es → IsChain (sort_by (λ e. e.start) es)
  unfolding sort_by insert
  sort-IsChain [] d = tt
  sort-IsChain (e ∷ es) d =
      insert-IsChain e _ d.0 (All-sort (IsApart e) es d.1) (sort-IsChain es d.2)

  scan-insert :
      (ip : ℕ) (e : RangeEntry T) (es : List (RangeEntry T))
      → e.start ≤ e.last
      → All (IsApart e) es
      → scan (insert e es) ip ≡ scan (e ∷ es) ip
  unfolding insert insert_by
  scan-insert ip e [] h a = refl
  scan-insert ip e (x ∷ es) h a = ground (arith, scan-insert ip e es h a.1, a.0)

  scan-sort :
      (ip : ℕ) (es : List (RangeEntry T))
      → IsDisjoint es
      → scan (sort_by (λ e. e.start) es) ip ≡ scan es ip
  unfolding sort_by insert
  scan-sort ip [] d = refl
  scan-sort ip (e ∷ es) d =
      scan-insert ip e _ d.0 (All-sort (IsApart e) es d.1)
      ∙ ap (λ (r : Option T). if leb e.start ip && leb ip e.last then some e.value else r)
          (scan-sort ip es d.2)

  starts : List (RangeEntry T) → ℕ → ℕ → Bool
  unfolding starts_after
  starts es ip i = starts_after (get_elem? es i) ip

  chain_starts :
      (b : ℕ) (es : List (RangeEntry T)) (ip y : ℕ)
      → All (λ x. b < x.start) es
      → ip ≤ b
      → y < length es
      → starts es ip y ≡ true
  unfolding starts
  chain_starts b [] ip y a h lt = absurd (omega arith)
  chain_starts b (e ∷ es) ip zero a h lt = ground arith
  chain_starts b (e ∷ es) ip (suc y) a h lt = chain_starts b es ip y a.1 h (omega arith)

  starts_mono :
      (es : List (RangeEntry T)) (ip x y : ℕ)
      → IsChain es
      → x ≤ y
      → y < length es
      → starts es ip x ≡ true
      → starts es ip y ≡ true
  unfolding starts
  starts_mono [] ip x y c h lt t = absurd (omega arith)
  starts_mono (e ∷ es) ip zero zero c h lt t = t
  starts_mono (e ∷ es) ip zero (suc y) c h lt t =
      chain_starts e.last es ip y c.1 (ground (arith, c.0)) (omega arith)
  starts_mono (e ∷ es) ip (suc x) zero c h lt t = absurd (omega arith)
  starts_mono (e ∷ es) ip (suc x) (suc y) c h lt t =
      starts_mono es ip x y c.2 (omega arith) (omega arith) t

  scan_later :
      (b : ℕ) (es : List (RangeEntry T)) (ip : ℕ)
      → ((i : ℕ) → i < length es → starts es ip i ≡ true)
      → scan es ip ≡ none
  unfolding starts starts_after
  scan_later b [] ip h = refl
  scan_later b (e ∷ es) ip h =
      ground (arith, h 0 (omega arith), scan_later b es ip (λ i lt. h (suc i) (omega arith)))

  tail_Splits :
      (e : RangeEntry T) (es : List (RangeEntry T)) (ip r : ℕ)
      → Splits (starts (e ∷ es) ip) (length (e ∷ es)) (suc r)
      → Splits (starts es ip) (length es) r
  unfolding starts
  tail_Splits e es ip r s = record {
    within = omega (arith, s.within);
    below = λ x lt. s.below (suc x) (omega arith);
    above = λ x h lt. s.above (suc x) (omega arith) (omega arith);
  }

  entry_before-scan :
      (es : List (RangeEntry T)) (ip r : ℕ)
      → IsChain es
      → Splits (starts es ip) (length es) r
      → entry_before es r ip ≡ scan es ip
  unfolding entry_before checked starts starts_after
  entry_before-scan [] ip zero c s = refl
  entry_before-scan [] ip (suc r) c s = absurd (omega (arith, s.within))
  entry_before-scan (e ∷ es) ip zero c s =
      sym (scan_later 0 (e ∷ es) ip (λ i lt. s.above i (omega arith) lt))
  entry_before-scan (e ∷ es) ip (suc zero) c s =
      let none_behind = scan_later 0 es ip (λ i lt. s.above (suc i) (omega arith) (omega arith)) in
      ground (arith, none_behind, s.below 0 (omega arith))
  entry_before-scan (e ∷ []) ip (suc (suc r)) c s = absurd (omega (arith, s.within))
  entry_before-scan (e ∷ x ∷ es) ip (suc (suc r)) c s =
      entry_before-scan (x ∷ es) ip (suc r) c.2 (tail_Splits e (x ∷ es) ip (suc r) s)
      ∙ ground (arith, c.1.0, s.below 1 (omega arith))

  lookup-chain :
      (es : List (RangeEntry T)) (ip : ℕ)
      → IsChain es
      → lookup (some (record { entries = es })) ip ≡ scan es ip
  unfolding lookup starts
  lookup-chain [] ip c = refl
  lookup-chain (e ∷ es) ip c =
      let filled : (length (e ∷ es) == 0) ≡ false = ground arith in
      rw filled (
        entry_before-scan (e ∷ es) ip _ c (
          search_lem (starts (e ∷ es) ip) (length (e ∷ es))
            (λ x y h lt t. starts_mono (e ∷ es) ip x y c h lt t)))

  -- For ranges that are not empty and do not overlap, given in any order, the sort and the binary
  -- search find what a scan of all the ranges finds: the value of the range that holds the
  -- address, or nothing where no range does.
  pub lookup-new_range_table :
      (es : List (RangeEntry T)) (ip : ℕ)
      → IsDisjoint es
      → lookup (some (new_range_table es)) ip ≡ scan es ip
  unfolding new_range_table
  lookup-new_range_table es ip d =
      lookup-chain (sort_by (λ e. e.start) es) ip (sort-IsChain es d) ∙ scan-sort ip es d
