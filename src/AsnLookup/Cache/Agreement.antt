-- ===== src/AsnLookup/Cache/Agreement.antt =====
-- The agreement of the cache's list and map, and that removing or moving an element keeps it.
use mathlib.Core.Logic.{if_pos, if_neg}
use crucible_analytic.Prelude.{
  ℕ, suc, ◌≤◌, ◌<◌, ◌≡◌, ◌≢◌, inl, inr, refl, sym, ap, ◌∙◌, true, List, none, some, length, arith,
  Option-cases, ℕ_discrete,
}
use mathlib.Core.Option.{some-injective}
use crucible_analytic.Prelude.Maps.{lookup}
use crucible_analytic.AsnLookup.Cache.Elements.{
  Once, has-remove, remove-Once, length-remove, has-move, move-Once, length-move, lookup-delete,
  none-delete,
}
use crucible_analytic.AsnLookup.Cache.{
  Entry, TtlCache, has, remove, move_to_front, value_of, delete, remove_element,
}

module _ {K R : Type 0} (same : Discrete K) where
  abbrev pub HasKey : List (ℕ × Entry K R) → ℕ → K → Type 0
  HasKey values el k = (e : Entry K R) × (lookup ℕ_discrete el values ≡ some e) × (e.key ≡ k)

  -- Never more elements than allowed, each made already and standing once; the map has each element
  -- under the key of its entry, and nothing else.
  pub record IsBounded (c : TtlCache K R) : Type 0 where
    pub fits : length c.ll ≤ c.max_entries
    pub once : Once c.ll
    pub made : (el : ℕ) → has el c.ll ≡ true → el < c.next
    pub listed :
        (el : ℕ)
        → has el c.ll ≡ true
        → (k : K) × HasKey c.values el k × (lookup same k c.items ≡ some el)
    pub mapped :
        (k : K) (el : ℕ)
        → lookup same k c.items ≡ some el
        → (has el c.ll ≡ true) × HasKey c.values el k

  pub same_key :
      (values : List (ℕ × Entry K R)) (el : ℕ) (j k : K)
      → HasKey values el j
      → HasKey values el k
      → j ≡ k
  same_key values el j k (e, at, ej) (f, at', fk) =
      sym ej ∙ ap (λ (x : Entry K R). x.key) (some-injective _ _ (sym at ∙ at')) ∙ fk

  abbrev smaller : TtlCache K R → ℕ → K → TtlCache K R
  smaller c el k = record c { ll = remove el c.ll; items = delete same k c.items }

  pub removed :
      (c : TtlCache K R) (el : ℕ) (e : Entry K R)
      → lookup ℕ_discrete el c.values ≡ some e
      → remove_element same c el ≡ smaller c el e.key
  unfolding remove_element value_of
  removed c el e at = rw (remove_element, at) refl

  pub remove_element-IsBounded :
      (c : TtlCache K R) (el : ℕ) (k : K)
      → IsBounded c
      → lookup same k c.items ≡ some el
      → IsBounded (remove_element same c el)
        × (suc (length (remove_element same c el).ll) ≡ length c.ll)
        × (lookup same k (remove_element same c el).items ≡ none)
  remove_element-IsBounded c el k v found =
      let (e, at, ek) = (v.mapped k el found).1 in
      let there = (v.mapped k el found).0 in
      let l = length-remove el c.ll there in
      let q = removed c el e at ∙ ap (smaller c el) ek in
      rw (q) (
        record {
          fits = omega (arith, l, v.fits);
          once = remove-Once el c.ll v.once;
          made = λ x h. v.made x (ground (arith, h, has-remove x el c.ll v.once));
          listed = listed';
          mapped = mapped';
        },
        l,
        none-delete same k c.items,
      )
    where
      listed' :
          (x : ℕ)
          → has x (remove el c.ll) ≡ true
          → (j : K) × HasKey c.values x j × (lookup same j (delete same k c.items) ≡ some x)
      listed' x h =
          let (j, hk, at) = v.listed x (ground (arith, h, has-remove x el c.ll v.once)) in
          let apart : j ≢ k = λ e.
            let x_el : x ≡ el =
              some-injective _ _ (sym at ∙ ap (λ i. lookup same i c.items) e ∙ found) in
            ground (arith, has-remove x el c.ll v.once, h, x_el) in
          (j, hk, rw (lookup-delete same j k c.items, if_neg _ apart) at)

      mapped' :
          (j : K) (x : ℕ)
          → lookup same j (delete same k c.items) ≡ some x
          → (has x (remove el c.ll) ≡ true) × HasKey c.values x j
      mapped' j x h = elim (same j k) [
        | yes e ↦
            let gone : lookup same j (delete same k c.items) ≡ none =
              rw (lookup-delete same j k c.items, if_pos _ e) refl in
            ground (arith, gone, h)
        | no n ↦
            let old : lookup same j c.items ≡ some x =
              rw (lookup-delete same j k c.items, if_neg _ n) at h in
            let other : x ≢ el = λ e.
              n (same_key c.values x j k (v.mapped j x old).1 (rw (e) (v.mapped k el found).1)) in
            (
              ground (arith, other, has-remove x el c.ll v.once, (v.mapped j x old).0),
              (v.mapped j x old).1,
            )
      ]

  pub moved-IsBounded :
      (c : TtlCache K R) (el : ℕ)
      → IsBounded c
      → IsBounded (record c { ll = move_to_front el c.ll })
  moved-IsBounded c el v = record {
    fits = omega (arith, v.fits, length-move el c.ll);
    once = move-Once el c.ll v.once;
    made = λ x h. v.made x (sym (has-move x el c.ll v.once) ∙ h);
    listed = λ x h. v.listed x (sym (has-move x el c.ll v.once) ∙ h);
    mapped = λ k x h. (has-move x el c.ll v.once ∙ (v.mapped k x h).0, (v.mapped k x h).1);
  }

  pub max-remove_element :
      (c : TtlCache K R) (el : ℕ) → (remove_element same c el).max_entries ≡ c.max_entries
  unfolding remove_element
  max-remove_element c el = elim (Option-cases (value_of c el)) [
    | inl e ↦ rw (remove_element, e) refl
    | inr (x, e) ↦ rw (remove_element, e) refl
  ]

  pub items-remove_element :
      (c : TtlCache K R) (el : ℕ) (k : K)
      → lookup same k c.items ≡ none
      → lookup same k (remove_element same c el).items ≡ none
  unfolding remove_element
  items-remove_element c el k h = elim (Option-cases (value_of c el)) [
    | inl e ↦ rw (remove_element, e) h
    | inr (x, e) ↦ rw (remove_element, e) (ground (arith, lookup-delete same k x.key c.items, h))
  ]
