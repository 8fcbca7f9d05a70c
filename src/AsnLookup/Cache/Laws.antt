-- ===== src/AsnLookup/Cache/Laws.antt =====
-- The bounds of the cache under its operations.
use mathlib.Core.Logic.{if_pos, if_neg}
use crucible_analytic.Prelude.{
  ℕ, ◌+◌, ◌<◌, ◌≡◌, ◌≢◌, inl, inr, refl, sym, ap, ◌∙◌, true, false, ◌∷◌, Option, none, some, ltb,
  leb, length, arith, Option-cases, Bool-cases, ℕ_discrete,
}
use mathlib.Core.Option.{some-injective}
use crucible_analytic.Prelude.Maps.{lookup, insert, lookup-insert}
use crucible_analytic.AsnLookup.Cache.Agreement.{
  HasKey, IsBounded, same_key, remove_element-IsBounded, moved-IsBounded, max-remove_element,
  items-remove_element,
}
use crucible_analytic.AsnLookup.Cache.Elements.{has-back, no-back}
use crucible_analytic.AsnLookup.Cache.{
  Entry, TtlCache, has, back, value_of, get_value, get_found, get, make_room, push, renew,
  set_found, set,
}

module _ {K R : Type 0} (same : Discrete K) where
  get-IsBounded :
      (c : TtlCache K R) (now : ℕ) (k : K) → IsBounded same c → IsBounded same (get same c now k).0
  unfolding get get_value
  get-IsBounded c now k v = elim (Option-cases (lookup same k c.items)) [
    | inl e ↦ rw (e) (unfold get_found in v)
    | inr (el, e) ↦ rw (e) (unfold get_found in got el e (value_of c el))
  ]
    where
      got :
          (el : ℕ)
          → lookup same k c.items ≡ some el
          → (o : Option (Entry K R)) → IsBounded same (get_value same c now el o).0
      got el e none = v
      got el e (some x) = elim (Bool-cases (ltb x.expires_at now)) [
        | inl old ↦ rw (old) (remove_element-IsBounded same c el k v e).0
        | inr new ↦ rw (new) (moved-IsBounded same c el v)
      ]

  -- Where there is room for an element, and none is under the key.
  abbrev HasRoom : TtlCache K R → K → Type 0
  HasRoom c k = IsBounded same c × (length c.ll < c.max_entries) × (lookup same k c.items ≡ none)

  make_room-HasRoom :
      (c : TtlCache K R) (k : K)
      → 0 < c.max_entries
      → IsBounded same c
      → lookup same k c.items ≡ none
      → HasRoom (make_room same c) k
  unfolding make_room
  make_room-HasRoom c k pos v absent = elim (Bool-cases (leb c.max_entries (length c.ll))) [
    | inr e ↦ rw (e) (v, ground (arith, e), absent)
    | inl e ↦ elim (Option-cases (back c.ll)) [
      | inl b ↦ let n = no-back c.ll b in absurd (ground (arith, e, n, pos))
      | inr (el, b) ↦
          let (j, hk, at) = v.listed el (has-back el c.ll b) in
          let (w, l, gone) = remove_element-IsBounded same c el j v at in
          rw (e, b)
            (
              w,
              ground (arith, l, v.fits, max-remove_element same c el),
              items-remove_element same c el k absent,
            )
    ]
  ]

  push-IsBounded :
      (c : TtlCache K R) (e : Entry K R) → HasRoom c e.key → IsBounded same (push same c e)
  unfolding push
  push-IsBounded c e (v, room, absent) = record {
    fits = omega (arith, room);
    once = (fresh, v.once);
    made = λ x h. made' x h;
    listed = listed';
    mapped = mapped';
  }
    where
      fresh : has c.next c.ll ≡ false
      fresh = elim (Bool-cases (has c.next c.ll)) [
        | inl h ↦ let lt = v.made c.next h in absurd (omega (arith, lt))
        | inr h ↦ h
      ]

      made' : (x : ℕ) → has x (c.next ∷ c.ll) ≡ true → x < c.next + 1
      made' x h = ground (arith, h, v.made x)

      kept :
          (x : ℕ) (k : K)
          → has x c.ll ≡ true
          → HasKey same c.values x k
          → HasKey same (insert ℕ_discrete c.next e c.values) x k
      kept x k h (f, at, fk) =
          let lt = v.made x h in
          let apart : c.next ≢ x = λ n. omega (arith, n, lt) in
          (f, rw (lookup-insert ℕ_discrete x c.next e c.values, if_neg _ apart) at, fk)

      new : HasKey same (insert ℕ_discrete c.next e c.values) c.next e.key
      new = (e, rw (lookup-insert ℕ_discrete c.next c.next e c.values, if_pos _ refl) refl, refl)

      listed' :
          (x : ℕ)
          → has x (c.next ∷ c.ll) ≡ true
          → (k : K) × HasKey same (insert ℕ_discrete c.next e c.values) x k
            × (lookup same k (insert same e.key c.next c.items) ≡ some x)
      listed' x h = elim (ℕ_discrete c.next x) [
        | yes n ↦
            rw (← n)
              (e.key, new, rw (lookup-insert same e.key e.key c.next c.items, if_pos _ refl) refl)
        | no n ↦
            let there : has x c.ll ≡ true = ground (arith, h, n) in
            let (k, hk, at) = v.listed x there in
            let apart : e.key ≢ k =
              λ q. cc (sym at ∙ ap (λ i. lookup same i c.items) (sym q) ∙ absent) in
            (
              k,
              kept x k there hk,
              rw (lookup-insert same k e.key c.next c.items, if_neg _ apart) at,
            )
      ]

      mapped' :
          (k : K) (x : ℕ)
          → lookup same k (insert same e.key c.next c.items) ≡ some x
          → (has x (c.next ∷ c.ll) ≡ true) × HasKey same (insert ℕ_discrete c.next e c.values) x k
      mapped' k x h = elim (same e.key k) [
        | yes q ↦
            let n : c.next ≡ x =
              some-injective _ _
                (rw (lookup-insert same k e.key c.next c.items, if_pos _ q) at h) in
            rw (← n, ← q) (ground arith, new)
        | no q ↦
            let old : lookup same k c.items ≡ some x =
              rw (lookup-insert same k e.key c.next c.items, if_neg _ q) at h in
            let (there, hk) = v.mapped k x old in (ground (arith, there), kept x k there hk)
      ]

  renew-IsBounded :
      (c : TtlCache K R) (now el : ℕ) (k : K) (r : R)
      → IsBounded same c
      → lookup same k c.items ≡ some el
      → IsBounded same (renew same c now el r (value_of c el))
  unfolding renew value_of
  renew-IsBounded c now el k r v found =
      let (e, at, ek) = (v.mapped k el found).1 in
      let w = moved-IsBounded same c el v in
      rw (at) (record {
        fits = w.fits;
        once = w.once;
        made = w.made;
        listed = λ x h. let (j, hk, there) = w.listed x h in (j, kept e at x j hk, there);
        mapped = λ j x h. ((w.mapped j x h).0, kept e at x j (w.mapped j x h).1);
      })
    where
      kept :
          (e : Entry K R)
          → lookup ℕ_discrete el c.values ≡ some e
          → (x : ℕ) (j : K) → HasKey same c.values x j
          → HasKey same
              (insert ℕ_discrete el (record e { result = r; expires_at = now + c.ttl }) c.values)
              x
              j
      kept e at x j hk = elim (ℕ_discrete el x) [
        | yes n ↦ (
          record e { result = r; expires_at = now + c.ttl },
          rw (lookup-insert, if_pos _ n) refl,
          same_key same c.values el e.key j (e, at, refl) (rw (n) hk),
        )
        | no n ↦ (hk.0, rw (lookup-insert, if_neg _ n) hk.1, hk.2)
      ]

  set-IsBounded :
      (c : TtlCache K R) (now : ℕ) (k : K) (r : R)
      → 0 < c.max_entries
      → IsBounded same c
      → IsBounded same (set same c now k r)
  unfolding set set_found
  set-IsBounded c now k r pos v = elim (Option-cases (lookup same k c.items)) [
    | inl e ↦ rw (e) (push-IsBounded (make_room same c) _ (make_room-HasRoom c k pos v e))
    | inr (el, e) ↦ rw (e) (renew-IsBounded c now el k r v e)
  ]

  -- With a positive capacity, get and set keep the cache within its capacity, each of its elements
  -- once in the list, and the map and the list in agreement: the map has every element of the list
  -- under the key of its entry, and no other element.
  pub operations-IsBounded :
      (c : TtlCache K R) (now : ℕ) (k : K) (r : R)
      → 0 < c.max_entries
      → IsBounded same c
      → IsBounded same (get same c now k).0 × IsBounded same (set same c now k r)
  operations-IsBounded c now k r pos v = (get-IsBounded c now k v, set-IsBounded c now k r pos v)
