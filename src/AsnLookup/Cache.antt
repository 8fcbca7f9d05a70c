-- ===== src/AsnLookup/Cache.antt =====
-- internal/asnlookup/cache.go: the LRU cache with a time to live. An element of the linked list is its
-- number in the order in which they were made, `values` is what the elements point to, and `items` the
-- map from keys to elements. The clock is an argument.
pub mod Elements
pub mod Agreement
pub mod Laws
use mathlib.Core.Logic.{ite}
use crucible_analytic.Prelude.{
  ℕ, ◌+◌, Bool, List, [], ◌∷◌, Option, none, some, any, ltb, leb, ◌==◌, if◌then◌else◌, length,
  ℕ_discrete,
}
use crucible_analytic.Prelude.Maps.{lookup, insert}

pub record Entry (K R : Type 0) : Type 0 where
  pub key : K
  pub result : R
  pub expires_at : ℕ

pub record TtlCache (K R : Type 0) : Type 0 where
  pub max_entries : ℕ
  pub ttl : ℕ
  pub next : ℕ
  pub values : List (ℕ × Entry K R)
  pub ll : List ℕ
  pub items : List (K × ℕ)

abbrev pub new_ttl_cache : {K R : Type 0} → ℕ → ℕ → TtlCache K R
new_ttl_cache max_entries ttl = record {
  max_entries = max_entries;
  ttl = ttl;
  next = 0;
  values = [];
  ll = [];
  items = [];
}

abbrev pub has : ℕ → List ℕ → Bool
has el ll = any (λ x. x == el) ll

-- The methods of the list: `Back`, `Remove`, and `MoveToFront`, which leaves an element that is not
-- of the list.
unfoldable pub back : List ℕ → Option ℕ
back [] = none
back (el ∷ []) = some el
back (el ∷ x ∷ ll) = back (x ∷ ll)

unfoldable pub remove : ℕ → List ℕ → List ℕ
remove el [] = []
remove el (x ∷ ll) = let rest = remove el ll in if x == el then ll else x ∷ rest

unfoldable pub move_to_front : ℕ → List ℕ → List ℕ
move_to_front el ll = if has el ll then el ∷ remove el ll else ll

module _ {K R : Type 0} where
  unfoldable pub len : TtlCache K R → ℕ
  len c = length c.ll

  -- `el.Value`; every element has one.
  unfoldable pub value_of : TtlCache K R → ℕ → Option (Entry K R)
  value_of c el = lookup ℕ_discrete el c.values

module _ {K : Type 0} (same : Discrete K) where
  -- Go's `delete`.
  unfoldable pub delete : K → List (K × ℕ) → List (K × ℕ)
  delete k [] = []
  delete k ((j, el) ∷ items) = let rest = delete k items in ite (same j k) rest ((j, el) ∷ rest)

module _ {K R : Type 0} (same : Discrete K) where
  unfoldable pub remove_element : TtlCache K R → ℕ → TtlCache K R
  remove_element c el = elim (value_of c el) [
    | none ↦ c
    | some e ↦ record c { ll = remove el c.ll; items = delete same e.key c.items }
  ]

  unfoldable pub get_value : TtlCache K R → ℕ → ℕ → Option (Entry K R) → TtlCache K R × Option R
  get_value c now el none = (c, none)
  get_value c now el (some e) =
      if ltb e.expires_at now
      then (remove_element c el, none)
      else (record c { ll = move_to_front el c.ll }, some e.result)

  unfoldable pub get_found : TtlCache K R → ℕ → Option ℕ → TtlCache K R × Option R
  get_found c now none = (c, none)
  get_found c now (some el) = get_value c now el (value_of c el)

  unfoldable pub get : TtlCache K R → ℕ → K → TtlCache K R × Option R
  get c now k = get_found c now (lookup same k c.items)

  unfoldable pub make_room : TtlCache K R → TtlCache K R
  make_room c =
      let smaller : TtlCache K R = elim (back c.ll) [
        | none ↦ c
        | some oldest ↦ remove_element c oldest
      ] in
      if leb c.max_entries (length c.ll) then smaller else c

  unfoldable pub push : TtlCache K R → Entry K R → TtlCache K R
  push c e = record c {
    next = c.next + 1;
    values = insert ℕ_discrete c.next e c.values;
    ll = c.next ∷ c.ll;
    items = insert same e.key c.next c.items;
  }

  -- The entry of an element that is there gets the new result and the new time.
  unfoldable pub renew : TtlCache K R → ℕ → ℕ → R → Option (Entry K R) → TtlCache K R
  renew c now el r none = c
  renew c now el r (some e) = record c {
    values = insert ℕ_discrete el (record e { result = r; expires_at = now + c.ttl }) c.values;
    ll = move_to_front el c.ll;
  }

  unfoldable pub set_found : TtlCache K R → ℕ → K → R → Option ℕ → TtlCache K R
  set_found c now k r (some el) = renew c now el r (value_of c el)
  set_found c now k r none =
      push (make_room c) (record { key = k; result = r; expires_at = now + c.ttl })

  unfoldable pub set : TtlCache K R → ℕ → K → R → TtlCache K R
  set c now k r = set_found c now k r (lookup same k c.items)
