-- ===== src/AsnLookup/Cache/Elements.antt =====
-- The list of the cache's elements, and the deletion of a key.
use mathlib.Core.Logic.{ite, if_pos}
use crucible_analytic.Prelude.{
  ℕ, suc, ◌≡◌, refl, true, false, ◌&&◌, not, List, [], ◌∷◌, none, some, ◌==◌, length, arith,
}
use crucible_analytic.Prelude.Maps.{lookup}
use crucible_analytic.AsnLookup.Cache.{has, back, remove, move_to_front, delete}

-- An element stands once.
abbrev pub Once : List ℕ → Type 0
Once [] = Unit
Once (el ∷ ll) = (has el ll ≡ false) × Once ll

pub has-remove :
    (x el : ℕ) (ll : List ℕ) → Once ll → has x (remove el ll) ≡ (has x ll && not (x == el))
unfolding remove
has-remove x el [] o = refl
has-remove x el (y ∷ ll) o = ground (arith, o.0, has-remove x el ll o.1)

pub remove-Once : (el : ℕ) (ll : List ℕ) → Once ll → Once (remove el ll)
unfolding remove
remove-Once el [] o = tt
remove-Once el (y ∷ ll) o = ground (arith, o.0, o.1, has-remove y el ll o.1, remove-Once el ll o.1)

pub length-remove :
    (el : ℕ) (ll : List ℕ) → has el ll ≡ true → suc (length (remove el ll)) ≡ length ll
unfolding remove
length-remove el [] h = cc
length-remove el (y ∷ ll) h = ground (arith, h, length-remove el ll)

pub has-move : (x el : ℕ) (ll : List ℕ) → Once ll → has x (move_to_front el ll) ≡ has x ll
unfolding move_to_front
has-move x el ll o = ground (arith, has-remove x el ll o)

pub move-Once : (el : ℕ) (ll : List ℕ) → Once ll → Once (move_to_front el ll)
unfolding move_to_front
move-Once el ll o = ground (arith, o, has-remove el el ll o, remove-Once el ll o)

pub length-move : (el : ℕ) (ll : List ℕ) → length (move_to_front el ll) ≡ length ll
unfolding move_to_front
length-move el ll = ground (arith, length-remove el ll)

pub has-back : (el : ℕ) (ll : List ℕ) → back ll ≡ some el → has el ll ≡ true
unfolding back
has-back el [] h = cc
has-back el (y ∷ []) h = ground (arith, h)
has-back el (y ∷ z ∷ ll) h = ground (arith, has-back el (z ∷ ll) h)

pub no-back : (ll : List ℕ) → back ll ≡ none → length ll ≡ 0
unfolding back
no-back [] h = refl
no-back (y ∷ []) h = cc
no-back (y ∷ z ∷ ll) h = let e = no-back (z ∷ ll) h in absurd (omega (arith, e))

module _ {K : Type 0} (same : Discrete K) where
  pub lookup-delete :
      (j k : K) (items : List (K × ℕ))
      → lookup same j (delete same k items) ≡ ite (same j k) none (lookup same j items)
  unfolding lookup delete
  lookup-delete j k [] = ground arith
  lookup-delete j k ((i, el) ∷ items) = ground (arith, lookup-delete j k items)

  pub none-delete : (k : K) (items : List (K × ℕ)) → lookup same k (delete same k items) ≡ none
  none-delete k items = let self : k ≡ k = refl in rw (lookup-delete k k items, if_pos _ self) refl
