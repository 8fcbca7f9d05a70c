-- ===== src/Prelude/Maps.antt =====
-- Go's maps as association lists: a lookup, a write, and the deletions of a loop over the map.
use crucible_analytic.Prelude.Tests.{if◌then◌else◌}
use crucible_analytic.Prelude.Lists.{keep_if}
use mathlib.Core.Bool.{Bool}
use mathlib.Core.List.{List, [], ◌∷◌}
use mathlib.Core.Logic.{ite}
use mathlib.Core.Option.{Option, none, some}
use mathlib.Core.Path.{◌≡◌, refl}
use native.Mathlib.Omega.{arith}

module _ {K V : Type 0} (same : Discrete K) where
  unfoldable pub lookup : K → List (K × V) → Option V
  lookup k [] = none
  lookup k ((j, v) ∷ m) = ite (same j k) (some v) (lookup k m)

  unfoldable pub insert : K → V → List (K × V) → List (K × V)
  insert k v [] = (k, v) ∷ []
  insert k v ((j, w) ∷ m) = ite (same j k) ((k, v) ∷ m) ((j, w) ∷ insert k v m)

  pub lookup-insert :
      (j k : K) (v : V) (m : List (K × V))
      → lookup j (insert k v m) ≡ ite (same k j) (some v) (lookup j m)
  unfolding lookup insert
  lookup-insert j k v [] = refl
  lookup-insert j k v ((i, w) ∷ m) = ground (arith, lookup-insert j k v m)

  -- A key stands once.
  abbrev pub Distinct : List (K × V) → Type 0
  Distinct [] = Unit
  Distinct ((k, v) ∷ m) = (lookup k m ≡ none) × Distinct m

  pub insert-Distinct : (k : K) (v : V) (m : List (K × V)) → Distinct m → Distinct (insert k v m)
  unfolding insert lookup
  insert-Distinct k v [] d = (refl, tt)
  insert-Distinct k v ((j, w) ∷ m) d =
      ground (arith, insert-Distinct k v m d.1, lookup-insert j k v m)

  pub lookup-keep_none :
      (p : V → Bool) (k : K) (m : List (K × V))
      → lookup k m ≡ none
      → lookup k (keep_if (λ (_, v). p v) m) ≡ none
  unfolding lookup
  lookup-keep_none p k [] e = refl
  lookup-keep_none p k ((j, v) ∷ m) e = ground (arith, lookup-keep_none p k m)

  pub keep_if-Distinct :
      (p : V → Bool) (m : List (K × V)) → Distinct m → Distinct (keep_if (λ (_, v). p v) m)
  keep_if-Distinct p [] d = tt
  keep_if-Distinct p ((k, v) ∷ m) d =
      ground (arith, keep_if-Distinct p m d.1, lookup-keep_none p k m)

  -- Behind a loop that deletes by value, a key has the value that it had, or none.
  pub lookup-keep_if :
      (p : V → Bool) (k : K) (v : V) (m : List (K × V))
      → Distinct m
      → lookup k m ≡ some v
      → lookup k (keep_if (λ (_, u). p u) m) ≡ (if p v then some v else none)
  unfolding lookup
  lookup-keep_if p k v [] d e = cc
  lookup-keep_if p k v ((j, w) ∷ m) d e =
      ground (arith, lookup-keep_if p k v m d.1, lookup-keep_none p k m)
