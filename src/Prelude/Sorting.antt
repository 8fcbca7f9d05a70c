-- ===== src/Prelude/Sorting.antt =====
-- `sort.Slice` by a numeric key. Go leaves the order of equal keys open; insertion is one of the
-- orders that it may give, and the only one where the keys are distinct or are the values.
use mathlib.Core.List.{Perm, Permᴰ}
use crucible_analytic.Prelude.Tests.{leb, if◌then◌else◌}
use mathlib.Core.List.{List, [], ◌∷◌}
use mathlib.Core.Logic.{∥∥₁_elim, ∥∥₁_map}
use mathlib.Core.Bool.{Bool, true, false}
use mathlib.Core.List.Permᴰ as PermD
use native.Mathlib.Nat.{ℕ_set}
use crucible_analytic.Prelude.Lists.{length, keep_if}
use mathlib.Core.Path.{◌≡◌, refl, ap, ap₂, ◌∙◌}
use Prim.Native.Nat.{ℕ, suc}
use native.Mathlib.Decide.{ℕ_discrete}
use native.Mathlib.Omega.{arith}
use mathlib.Core.HLevel.{hedberg}

module _ {ℓ} {A : Type ℓ} (key : A → ℕ) where
  unfoldable pub insert_by : A → List A → List A
  insert_by x [] = x ∷ []
  insert_by x (y ∷ ys) = if leb (key x) (key y) then x ∷ y ∷ ys else y ∷ insert_by x ys

  unfoldable pub sort_by : List A → List A
  unfolding insert_by
  sort_by [] = []
  sort_by (x ∷ xs) = insert_by x (sort_by xs)

abbrev pub sort : List ℕ → List ℕ
sort = sort_by (λ n. n)

insert_comm :
    (a b : ℕ) (xs : List ℕ)
    → insert_by (λ n. n) a (insert_by (λ n. n) b xs)
      ≡ insert_by (λ n. n) b (insert_by (λ n. n) a xs)
unfolding insert_by
insert_comm a b [] = ground arith
insert_comm a b (x ∷ xs) = ground (arith, insert_comm a b xs)

sort-permᴰ : {xs ys : List ℕ} → Permᴰ xs ys → sort xs ≡ sort ys
unfolding sort_by
sort-permᴰ Permᴰ.nil = refl
sort-permᴰ (Permᴰ.cons e p) = ap₂ (insert_by (λ n. n)) e (sort-permᴰ p)
sort-permᴰ (Permᴰ.swap {a} {b} {a'} {b'} {l} e e') = rw (e, e') (insert_comm b' a' (sort l))
sort-permᴰ (Permᴰ.trans p q) = sort-permᴰ p ∙ sort-permᴰ q

List-set : IsSet (List ℕ)
List-set = hedberg List-discrete
  where
    List-discrete : Discrete (List ℕ)
    List-discrete = hlevel ℕ_discrete

-- Sorting forgets the order of its input.
pub sort-perm : {xs ys : List ℕ} → Perm xs ys → sort xs ≡ sort ys
sort-perm p = ∥∥₁_elim p (List-set _ _) sort-permᴰ

module _ {ℓ} {A : Type ℓ} where
  keep_if-permᴰ :
      (p : A → Bool) {xs ys : List A} → Permᴰ xs ys → Permᴰ (keep_if p xs) (keep_if p ys)
  keep_if-permᴰ p Permᴰ.nil = Permᴰ.nil
  keep_if-permᴰ p (Permᴰ.cons {a} {b} e h) = rw e (kept (p b) (keep_if-permᴰ p h))
    where
      kept :
          (t : Bool) {us vs : List A}
          → Permᴰ us vs
          → Permᴰ (if t then b ∷ us else us) (if t then b ∷ vs else vs)
      kept true h = Permᴰ.cons refl h
      kept false h = h
  keep_if-permᴰ p (Permᴰ.swap {a} {b} {a'} {b'} {l} e e') = rw (e, e') (swapped (p a') (p b'))
    where
      swapped :
          (s t : Bool)
          → Permᴰ
              (if t
                then b' ∷ (if s then a' ∷ keep_if p l else keep_if p l)
                else (if s then a' ∷ keep_if p l else keep_if p l))
              (if s
                then a' ∷ (if t then b' ∷ keep_if p l else keep_if p l)
                else (if t then b' ∷ keep_if p l else keep_if p l))
      swapped true true = Permᴰ.swap refl refl
      swapped true false = PermD.refl _
      swapped false true = PermD.refl _
      swapped false false = PermD.refl _
  keep_if-permᴰ p (Permᴰ.trans h k) = Permᴰ.trans (keep_if-permᴰ p h) (keep_if-permᴰ p k)

  length-permᴰ : {xs ys : List A} → Permᴰ xs ys → length xs ≡ length ys
  length-permᴰ Permᴰ.nil = refl
  length-permᴰ (Permᴰ.cons e h) = ap suc (length-permᴰ h)
  length-permᴰ (Permᴰ.swap e e') = refl
  length-permᴰ (Permᴰ.trans h k) = length-permᴰ h ∙ length-permᴰ k

  pub keep_if-perm :
      (p : A → Bool) {xs ys : List A} → Perm xs ys → Perm (keep_if p xs) (keep_if p ys)
  keep_if-perm p h = ∥∥₁_map h (keep_if-permᴰ p)

  pub length-perm : {xs ys : List A} → Perm xs ys → length xs ≡ length ys
  length-perm h = ∥∥₁_elim h (ℕ_set _ _) length-permᴰ
