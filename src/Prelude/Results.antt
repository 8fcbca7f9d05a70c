-- ===== src/Prelude/Results.antt =====
-- Go's `(value, error)` and `(value, ok)` results, and the chains of early returns.
use mathlib.Core.Bool.{Bool, true, false}
use mathlib.Core.Path.{◌≡◌, refl, ap}
use mathlib.Core.Logic.{◌⊎◌, inl, inr}
use mathlib.Core.Option.{Option, none, some}

-- An error of the model's own type, or a value.
pub data Result {ℓ} (E : Type 0) (A : Type ℓ) : Type ℓ where
  err : (error : E) → Result E A
  ok : (value : A) → Result E A

pub Result-cases {ℓ} :
    {E : Type 0} {A : Type ℓ} (r : Result E A) → ((e : E) × (r ≡ err e)) ⊎ ((a : A) × (r ≡ ok a))
Result-cases (err e) = inl (e, refl)
Result-cases (ok a) = inr (a, refl)

pub ok-injective {ℓ} :
    {E : Type 0} {A : Type ℓ} (x y : A) → ◌≡◌ {A = Result E A} (ok x) (ok y) → x ≡ y
ok-injective {E = E} {A = A} x y e =
    ap (λ (r : Result E A). elim r as (λ _. A) [ err _ ↦ x | ok z ↦ z ]) e

module _ {E : Type 0} where
  -- `if !ok { return e }`.
  abbrev pub or_fail {ℓ} : {A : Type ℓ} → Option A → E → Result E A
  or_fail (some value) error = ok value
  or_fail none error = err error

  -- `if !b { return e }`.
  abbrev pub guard : Bool → E → Result E (Unit {0})
  guard b error = elim b [ true ↦ ok tt | false ↦ err error ]

  infixl 5 ◌>>=◌ ◌>>◌
  abbrev pub ◌>>=◌ {ℓ κ} : {A : Type ℓ} → Result E A → {B : Type κ} → (A → Result E B) → Result E B
  err error >>= next = err error
  ok value >>= next = next value

  abbrev pub ◌>>◌ {κ} : Result E (Unit {0}) → {B : Type κ} → Result E B → Result E B
  err error >> next = err error
  ok _ >> next = next
