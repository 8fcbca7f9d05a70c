-- ===== src/TextSafe/Runes.antt =====
-- Text as a list of runes.
use crucible_analytic.Prelude.{
  ℕ, zero, suc, ◌<◌, ◌≤◌, ◌≡◌, refl, true, false, List, [], ◌∷◌, ◌++◌, Bytes, length, get_or, arith,
}
use crucible_analytic.TextSafe.{rune_len, is_continuation, is_lead3, is_lead4}

-- The bytes of one rune, and no others.
pub record IsRune (r : Bytes) : Type 0 where
  pub some_byte : 0 < length r
  pub whole : rune_len r ≡ length r

abbrev pub concat : List Bytes → Bytes
concat [] = []
concat (r ∷ rs) = r ++ concat rs

pub zero_ends : is_continuation 0 ≡ false
unfolding is_continuation
zero_ends = refl

lead3_tail : (a b : ℕ) → is_lead3 a b ≡ true → is_continuation b ≡ true
unfolding is_lead3 is_continuation
lead3_tail a b h = ground arith

lead4_tail : (a b : ℕ) → is_lead4 a b ≡ true → is_continuation b ≡ true
unfolding is_lead4 is_continuation
lead4_tail a b h = ground arith

lead3_head : (a b : ℕ) → is_lead3 a b ≡ true → is_continuation a ≡ false
unfolding is_lead3 is_continuation
lead3_head a b h = ground arith

lead4_head : (a b : ℕ) → is_lead4 a b ≡ true → is_continuation a ≡ false
unfolding is_lead4 is_continuation
lead4_head a b h = ground arith

ascii_head : (a : ℕ) → a < 0x80 → is_continuation a ≡ false
unfolding is_continuation
ascii_head a h = ground arith

lead2_head : (a : ℕ) → 0xC2 ≤ a → is_continuation a ≡ false
unfolding is_continuation
lead2_head a h = ground arith

-- What stands behind a rune does not change it.
pub rune_len-append : (r t : Bytes) → IsRune r → rune_len (r ++ t) ≡ length r
unfolding rune_len
rune_len-append [] t h = absurd (omega (arith, h.some_byte))
rune_len-append (a ∷ []) t h = ground (arith, h.whole, zero_ends)
rune_len-append (a ∷ b ∷ []) t h = ground (arith, h.whole, zero_ends)
rune_len-append (a ∷ b ∷ c ∷ []) t h = ground (arith, h.whole, zero_ends)
rune_len-append (a ∷ b ∷ c ∷ d ∷ []) t h = ground (arith, h.whole)
rune_len-append (a ∷ b ∷ c ∷ d ∷ e ∷ r) t h = ground (arith, h.whole)

-- A rune's first byte starts it, and the others continue it.
pub rune_head : (a : ℕ) (r : Bytes) → IsRune (a ∷ r) → is_continuation a ≡ false
unfolding rune_len
rune_head a r h = ground (
  arith,
  h.whole,
  ascii_head a,
  lead2_head a,
  lead3_head a (get_or r 0 0),
  lead4_head a (get_or r 0 0),
)

pub rune_tail :
    (i : ℕ) (r : Bytes) → IsRune r → suc i < length r → is_continuation (get_or r (suc i) 0) ≡ true
unfolding rune_len
rune_tail i [] h lt = absurd (omega arith)
rune_tail i (a ∷ []) h lt = absurd (omega arith)
rune_tail zero (a ∷ b ∷ r) h lt = ground (arith, h.whole, lead3_tail a b, lead4_tail a b)
rune_tail (suc zero) (a ∷ b ∷ r) h lt = ground (arith, h.whole)
rune_tail (suc (suc zero)) (a ∷ b ∷ r) h lt = ground (arith, h.whole)
rune_tail (suc (suc (suc i))) (a ∷ b ∷ r) h lt = ground (arith, h.whole)
