-- ===== src/TextSafe/Examples.antt =====
-- Text with a letter, a line break and a letter of two bytes.
use crucible_analytic.Prelude.{◌≡◌, refl, List, [], ◌∷◌, Bytes, All, codes, arith}
use crucible_analytic.TextSafe.{
  rune_len, storable, fit_bytes, valid, keyable, all_site_chars, is_site_char,
}
use crucible_analytic.TextSafe.Runes.{IsRune}

abbrev runes : List Bytes
runes = codes "a" ∷ codes "\n" ∷ (0xC4 ∷ 0xB1 ∷ []) ∷ []

runes-IsRune : All IsRune runes
unfolding rune_len crucible_analytic.TextSafe.is_continuation
runes-IsRune = (
  record { some_byte = omega arith; whole = refl },
  (
    record { some_byte = omega arith; whole = refl },
    (record { some_byte = omega arith; whole = refl }, tt),
  ),
)

-- A byte that continues nothing, a separator and the front of a rune.
abbrev broken : Bytes
broken = 0x80 ∷ b'x' ∷ 0xE2 ∷ 0x80 ∷ 0xA8 ∷ 0xF0 ∷ 0x9F ∷ []

storable-broken : storable broken ≡ codes "x"
unfolding storable rune_len crucible_analytic.TextSafe.is_continuation
    crucible_analytic.TextSafe.is_dropped crucible_analytic.TextSafe.is_lead3
storable-broken = refl
