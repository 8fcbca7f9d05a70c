-- ===== src/TextSafe.antt =====
-- internal/textsafe and internal/siteid: which strings can be stored, and as keys. Text is bytes, so
-- UTF-8 is read as Go's unicode/utf8 reads it; a rune is the bytes of its encoding.
pub mod Runes
pub mod Storable
pub mod FitBytes
mod Examples
use crucible_analytic.Prelude.{
  ℕ, zero, suc, ◌-◌, Bool, true, false, not, ◌&&◌, ◌||◌, List, [], ◌∷◌, Bytes, ltb, leb, ◌==◌,
  if◌then◌else◌, length, get_or, take,
}
use crucible_analytic.Prelude.Text.{bytes_eq, is_empty}

abbrev pub is_within : ℕ → ℕ → ℕ → Bool
is_within low high b = leb low b && leb b high

unfoldable pub is_continuation : ℕ → Bool
is_continuation b = is_within 0x80 0xBF b

-- The first two bytes of a rune of three bytes, without overlong forms and surrogates.
unfoldable pub is_lead3 : ℕ → ℕ → Bool
unfolding is_continuation
is_lead3 a b =
    (a == 0xE0 && is_within 0xA0 0xBF b)
    || (is_within 0xE1 0xEC a && is_continuation b)
    || (a == 0xED && is_within 0x80 0x9F b)
    || (is_within 0xEE 0xEF a && is_continuation b)

-- The first two bytes of a rune of four bytes.
unfoldable pub is_lead4 : ℕ → ℕ → Bool
unfolding is_continuation
is_lead4 a b =
    (a == 0xF0 && is_within 0x90 0xBF b)
    || (is_within 0xF1 0xF3 a && is_continuation b)
    || (a == 0xF4 && is_within 0x80 0x8F b)

-- The bytes of the rune that a text begins with; 0 if it begins with none. A byte that is not
-- there reads as 0, which continues no rune.
unfoldable pub rune_len : Bytes → ℕ
rune_len [] = 0
rune_len (a ∷ s) =
    if ltb a 0x80
    then 1
    else if is_continuation (get_or s 0 0) && is_within 0xC2 0xDF a
    then 2
    else if is_continuation (get_or s 1 0) && is_lead3 a (get_or s 0 0)
    then 3
    else if is_continuation (get_or s 2 0)
        && (is_continuation (get_or s 1 0) && is_lead4 a (get_or s 0 0))
    then 4
    else 0

-- `r < 0x20 || r == 0x7f || r == 0x2028 || r == 0x2029`, of the rune that a text begins with.
unfoldable pub is_dropped : Bytes → Bool
is_dropped [] = false
is_dropped (a ∷ s) =
    ltb a 0x20
    || a == 0x7f
    || (a == 0xE2 && (get_or s 0 0 == 0x80 && (get_or s 1 0 == 0xA8 || get_or s 1 0 == 0xA9)))

-- `utf8.ValidString`. The number is how many bytes of the rune that has begun are still to come.
unfoldable pub valid_string : ℕ → Bytes → Bool
valid_string n [] = true
valid_string (suc n) (c ∷ s) = valid_string n s
valid_string zero (c ∷ s) = elim (rune_len (c ∷ s)) [ zero ↦ false | suc n ↦ valid_string n s ]

-- `strings.ToValidUTF8(s, "")`.
unfoldable pub to_valid_utf8 : ℕ → Bytes → Bytes
to_valid_utf8 n [] = []
to_valid_utf8 (suc n) (c ∷ s) = c ∷ to_valid_utf8 n s
to_valid_utf8 zero (c ∷ s) = elim (rune_len (c ∷ s)) [
  | zero ↦ to_valid_utf8 zero s
  | suc n ↦ c ∷ to_valid_utf8 n s
]

-- `strings.Map` with a function that drops some runes and keeps the others as they are. The flag
-- says whether the rune that has begun is kept.
unfoldable pub map_runes : ℕ → Bool → Bytes → Bytes
map_runes n keep [] = []
map_runes (suc n) true (c ∷ s) = c ∷ map_runes n true s
map_runes (suc n) false (c ∷ s) = map_runes n false s
map_runes zero keep (c ∷ s) = elim (is_dropped (c ∷ s)) [
  | true ↦ map_runes (rune_len (c ∷ s) - 1) false s
  | false ↦ c ∷ map_runes (rune_len (c ∷ s) - 1) true s
]

unfoldable pub storable : Bytes → Bytes
unfolding valid_string to_valid_utf8 map_runes
storable s = map_runes 0 true (if valid_string 0 s then s else to_valid_utf8 0 s)

-- `utf8.RuneStart`.
unfoldable pub rune_start : ℕ → Bool
rune_start b = not (is_continuation b)

-- `for cut > 0 && !utf8.RuneStart(s[cut]) { cut-- }`.
unfoldable pub back_up : ℕ → Bytes → ℕ
back_up zero s = 0
back_up (suc cut) s =
    let earlier = back_up cut s in if rune_start (get_or s (suc cut) 0) then suc cut else earlier

-- A bound below 0 is 0: both give the empty text.
unfoldable pub fit_bytes : Bytes → ℕ → Bytes
unfolding back_up
fit_bytes s max_bytes =
    if leb (length s) max_bytes
    then s
    else if max_bytes == 0
    then []
    else take (back_up max_bytes s) s

abbrev pub max_len : ℕ
max_len = 64

abbrev pub max_key_bytes : ℕ
max_key_bytes = 256

-- `[a-zA-Z0-9_-]`.
unfoldable pub is_site_char : ℕ → Bool
is_site_char c =
    is_within b'a' b'z' c
    || is_within b'A' b'Z' c
    || is_within b'0' b'9' c
    || c == b'_'
    || c == b'-'

unfoldable pub all_site_chars : Bytes → Bool
all_site_chars [] = true
all_site_chars (c ∷ s) = is_site_char c && all_site_chars s

-- `^[a-zA-Z0-9_-]{1,64}$`.
unfoldable pub valid : Bytes → Bool
valid s = all_site_chars s && (leb 1 (length s) && leb (length s) max_len)

unfoldable pub keyable : Bytes → Bool
keyable s = not (is_empty s) && (leb (length s) max_key_bytes && bytes_eq (storable s) s)
