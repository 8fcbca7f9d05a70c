-- ===== src/TextSafe/Storable.antt =====
-- Storable on text and on arbitrary bytes, and the two questions about site identifiers.
use crucible_analytic.Prelude.{
  ℕ, zero, suc, ◌<◌, ◌≤◌, ◌≡◌, refl, sym, ap, ◌∙◌, Bool, true, false, not, List, [], ◌∷◌, ◌++◌,
  Bytes, All, keep_if, length, take, drop, arith, Bool-cases, inl, inr, ◌⊎◌, length-drop,
}
use crucible_analytic.Prelude.Text.{bytes_eq_refl, is_empty}
use crucible_analytic.TextSafe.{
  rune_len, is_dropped, valid_string, to_valid_utf8, map_runes, storable, is_site_char,
  all_site_chars, valid, keyable,
}
use crucible_analytic.TextSafe.Runes.{IsRune, concat, rune_len-append, zero_ends}

abbrev pub is_kept : Bytes → Bool
is_kept r = not (is_dropped r)

is_dropped-append : (r t : Bytes) → IsRune r → is_dropped (r ++ t) ≡ is_dropped r
unfolding is_dropped rune_len
is_dropped-append [] t h = absurd (omega (arith, h.some_byte))
is_dropped-append (a ∷ []) t h = ground (arith, h.whole, zero_ends)
is_dropped-append (a ∷ b ∷ []) t h = ground (arith, h.whole, zero_ends)
is_dropped-append (a ∷ b ∷ c ∷ r) t h = refl

to_valid-copies : (r t : Bytes) → to_valid_utf8 (length r) (r ++ t) ≡ r ++ to_valid_utf8 0 t
unfolding to_valid_utf8
to_valid-copies [] t = refl
to_valid-copies (a ∷ r) t = ap (λ (l : Bytes). a ∷ l) (to_valid-copies r t)

to_valid-concat : (rs : List Bytes) → All IsRune rs → to_valid_utf8 0 (concat rs) ≡ concat rs
unfolding to_valid_utf8
to_valid-concat [] h = refl
to_valid-concat ([] ∷ rs) h = absurd (omega (arith, h.0.some_byte))
to_valid-concat ((a ∷ r) ∷ rs) h = ground (
  arith,
  rune_len-append (a ∷ r) (concat rs) h.0,
  to_valid-copies r (concat rs),
  to_valid-concat rs h.1,
)

-- At the start of a rune the flag says nothing.
map_runes-start : (keep : Bool) (s : Bytes) → map_runes 0 keep s ≡ map_runes 0 true s
unfolding map_runes
map_runes-start keep [] = refl
map_runes-start keep (c ∷ s) = refl

map_runes-keeps : (r t : Bytes) → map_runes (length r) true (r ++ t) ≡ r ++ map_runes 0 true t
unfolding map_runes
map_runes-keeps [] t = refl
map_runes-keeps (a ∷ r) t = ap (λ (l : Bytes). a ∷ l) (map_runes-keeps r t)

map_runes-drops : (r t : Bytes) → map_runes (length r) false (r ++ t) ≡ map_runes 0 true t
unfolding map_runes
map_runes-drops [] t = map_runes-start false t
map_runes-drops (a ∷ r) t = map_runes-drops r t

map_runes-concat :
    (rs : List Bytes) → All IsRune rs → map_runes 0 true (concat rs) ≡ concat (keep_if is_kept rs)
unfolding map_runes
map_runes-concat [] h = refl
map_runes-concat ([] ∷ rs) h = absurd (omega (arith, h.0.some_byte))
map_runes-concat ((a ∷ r) ∷ rs) h = ground (
  arith,
  is_dropped-append (a ∷ r) (concat rs) h.0,
  rune_len-append (a ∷ r) (concat rs) h.0,
  map_runes-keeps r (concat rs),
  map_runes-drops r (concat rs),
  map_runes-concat rs h.1,
)

zero_or_suc : (n : ℕ) → (n ≡ 0) ⊎ ((m : ℕ) × (n ≡ suc m))
zero_or_suc zero = inl refl
zero_or_suc (suc n) = inr (n, refl)

valid_string-to_valid : (n : ℕ) (s : Bytes) → valid_string n s ≡ true → to_valid_utf8 n s ≡ s
unfolding valid_string to_valid_utf8
valid_string-to_valid n [] h = refl
valid_string-to_valid (suc n) (c ∷ s) h = ap (λ (l : Bytes). c ∷ l) (valid_string-to_valid n s h)
valid_string-to_valid zero (c ∷ s) h = elim (zero_or_suc (rune_len (c ∷ s))) [
  | inl e ↦ ground (arith, h, e)
  | inr (n, e) ↦ ground (arith, h, e, valid_string-to_valid n s)
]

storable_lem : (s : Bytes) → storable s ≡ map_runes 0 true (to_valid_utf8 0 s)
unfolding storable
storable_lem s = elim (Bool-cases (valid_string 0 s)) [
  | inl e ↦ rw (e, valid_string-to_valid 0 s e) refl
  | inr e ↦ rw e refl
]

-- Of text in UTF-8, Storable keeps the runes that are not dropped, in order.
storable-concat :
    (rs : List Bytes) → All IsRune rs → storable (concat rs) ≡ concat (keep_if is_kept rs)
storable-concat rs h =
    storable_lem (concat rs) ∙ ap (map_runes 0 true) (to_valid-concat rs h) ∙ map_runes-concat rs h

-- A rune that begins a text is a front of it.
front-IsRune :
    (n c : ℕ) (s : Bytes) → rune_len (c ∷ s) ≡ suc n → (n ≤ length s) × IsRune (c ∷ take n s)
unfolding rune_len
front-IsRune zero c s e =
    (omega arith, record { some_byte = omega arith; whole = ground (arith, e, zero_ends) })
front-IsRune (suc zero) c [] e = ground (arith, e, zero_ends)
front-IsRune (suc zero) c (b ∷ s) e =
    (omega arith, record { some_byte = omega arith; whole = ground (arith, e, zero_ends) })
front-IsRune (suc (suc zero)) c [] e = ground (arith, e, zero_ends)
front-IsRune (suc (suc zero)) c (b ∷ []) e = ground (arith, e, zero_ends)
front-IsRune (suc (suc zero)) c (b ∷ d ∷ s) e =
    (omega arith, record { some_byte = omega arith; whole = ground (arith, e, zero_ends) })
front-IsRune (suc (suc (suc zero))) c [] e = ground (arith, e, zero_ends)
front-IsRune (suc (suc (suc zero))) c (b ∷ []) e = ground (arith, e, zero_ends)
front-IsRune (suc (suc (suc zero))) c (b ∷ d ∷ []) e = ground (arith, e, zero_ends)
front-IsRune (suc (suc (suc zero))) c (b ∷ d ∷ x ∷ s) e =
    (omega arith, record { some_byte = omega arith; whole = ground (arith, e, zero_ends) })
front-IsRune (suc (suc (suc (suc n)))) c s e = ground (arith, e)

to_valid-drops :
    (n : ℕ) (s : Bytes) → n ≤ length s → to_valid_utf8 n s ≡ take n s ++ to_valid_utf8 0 (drop n s)
unfolding to_valid_utf8
to_valid-drops zero s h = refl
to_valid-drops (suc n) [] h = absurd (omega arith)
to_valid-drops (suc n) (c ∷ s) h = ap (λ (l : Bytes). c ∷ l) (to_valid-drops n s (omega arith))

to_valid-rune :
    (n c : ℕ) (s : Bytes)
    → rune_len (c ∷ s) ≡ suc n
    → to_valid_utf8 0 (c ∷ s) ≡ c ∷ to_valid_utf8 n s
unfolding to_valid_utf8
to_valid-rune n c s e = ground (arith, e)

-- What ToValidUTF8 leaves of any bytes is text.
to_valid-runes :
    (fuel : ℕ) (s : Bytes)
    → length s ≤ fuel
    → (rs : List Bytes) × All IsRune rs × (to_valid_utf8 0 s ≡ concat rs)
unfolding to_valid_utf8
to_valid-runes fuel [] h = ([], tt, refl)
to_valid-runes zero (c ∷ s) h = absurd (omega arith)
to_valid-runes (suc fuel) (c ∷ s) h = elim (zero_or_suc (rune_len (c ∷ s))) [
  | inl e ↦
      let (rs, runes, same) = to_valid-runes fuel s (omega arith) in
      (rs, runes, rw (to_valid_utf8, e) same)
  | inr (n, e) ↦
      let (le, rune) = front-IsRune n c s e in
      let (rs, runes, same) = to_valid-runes fuel (drop n s) (omega (arith, length-drop n s)) in
      (
        (c ∷ take n s) ∷ rs,
        (rune, runes),
        to_valid-rune n c s e
            ∙ ap (λ (l : Bytes). c ∷ l)
                (to_valid-drops n s le ∙ ap (λ (l : Bytes). take n s ++ l) same),
      )
]

keep_if-runes : (rs : List Bytes) → All IsRune rs → All IsRune (keep_if is_kept rs)
keep_if-runes [] h = tt
keep_if-runes (r ∷ rs) h = ground (arith, h.0, keep_if-runes rs h.1)

keep_if_twice : (rs : List Bytes) → keep_if is_kept (keep_if is_kept rs) ≡ keep_if is_kept rs
keep_if_twice [] = refl
keep_if_twice (r ∷ rs) = ground (arith, keep_if_twice rs)

-- What Storable gives, of any bytes, Storable leaves as it is.
storable-storable : (s : Bytes) → storable (storable s) ≡ storable s
storable-storable s =
    let (rs, runes, same) = to_valid-runes (length s) s (omega arith) in
    let once : storable s ≡ concat (keep_if is_kept rs) =
      storable_lem s ∙ ap (map_runes 0 true) same ∙ map_runes-concat rs runes in
    ap storable once
    ∙ storable-concat (keep_if is_kept rs) (keep_if-runes rs runes)
    ∙ ap concat (keep_if_twice rs)
    ∙ sym once

site_char : (c : ℕ) → is_site_char c ≡ true → (c < 0x7f) × (0x20 ≤ c)
unfolding is_site_char
site_char c h = ground arith

rune_len-ascii : (c : ℕ) (s : Bytes) → c < 0x80 → rune_len (c ∷ s) ≡ 1
unfolding rune_len
rune_len-ascii c s h = ground arith

is_dropped-ascii : (c : ℕ) (s : Bytes) → c < 0x7f → 0x20 ≤ c → is_dropped (c ∷ s) ≡ false
unfolding is_dropped
is_dropped-ascii c s h k = ground arith

to_valid-site : (s : Bytes) → all_site_chars s ≡ true → to_valid_utf8 0 s ≡ s
unfolding to_valid_utf8 all_site_chars
to_valid-site [] h = refl
to_valid-site (c ∷ s) h = ground (arith, h, site_char c, rune_len-ascii c s, to_valid-site s)

map_runes-site : (s : Bytes) → all_site_chars s ≡ true → map_runes 0 true s ≡ s
unfolding map_runes all_site_chars
map_runes-site [] h = refl
map_runes-site (c ∷ s) h =
    ground (arith, h, site_char c, rune_len-ascii c s, is_dropped-ascii c s, map_runes-site s)

storable-site : (s : Bytes) → all_site_chars s ≡ true → storable s ≡ s
storable-site s h = storable_lem s ∙ ap (map_runes 0 true) (to_valid-site s h) ∙ map_runes-site s h

-- Every identifier that Valid accepts is one that Keyable accepts.
valid-keyable : (s : Bytes) → valid s ≡ true → keyable s ≡ true
unfolding valid keyable is_empty
valid-keyable [] h = ground arith
valid-keyable (c ∷ s) h =
    let sites : all_site_chars (c ∷ s) ≡ true = ground arith in
    rw (storable-site (c ∷ s) sites, bytes_eq_refl (c ∷ s)) (ground (arith, h))
