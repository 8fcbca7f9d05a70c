-- ===== src/Panel/Recovery/Typed.antt =====
-- What somebody may write for a code, and that it is read as the code.
use crucible_analytic.Prelude.{
  ℕ, zero, suc, ◌<◌, length, ◌+◌, ◌%◌, ◌≡◌, refl, sym, ap, ◌∙◌, Bool, true, false, not, ◌&&◌, ◌||◌,
  List, [], ◌∷◌, Bytes, any, All, arith, ltb, leb, ◌==◌, get_or, Bool-cases, inl, inr,
}
use crucible_analytic.Prelude.Text.{is_space, trim_left, trim_right, trim_space, is_empty}
use crucible_analytic.Panel.Recovery.{
  recovery_alphabet, recovery_group, in_alphabet, new_recovery_code, format_from,
  format_recovery_code, upper, read_rune, read_runes, normalize_recovery_code,
}

abbrev pub is_letter : ℕ → Bool
is_letter r = leb b'A' r && leb r b'Z'

-- A letter, or a digit from 2 to 7.
abbrev pub is_code_rune : ℕ → Bool
is_code_rune r = is_letter r || (leb b'2' r && leb r b'7')

-- An ASCII character that is no letter, and no digit up to 7.
abbrev pub is_mark : ℕ → Bool
is_mark r =
    ltb r 128
    && not (is_letter r)
    && not (leb b'a' r && leb r b'z')
    && not (leb b'0' r && leb r b'7')

-- A code, and what somebody may write for it.
pub data IsWriting : Bytes → Bytes → Type 0 where
  nothing : IsWriting [] []
  a_mark :
      {code typed : Bytes}
      → (r : ℕ) → is_mark r ≡ true
      → IsWriting code typed
      → IsWriting code (r ∷ typed)
  as_it_is :
      {code typed : Bytes}
      → (r : ℕ) → is_code_rune r ≡ true
      → IsWriting code typed
      → IsWriting (r ∷ code) (r ∷ typed)
  in_lower_case :
      {code typed : Bytes}
      → (r : ℕ) → is_letter r ≡ true
      → IsWriting code typed
      → IsWriting (r ∷ code) ((r + 32) ∷ typed)
  zero_for_o : {code typed : Bytes} → IsWriting code typed → IsWriting (b'O' ∷ code) (b'0' ∷ typed)
  one_for_i : {code typed : Bytes} → IsWriting code typed → IsWriting (b'I' ∷ code) (b'1' ∷ typed)

in_alphabet-is_code_rune : (r : ℕ) → in_alphabet r ≡ is_code_rune r
unfolding in_alphabet
in_alphabet-is_code_rune r = ground arith

abbrev rune_read : ℕ → ℕ
rune_read r = read_rune (upper r)

read_kept :
    (r c : ℕ) (typed : Bytes)
    → rune_read r ≡ c
    → is_code_rune c ≡ true
    → read_runes (r ∷ typed) ≡ c ∷ read_runes typed
unfolding read_runes
read_kept r c typed e k = rw (e, in_alphabet-is_code_rune c, k) refl

read_dropped :
    (r : ℕ) (typed : Bytes)
    → is_code_rune (rune_read r) ≡ false
    → read_runes (r ∷ typed) ≡ read_runes typed
unfolding read_runes
read_dropped r typed k = rw (in_alphabet-is_code_rune (rune_read r), k) refl

rune_read-mark : (r : ℕ) → is_mark r ≡ true → is_code_rune (rune_read r) ≡ false
unfolding upper read_rune
rune_read-mark r m = ground (arith, m)

rune_read-code : (r : ℕ) → is_code_rune r ≡ true → rune_read r ≡ r
unfolding upper read_rune
rune_read-code r k = ground (arith, k)

rune_read-lower : (r : ℕ) → is_letter r ≡ true → rune_read (r + 32) ≡ r
unfolding upper read_rune
rune_read-lower r k = ground (arith, k)

read_runes_nil : read_runes [] ≡ []
unfolding read_runes
read_runes_nil = refl

read_runes-IsWriting : (code typed : Bytes) → IsWriting code typed → read_runes typed ≡ code
unfolding upper read_rune
read_runes-IsWriting _ _ nothing = read_runes_nil
read_runes-IsWriting code _ (a_mark {typed = typed} r m w) =
    read_dropped r typed (rune_read-mark r m) ∙ read_runes-IsWriting code typed w
read_runes-IsWriting _ _ (as_it_is {code = code} {typed = typed} r k w) =
    read_kept r r typed (rune_read-code r k) k
    ∙ ap (λ (x : Bytes). r ∷ x) (read_runes-IsWriting code typed w)
read_runes-IsWriting _ _ (in_lower_case {code = code} {typed = typed} r k w) =
    read_kept (r + 32) r typed (rune_read-lower r k) (ground (arith, k))
    ∙ ap (λ (x : Bytes). r ∷ x) (read_runes-IsWriting code typed w)
read_runes-IsWriting _ _ (zero_for_o {code = code} {typed = typed} w) =
    read_kept b'0' b'O' typed refl refl
    ∙ ap (λ (x : Bytes). b'O' ∷ x) (read_runes-IsWriting code typed w)
read_runes-IsWriting _ _ (one_for_i {code = code} {typed = typed} w) =
    read_kept b'1' b'I' typed refl refl
    ∙ ap (λ (x : Bytes). b'I' ∷ x) (read_runes-IsWriting code typed w)

space_dropped :
    (r : ℕ) (typed : Bytes) → is_space r ≡ true → read_runes (r ∷ typed) ≡ read_runes typed
unfolding is_space
space_dropped r typed s = read_dropped r typed (rune_read-mark r (ground (arith, s)))

read_runes-trim_left : (s : Bytes) → read_runes (trim_left s) ≡ read_runes s
unfolding trim_left
read_runes-trim_left [] = refl
read_runes-trim_left (r ∷ s) = elim (Bool-cases (is_space r)) [
  | inl space ↦ rw (space) (read_runes-trim_left s ∙ sym (space_dropped r s space))
  | inr other ↦ rw (other) refl
]

read_runes-cons :
    (r : ℕ) (s t : Bytes) → read_runes s ≡ read_runes t → read_runes (r ∷ s) ≡ read_runes (r ∷ t)
unfolding read_runes
read_runes-cons r s t e = rw (e) refl

read_runes_empty : (s : Bytes) → is_empty s ≡ true → read_runes s ≡ []
unfolding is_empty read_runes
read_runes_empty [] e = refl
read_runes_empty (r ∷ s) e = cc

read_runes-trim_right : (s : Bytes) → read_runes (trim_right s) ≡ read_runes s
unfolding trim_right
read_runes-trim_right [] = refl
read_runes-trim_right (r ∷ s) = elim (Bool-cases (is_space r && is_empty (trim_right s))) [
  | inl blank ↦ rw (blank) (
      read_runes_nil
      ∙ sym (
          space_dropped r s (ground (arith, blank))
          ∙ sym (read_runes-trim_right s)
          ∙ read_runes_empty (trim_right s) (ground (arith, blank))))
  | inr other ↦ rw (other) (read_runes-cons r (trim_right s) s (read_runes-trim_right s))
]

-- A code is read as itself, however it is written: in capitals or small letters, a nought for the letter O
-- and a one for the letter I, and with any blanks, dashes and other ASCII characters between, as long as they are
-- neither letters nor digits up to 7.
pub normalize_recovery_code-IsWriting :
    (code typed : Bytes) → IsWriting code typed → normalize_recovery_code typed ≡ code
unfolding normalize_recovery_code trim_space
normalize_recovery_code-IsWriting code typed w =
    read_runes-trim_right (trim_left typed)
    ∙ read_runes-trim_left typed
    ∙ read_runes-IsWriting code typed w

format_from-IsWriting :
    (i : ℕ) (code : Bytes)
    → All (λ (r : ℕ). is_code_rune r ≡ true) code
    → IsWriting code (format_from i code)
unfolding format_from
format_from-IsWriting i [] k = nothing
format_from-IsWriting i (r ∷ code) k = elim (Bool-cases (ltb 0 i && (i % recovery_group == 0))) [
  | inl dash ↦
      rw (dash) (a_mark b'-' refl (as_it_is r k.0 (format_from-IsWriting (i + 1) code k.1)))
  | inr none' ↦ rw (none') (as_it_is r k.0 (format_from-IsWriting (i + 1) code k.1))
]

get_or_code_rune :
    (xs : List ℕ) (i : ℕ)
    → any (λ x. not (is_code_rune x)) xs ≡ false
    → i < length xs
    → is_code_rune (get_or xs i 0) ≡ true
get_or_code_rune [] i e h = ground (arith, h)
get_or_code_rune (x ∷ xs) zero e h = ground (arith, e)
get_or_code_rune (x ∷ xs) (suc i) e h = get_or_code_rune xs i (ground (arith, e)) (omega (arith, h))

new_recovery_code-runes :
    (raw : Bytes) → All (λ (r : ℕ). is_code_rune r ≡ true) (new_recovery_code raw)
unfolding new_recovery_code
new_recovery_code-runes [] = tt
new_recovery_code-runes (b ∷ raw) =
    (get_or_code_rune recovery_alphabet (b % 32) refl (omega arith), new_recovery_code-runes raw)

-- Whatever bytes are drawn, the new code, in the groups in which it is shown, is read as the code that is
-- stored.
normalize_recovery_code-format_recovery_code :
    (raw : Bytes)
    → normalize_recovery_code (format_recovery_code (new_recovery_code raw)) ≡ new_recovery_code raw
unfolding format_recovery_code
normalize_recovery_code-format_recovery_code raw =
    normalize_recovery_code-IsWriting (new_recovery_code raw) _
      (format_from-IsWriting 0 (new_recovery_code raw) (new_recovery_code-runes raw))
