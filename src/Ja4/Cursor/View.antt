-- ===== src/Ja4/Cursor/View.antt =====
-- The cursor seen as the bytes that are left: each read takes a prefix of them, and nothing else
-- of the cursor is observed.
use crucible_analytic.Prelude.{
  ℕ, ◌+◌, ◌≡◌, ap, sym, ◌∙◌, List, ◌∷◌, ◌++◌, some, arith, length, ◌≤◌, get_or, take, drop,
  length-append, length-drop, drop-drop, get_or-drop, take-append, drop-append, be16, be24,
}
use crucible_analytic.Ja4.Cursor.{
  Cursor, rest, advance, remaining, read_uint8, read_uint16, read_uint24, skip, read_bytes,
}

pub remaining-rest : (c : Cursor) → remaining c ≡ length (rest c)
unfolding remaining
remaining-rest c = sym (length-drop c.pos c.bytes)

pub rest-advance : (n : ℕ) (c : Cursor) → rest (advance n c) ≡ drop n (rest c)
rest-advance n c = sym (drop-drop n c.pos c.bytes)

byte_ahead : (c : Cursor) (n : ℕ) → get_or c.bytes (c.pos + n) 0 ≡ get_or (drop n (rest c)) 0 0
byte_ahead c n =
    get_or-drop (c.pos + n) c.bytes 0 ∙ ap (λ (l : List ℕ). get_or l 0 0) (rest-advance n c)

pub read_uint8-rest :
    (c : Cursor) (x : ℕ) (r : List ℕ) → rest c ≡ x ∷ r → read_uint8 c ≡ some (x, advance 1 c)
unfolding read_uint8
read_uint8-rest c x r e = ground (
  arith,
  remaining-rest c,
  get_or-drop c.pos c.bytes 0,
  ap length e,
  ap (λ (l : List ℕ). get_or l 0 0) e,
)

pub read_uint16-rest :
    (c : Cursor) (n : ℕ) (r : List ℕ) → rest c ≡ be16 n ++ r → read_uint16 c ≡ some (n, advance 2 c)
unfolding read_uint16
read_uint16-rest c n r e = ground (
  arith,
  remaining-rest c,
  get_or-drop c.pos c.bytes 0,
  byte_ahead c 1,
  ap length e,
  ap (λ (l : List ℕ). get_or l 0 0) e,
  ap (λ (l : List ℕ). get_or (drop 1 l) 0 0) e,
)

pub read_uint24-rest :
    (c : Cursor) (n : ℕ) (r : List ℕ) → rest c ≡ be24 n ++ r → read_uint24 c ≡ some (n, advance 3 c)
unfolding read_uint24
read_uint24-rest c n r e = ground (
  arith,
  remaining-rest c,
  get_or-drop c.pos c.bytes 0,
  byte_ahead c 1,
  byte_ahead c 2,
  ap length e,
  ap (λ (l : List ℕ). get_or l 0 0) e,
  ap (λ (l : List ℕ). get_or (drop 1 l) 0 0) e,
  ap (λ (l : List ℕ). get_or (drop 2 l) 0 0) e,
)

module _ (c : Cursor) {n : ℕ} (xs r : List ℕ) (size : length xs ≡ n) (e : rest c ≡ xs ++ r) where
  long_enough : n ≤ remaining c
  long_enough = omega (arith, remaining-rest c, ap length e, length-append xs r)

  -- What is left behind a prefix that has been read.
  pub rest-advance_append : rest (advance n c) ≡ r
  rest-advance_append = rest-advance n c ∙ ap (drop n) e ∙ rw (← size) (drop-append xs r)

  pub skip-rest : skip n c ≡ some (advance n c)
  unfolding skip
  skip-rest = ground (arith, long_enough)

  pub read_bytes-rest : read_bytes n c ≡ some (xs, advance n c)
  unfolding read_bytes
  read_bytes-rest =
      let taken : take n (rest c) ≡ xs = ap (take n) e ∙ rw (← size) (take-append xs r) in
      ground (arith, long_enough, taken)
