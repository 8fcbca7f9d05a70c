-- ===== src/Ja4/Cursor.antt =====
-- internal/ja4/cursor.go: the forward-only reader over a byte slice. A failed read leaves the
-- cursor alone, and every caller stops there, so a read is an Option of the value and the new
-- cursor. Counts come from unsigned fields, so the guard against a negative count has no case.
pub mod View
use crucible_analytic.Prelude.{
  ℕ, ◌+◌, ◌-◌, ◌*◌, ◌^◌, List, Option, none, some, ltb, if◌then◌else◌, length, get_or, take, drop,
}

pub record Cursor : Type 0 where
  pub bytes : List ℕ
  pub pos : ℕ

abbrev pub start : List ℕ → Cursor
start b = record { bytes = b; pos = 0 }

abbrev pub advance : ℕ → Cursor → Cursor
advance n c = record c { pos = c.pos + n }

-- The bytes that are not read yet.
abbrev pub rest : Cursor → List ℕ
rest c = drop c.pos c.bytes

unfoldable pub remaining : Cursor → ℕ
remaining c = length c.bytes - c.pos

unfoldable pub read_uint8 : Cursor → Option (ℕ × Cursor)
read_uint8 c = if ltb (remaining c) 1 then none else some (get_or c.bytes c.pos 0, advance 1 c)

unfoldable pub read_uint16 : Cursor → Option (ℕ × Cursor)
read_uint16 c =
    if ltb (remaining c) 2
    then none
    else some (get_or c.bytes c.pos 0 * 256 + get_or c.bytes (c.pos + 1) 0, advance 2 c)

unfoldable pub read_uint24 : Cursor → Option (ℕ × Cursor)
read_uint24 c =
    if ltb (remaining c) 3
    then none
    else some (
      get_or c.bytes c.pos 0 * 2 ^ 16
          + get_or c.bytes (c.pos + 1) 0 * 2 ^ 8
          + get_or c.bytes (c.pos + 2) 0,
      advance 3 c,
    )

unfoldable pub skip : ℕ → Cursor → Option Cursor
skip n c = if ltb (remaining c) n then none else some (advance n c)

unfoldable pub read_bytes : ℕ → Cursor → Option (List ℕ × Cursor)
read_bytes n c =
    if ltb (remaining c) n then none else some (take n (drop c.pos c.bytes), advance n c)
