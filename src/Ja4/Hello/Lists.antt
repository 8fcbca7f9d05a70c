-- ===== src/Ja4/Hello/Lists.antt =====
-- internal/ja4/grease.go and the list parsers of clienthello.go. Bytes and words are numbers.
use crucible_analytic.Prelude.{
  ℕ, zero, suc, ◌+◌, ◌/◌, ◌%◌, Bool, true, false, ◌&&◌, List, [], ◌∷◌, ◌++◌, Option, none, some,
  ltb, ◌==◌, if◌then◌else◌, Bytes,
}
use crucible_analytic.Ja4.Cursor.{Cursor, start, remaining, read_uint8, read_uint16, read_bytes}

-- `byte(v) == b && b&0x0f == 0x0a` with `b := byte(v >> 8)`; a mask of four ones is `% 16`.
unfoldable pub is_grease : ℕ → Bool
is_grease v = v % 256 == v / 256 % 256 && v / 256 % 256 % 16 == 0x0a

-- `if !isGrease(v) { out = append(out, v) }`.
unfoldable pub append_unless_grease : List ℕ → ℕ → List ℕ
append_unless_grease out v = if is_grease v then out else out ++ v ∷ []

-- `for n := listLen / 2; n > 0; n--`.
unfoldable pub uint16_loop : ℕ → Cursor → List ℕ → List ℕ
uint16_loop zero c out = out
uint16_loop (suc n) c out = elim (read_uint16 c) [
  | none ↦ out
  | some (v, c') ↦ uint16_loop n c' (append_unless_grease out v)
]

unfoldable pub uint16_list : Option (ℕ × Cursor) → List ℕ
uint16_list none = []
uint16_list (some (list_len, c)) =
    if ltb (remaining c) list_len then [] else uint16_loop (list_len / 2) c []

unfoldable pub parse_uint16_list_with_prefix8 : Bytes → List ℕ
unfolding uint16_list
parse_uint16_list_with_prefix8 body = uint16_list (read_uint8 (start body))

unfoldable pub parse_uint16_list_with_prefix16 : Bytes → List ℕ
unfolding uint16_list
parse_uint16_list_with_prefix16 body = uint16_list (read_uint16 (start body))

-- `for c.pos < end`; `none` is out of fuel.
unfoldable pub alpn_loop : ℕ → ℕ → Cursor → List Bytes → Option (List Bytes)
alpn_loop zero last c protos = none
alpn_loop (suc fuel) last c protos = elim (ltb c.pos last) [
  | false ↦ some protos
  | true ↦ elim (read_uint8 c) [
    | none ↦ some protos
    | some (l, c') ↦ elim (read_bytes l c') [
      | none ↦ some protos
      | some (name, c'') ↦ alpn_loop fuel last c'' (protos ++ name ∷ [])
    ]
  ]
]

unfoldable pub alpn_list : Option (ℕ × Cursor) → Option (List Bytes)
alpn_list none = some []
alpn_list (some (list_len, c)) =
    if ltb (remaining c) list_len then some [] else alpn_loop (suc list_len) (c.pos + list_len) c []

unfoldable pub parse_alpn : Bytes → Option (List Bytes)
unfolding alpn_list
parse_alpn body = alpn_list (read_uint16 (start body))
