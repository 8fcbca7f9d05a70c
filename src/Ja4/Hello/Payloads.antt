-- ===== src/Ja4/Hello/Payloads.antt =====
-- What the list parsers of clienthello.go read, and which values count as GREASE.
use crucible_analytic.Prelude.{
  ℕ, zero, suc, ◌+◌, ◌*◌, ◌/◌, ◌<◌, ◌≤◌, ◌≡◌, ◌↔◌, refl, ap, ◌∙◌, true, List, [], ◌∷◌, ◌++◌,
  append_assoc, append-nil, arith, length, length-append, foldl, Bytes, be16, some,
}
use crucible_analytic.Ja4.Cursor.{Cursor, start, rest, advance}
use crucible_analytic.Ja4.Cursor.View.{
  remaining-rest, rest-advance_append, read_uint8-rest, read_uint16-rest, read_bytes-rest,
}
use crucible_analytic.Ja4.Hello.Lists.{
  is_grease, append_unless_grease, uint16_loop, uint16_list, parse_uint16_list_with_prefix8,
  parse_uint16_list_with_prefix16, alpn_loop, alpn_list, parse_alpn,
}
use crucible_analytic.Ja4.Hello.Wire.{encode_words, drop_grease}
use crucible_analytic.Ja4.Hello.RoundTrip.{append_unless_grease_lem}

-- The GREASE values of RFC 8701 are the sixteen words 0x0a0a, 0x1a1a, ..., 0xfafa, and isGrease
-- accepts those 16-bit words and no other.
pub is_grease_iff :
    (v : ℕ) → v < 65536 → (is_grease v ≡ true) ↔ ((k : ℕ) × (k < 16) × (v ≡ 0x0a0a + 0x1010 * k))
unfolding is_grease
is_grease_iff v h = (λ e. (v / 4096, ground arith, ground arith), λ (k, lt, e). ground arith)

uint16_loop-encode :
    (ws : List ℕ) (n : ℕ) (c : Cursor) (out : List ℕ) (r : Bytes)
    → length ws ≡ n
    → rest c ≡ encode_words ws ++ r
    → uint16_loop n c out ≡ foldl append_unless_grease out ws
unfolding uint16_loop
uint16_loop-encode [] zero c out r h e = refl
uint16_loop-encode [] (suc n) c out r h e = absurd (omega arith)
uint16_loop-encode (w ∷ ws) zero c out r h e = absurd (omega arith)
uint16_loop-encode (w ∷ ws) (suc n) c out r h e = ground (
  arith,
  read_uint16-rest c w (encode_words ws ++ r) e,
  uint16_loop-encode ws n (advance 2 c) (append_unless_grease out w) r (omega arith)
      (rest-advance_append c (be16 w) (encode_words ws ++ r) refl e),
)

length-encode_words : (ws : List ℕ) → length (encode_words ws) ≡ length ws * 2
length-encode_words [] = refl
length-encode_words (w ∷ ws) = omega (arith, length-encode_words ws)

uint16_list-encode :
    (ws : List ℕ) (r : Bytes) (c : Cursor)
    → rest c ≡ encode_words ws ++ r
    → uint16_list (some (length (encode_words ws), c)) ≡ drop_grease ws
unfolding uint16_list
uint16_list-encode ws r c e = ground (
  arith,
  remaining-rest c,
  ap length e,
  length-append (encode_words ws) r,
  uint16_loop-encode ws (length (encode_words ws) / 2) c [] r
      (omega (arith, length-encode_words ws)) e,
  append_unless_grease_lem ws [],
)

-- A supported_versions payload and a signature_algorithms payload are read back in wire order
-- without the GREASE values, whatever stands behind the list in the extension's body.
pub parse_uint16_lists-encode :
    (ws : List ℕ) (r : Bytes)
    → (parse_uint16_list_with_prefix8 (length (encode_words ws) ∷ (encode_words ws ++ r))
        ≡ drop_grease ws)
      × (parse_uint16_list_with_prefix16 (be16 (length (encode_words ws)) ++ (encode_words ws ++ r))
          ≡ drop_grease ws)
unfolding parse_uint16_list_with_prefix8 parse_uint16_list_with_prefix16
parse_uint16_lists-encode ws r =
    let n = length (encode_words ws) in
    let body = encode_words ws ++ r in
    (
      ap uint16_list (read_uint8-rest (start (n ∷ body)) n body refl)
          ∙ uint16_list-encode ws r _ refl,
      ap uint16_list (read_uint16-rest (start (be16 n ++ body)) n body refl)
          ∙ uint16_list-encode ws r _ refl,
    )

-- A ProtocolNameList without its length.
abbrev pub encode_names : List Bytes → Bytes
encode_names [] = []
encode_names (x ∷ xs) = length x ∷ (x ++ encode_names xs)

alpn_loop-encode :
    (names : List Bytes) (fuel last : ℕ) (c : Cursor) (protos : List Bytes) (r : Bytes)
    → length names < fuel
    → c.pos + length (encode_names names) ≡ last
    → rest c ≡ encode_names names ++ r
    → alpn_loop fuel last c protos ≡ some (protos ++ names)
unfolding alpn_loop
alpn_loop-encode [] zero last c protos r h p e = elim h [ ]
alpn_loop-encode [] (suc fuel) last c protos r h p e = ground (arith, append-nil protos)
alpn_loop-encode (x ∷ xs) zero last c protos r h p e = absurd (omega arith)
alpn_loop-encode (x ∷ xs) (suc fuel) last c protos r h p e =
    let e₀ : rest c ≡ length x ∷ (x ++ (encode_names xs ++ r)) =
      e ∙ ap (λ (l : Bytes). length x ∷ l) (append_assoc x (encode_names xs) r) in
    let e₁ = rest-advance_append c (length x ∷ []) (x ++ (encode_names xs ++ r)) refl e₀ in
    ground (
      arith,
      read_uint8-rest c (length x) (x ++ (encode_names xs ++ r)) e₀,
      read_bytes-rest (advance 1 c) x (encode_names xs ++ r) refl e₁,
      alpn_loop-encode xs fuel last (advance (length x) (advance 1 c)) (protos ++ x ∷ []) r
          (omega arith) (omega (arith, length-append x (encode_names xs)))
          (rest-advance_append (advance 1 c) x (encode_names xs ++ r) refl e₁),
      append_assoc protos (x ∷ []) xs,
    )

length-encode_names : (names : List Bytes) → length names ≤ length (encode_names names)
length-encode_names [] = omega arith
length-encode_names (x ∷ xs) =
    omega (arith, length-encode_names xs, length-append x (encode_names xs))

-- A list of protocol names is read back in wire order, whatever stands behind it.
pub parse_alpn-encode :
    (names : List Bytes) (r : Bytes)
    → parse_alpn (be16 (length (encode_names names)) ++ (encode_names names ++ r)) ≡ some names
unfolding parse_alpn alpn_list
parse_alpn-encode names r =
    let n = length (encode_names names) in
    let body = encode_names names ++ r in
    let c : Cursor = start (be16 n ++ body) in
    ground (
      arith,
      read_uint16-rest c n body refl,
      remaining-rest (advance 2 c),
      length-append (encode_names names) r,
      alpn_loop-encode names (suc n) (2 + n) (advance 2 c) [] r
          (omega (arith, length-encode_names names)) refl refl,
    )
