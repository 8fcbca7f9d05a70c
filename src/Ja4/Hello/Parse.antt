-- ===== src/Ja4/Hello/Parse.antt =====
-- internal/ja4/clienthello.go: ParseClientHello and parseExtensions.
use crucible_analytic.Prelude.{
  ℕ, zero, suc, ◌+◌, ◌%◌, Bool, true, false, List, [], Result, ok, err, ◌>>=◌, ◌>>◌, guard, or_fail,
  ltb, ◌==◌, if◌then◌else◌, length, take, Bytes,
}
use crucible_analytic.Ja4.Cursor.{
  Cursor, start, remaining, read_uint8, read_uint16, read_uint24, skip, read_bytes,
}
use crucible_analytic.Ja4.Hello.Lists.{
  append_unless_grease, parse_uint16_list_with_prefix8, parse_uint16_list_with_prefix16, parse_alpn,
}

pub data Error : Type 0 where
  truncated not_client_hello out_of_fuel : Error

pub record ClientHello : Type 0 where
  pub legacy_version : ℕ
  pub cipher_suites : List ℕ
  pub extensions : List ℕ
  pub supported_versions : List ℕ
  pub signature_algorithms : List ℕ
  pub alpn_protocols : List Bytes
  pub has_sni : Bool

-- `&ClientHello{LegacyVersion: v}` with the cipher suites read.
abbrev pub new_hello : ℕ → List ℕ → ClientHello
new_hello v cipher_suites = record {
  legacy_version = v;
  cipher_suites = cipher_suites;
  extensions = [];
  supported_versions = [];
  signature_algorithms = [];
  alpn_protocols = [];
  has_sni = false;
}

abbrev pub ext_server_name : ℕ
ext_server_name = 0x0000

abbrev pub ext_alpn : ℕ
ext_alpn = 0x0010

abbrev pub ext_signature_algorithms : ℕ
ext_signature_algorithms = 0x000d

abbrev pub ext_supported_versions : ℕ
ext_supported_versions = 0x002b

abbrev pub handshake_type_client_hello : ℕ
handshake_type_client_hello = 0x01

-- The switch on the extension's type.
unfoldable pub read_extension_body : ClientHello → ℕ → Bytes → Result Error ClientHello
read_extension_body ch ext_type body =
    if ext_type == ext_server_name
    then ok (record ch { has_sni = true })
    else if ext_type == ext_alpn
    then (do
      protos ← or_fail (parse_alpn body) out_of_fuel
      ok (record ch { alpn_protocols = protos }))
    else if ext_type == ext_supported_versions
    then ok (record ch { supported_versions = parse_uint16_list_with_prefix8 body })
    else if ext_type == ext_signature_algorithms
    then ok (record ch { signature_algorithms = parse_uint16_list_with_prefix16 body })
    else ok ch

-- One round of the loop behind its reads.
unfoldable pub add_extension : ClientHello → ℕ → Bytes → Result Error ClientHello
add_extension ch ext_type body =
    read_extension_body (record ch { extensions = append_unless_grease ch.extensions ext_type })
      ext_type body

-- `for ec.remaining() > 0`.
unfoldable pub extension_loop : ℕ → Cursor → ClientHello → Result Error ClientHello
extension_loop zero ec ch = err out_of_fuel
extension_loop (suc fuel) ec ch = elim (ltb 0 (remaining ec)) [
  | false ↦ ok ch
  | true ↦ do
    (ext_type, ec₁) ← or_fail (read_uint16 ec) truncated
    (ext_len, ec₂) ← or_fail (read_uint16 ec₁) truncated
    (ext_body, ec₃) ← or_fail (read_bytes ext_len ec₂) truncated
    ch' ← add_extension ch ext_type ext_body
    extension_loop fuel ec₃ ch'
]

unfoldable pub parse_extensions : Bytes → ClientHello → Result Error ClientHello
parse_extensions b ch = extension_loop (suc (length b)) (start b) ch

-- `for cc := ...; cc.remaining() > 0`.
unfoldable pub cipher_loop : ℕ → Cursor → List ℕ → Result Error (List ℕ)
cipher_loop zero cc out = err out_of_fuel
cipher_loop (suc fuel) cc out = elim (ltb 0 (remaining cc)) [
  | false ↦ ok out
  | true ↦ do
    (v, cc') ← or_fail (read_uint16 cc) truncated
    cipher_loop fuel cc' (append_unless_grease out v)
]

-- `if int(hsLen) > c.remaining()`, and else the cut `c.b = c.b[:4+int(hsLen)]`.
unfoldable pub bound_to_body : ℕ → Cursor → Result Error Cursor
bound_to_body hs_len c =
    if ltb (remaining c) hs_len
    then err truncated
    else ok (record c { bytes = take (4 + hs_len) c.bytes })

-- The handshake header; the cursor that is left ends with the declared body.
unfoldable pub parse_header : Bytes → Result Error Cursor
parse_header msg = do
  (hs_type, c) ← or_fail (read_uint8 (start msg)) truncated
  guard (hs_type == handshake_type_client_hello) not_client_hello
  (hs_len, c') ← or_fail (read_uint24 c) truncated
  bound_to_body hs_len c'

-- The optional extensions at the end.
unfoldable pub parse_tail : Cursor → ClientHello → Result Error ClientHello
parse_tail c ch = if remaining c == 0 then ok ch else do
  (ext_total_len, c₁) ← or_fail (read_uint16 c) truncated
  (ext_bytes, c₂) ← or_fail (read_bytes ext_total_len c₁) truncated
  parse_extensions ext_bytes ch

-- The body behind the header.
unfoldable pub parse_body : Cursor → Result Error ClientHello
parse_body c = do
  (legacy_version, c₁) ← or_fail (read_uint16 c) truncated
  c₂ ← or_fail (skip 32 c₁) truncated
  (session_id_len, c₃) ← or_fail (read_uint8 c₂) truncated
  c₄ ← or_fail (skip session_id_len c₃) truncated
  (cipher_len, c₅) ← or_fail (read_uint16 c₄) truncated
  guard (cipher_len % 2 == 0) truncated
  (cipher_bytes, c₆) ← or_fail (read_bytes cipher_len c₅) truncated
  cipher_suites ← cipher_loop (suc (length cipher_bytes)) (start cipher_bytes) []
  (compression_len, c₇) ← or_fail (read_uint8 c₆) truncated
  c₈ ← or_fail (skip compression_len c₇) truncated
  parse_tail c₈ (new_hello legacy_version cipher_suites)

unfoldable pub parse_client_hello : Bytes → Result Error ClientHello
parse_client_hello msg = parse_header msg >>= parse_body
