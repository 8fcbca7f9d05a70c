-- ===== src/Ja4/Hello/RoundTrip.antt =====
-- ParseClientHello reads back every message that the encoder of Wire writes.
use crucible_analytic.Prelude.{
  ℕ, zero, suc, ◌+◌, ◌%◌, ◌<◌, ◌≤◌, ◌≡◌, refl, sym, ap, ◌∙◌, ◌||◌, List, [], ◌∷◌, ◌++◌,
  append_assoc, append-nil, map, foldl, Option, none, some, arith, ◌==◌, length, any, Bytes, be16,
  ok, length-append, take, drop, take-append,
}
use crucible_analytic.Ja4.Cursor.{Cursor, start, rest, advance}
use crucible_analytic.Ja4.Cursor.View.{
  remaining-rest, rest-advance_append, read_uint8-rest, read_uint16-rest, read_uint24-rest,
  skip-rest, read_bytes-rest,
}
use crucible_analytic.Ja4.Hello.Lists.{
  append_unless_grease, parse_uint16_list_with_prefix8, parse_uint16_list_with_prefix16,
}
use crucible_analytic.Ja4.Hello.Parse.{
  ClientHello, ext_server_name, ext_alpn, ext_supported_versions, ext_signature_algorithms,
  handshake_type_client_hello, extension_loop, parse_extensions, cipher_loop, bound_to_body,
  parse_header, parse_tail, parse_body, parse_client_hello,
}
use crucible_analytic.Ja4.Hello.Wire.{
  Extension, Wire, encode_words, encode_extensions, encode_tail, encode_body, encode, listed,
  drop_grease, last_of, alpn_of, hello_of,
}
use crucible_analytic.Ja4.Hello.Alpn.{with_extension, add_extension_ok}

pub append_unless_grease_lem :
    (ws out : List ℕ) → foldl append_unless_grease out ws ≡ out ++ drop_grease ws
unfolding append_unless_grease
append_unless_grease_lem [] out = sym (append-nil out)
append_unless_grease_lem (w ∷ ws) out = ground (
  arith,
  append_unless_grease_lem ws out,
  append_unless_grease_lem ws (out ++ w ∷ []),
  append_assoc out (w ∷ []) (drop_grease ws),
)

cipher_loop-encode :
    (fuel : ℕ) (ws : List ℕ) (c : Cursor) (out : List ℕ)
    → length ws < fuel
    → rest c ≡ encode_words ws
    → cipher_loop fuel c out ≡ ok (foldl append_unless_grease out ws)
unfolding cipher_loop
cipher_loop-encode zero ws c out h e = elim h [ ]
cipher_loop-encode (suc fuel) [] c out h e = ground (arith, remaining-rest c, ap length e)
cipher_loop-encode (suc fuel) (w ∷ ws) c out h e = ground (
  arith,
  remaining-rest c,
  ap length e,
  read_uint16-rest c w _ e,
  cipher_loop-encode fuel ws (advance 2 c) (append_unless_grease out w) (omega arith)
      (rest-advance_append c (be16 w) _ refl e),
)

extension_loop-encode :
    (fuel : ℕ) (xs : List Extension) (ec : Cursor) (ch : ClientHello)
    → length xs < fuel
    → rest ec ≡ encode_extensions xs
    → extension_loop fuel ec ch ≡ ok (foldl (λ c x. with_extension c x.kind x.body) ch xs)
unfolding extension_loop
extension_loop-encode zero xs ec ch h e = elim h [ ]
extension_loop-encode (suc fuel) [] ec ch h e = ground (arith, remaining-rest ec, ap length e)
extension_loop-encode (suc fuel) (x ∷ xs) ec ch h e =
    let e₁ = rest-advance_append ec (be16 x.kind) _ refl e in
    let e₂ = rest-advance_append (advance 2 ec) (be16 (length x.body)) _ refl e₁ in
    let e₃ = rest-advance_append (advance 2 (advance 2 ec)) x.body _ refl e₂ in
    ground (
      arith,
      remaining-rest ec,
      ap length e,
      read_uint16-rest ec x.kind _ e,
      read_uint16-rest (advance 2 ec) (length x.body) _ e₁,
      read_bytes-rest (advance 2 (advance 2 ec)) x.body _ refl e₂,
      add_extension_ok ch x.kind x.body,
      extension_loop-encode fuel xs (advance (length x.body) (advance 2 (advance 2 ec)))
          (with_extension ch x.kind x.body) (omega arith) e₃,
    )

-- The switch, one extension after the other.
abbrev with_extensions : ClientHello → List Extension → ClientHello
with_extensions ch xs = record {
  legacy_version = ch.legacy_version;
  cipher_suites = ch.cipher_suites;
  extensions = ch.extensions ++ drop_grease (map (λ x. x.kind) xs);
  supported_versions =
      last_of parse_uint16_list_with_prefix8 ext_supported_versions ch.supported_versions xs;
  signature_algorithms =
      last_of parse_uint16_list_with_prefix16 ext_signature_algorithms ch.signature_algorithms xs;
  alpn_protocols = last_of alpn_of ext_alpn ch.alpn_protocols xs;
  has_sni = ch.has_sni || any (λ x. x.kind == ext_server_name) xs;
}

add_extension_lem :
    (ch : ClientHello) (x : Extension) (xs : List Extension)
    → with_extensions (with_extension ch x.kind x.body) xs ≡ with_extensions ch (x ∷ xs)
unfolding with_extension append_unless_grease
add_extension_lem ch x xs = ground (
  arith,
  append_assoc ch.extensions (x.kind ∷ []) (drop_grease (map (λ (y : Extension). y.kind) xs)),
)

foldl-add_extension :
    (xs : List Extension) (ch : ClientHello)
    → foldl (λ c x. with_extension c x.kind x.body) ch xs ≡ with_extensions ch xs
foldl-add_extension [] ch = ground (arith, append-nil ch.extensions)
foldl-add_extension (x ∷ xs) ch =
    foldl-add_extension xs (with_extension ch x.kind x.body) ∙ add_extension_lem ch x xs

length-encode_extensions : (xs : List Extension) → length xs ≤ length (encode_extensions xs)
length-encode_extensions [] = omega arith
length-encode_extensions (x ∷ xs) =
    omega (arith, length-encode_extensions xs, length-append x.body (encode_extensions xs))

parse_extensions-encode :
    (xs : List Extension) (ch : ClientHello)
    → parse_extensions (encode_extensions xs) ch ≡ ok (with_extensions ch xs)
unfolding parse_extensions
parse_extensions-encode xs ch =
    extension_loop-encode _ xs (start (encode_extensions xs)) ch
      (omega (arith, length-encode_extensions xs)) refl
    ∙ ap ok (foldl-add_extension xs ch)

parse_tail-encode :
    (xs : Option (List Extension)) (c : Cursor) (ch : ClientHello)
    → rest c ≡ encode_tail xs
    → parse_tail c ch ≡ ok (with_extensions ch (listed xs))
unfolding parse_tail
parse_tail-encode none c ch e =
    ground (arith, remaining-rest c, ap length e, append-nil ch.extensions)
parse_tail-encode (some xs) c ch e =
    let e₁ =
      rest-advance_append c (be16 (length (encode_extensions xs))) (encode_extensions xs) refl e in
    ground (
      arith,
      remaining-rest c,
      ap length e,
      read_uint16-rest c (length (encode_extensions xs)) (encode_extensions xs) e,
      read_bytes-rest (advance 2 c) (encode_extensions xs) [] refl (e₁ ∙ sym (append-nil _)),
      parse_extensions-encode xs ch,
    )

encode_words-even : (ws : List ℕ) → length (encode_words ws) % 2 ≡ 0
encode_words-even [] = refl
encode_words-even (w ∷ ws) = omega (arith, encode_words-even ws)

length-encode_words : (ws : List ℕ) → length ws ≤ length (encode_words ws)
length-encode_words [] = omega arith
length-encode_words (w ∷ ws) = omega (arith, length-encode_words ws)

parse_body-encode :
    (w : Wire) (c : Cursor)
    → length w.random ≡ 32
    → rest c ≡ encode_body w
    → parse_body c ≡ ok (hello_of w)
unfolding parse_body
parse_body-encode w c h e =
    let ws = encode_words w.cipher_suites in
    let e₁ = rest-advance_append c (be16 w.legacy_version) _ refl e in
    let e₂ = rest-advance_append (advance 2 c) w.random _ h e₁ in
    let c₂ : Cursor = advance 32 (advance 2 c) in
    let e₃ = rest-advance_append c₂ (length w.session_id ∷ []) _ refl e₂ in
    let c₃ : Cursor = advance 1 c₂ in
    let e₄ = rest-advance_append c₃ w.session_id _ refl e₃ in
    let c₄ : Cursor = advance (length w.session_id) c₃ in
    let e₅ = rest-advance_append c₄ (be16 (length ws)) _ refl e₄ in
    let c₅ : Cursor = advance 2 c₄ in
    let e₆ = rest-advance_append c₅ ws _ refl e₅ in
    let c₆ : Cursor = advance (length ws) c₅ in
    let e₇ = rest-advance_append c₆ (length w.compression ∷ []) _ refl e₆ in
    let c₇ : Cursor = advance 1 c₆ in
    let e₈ = rest-advance_append c₇ w.compression _ refl e₇ in
    rw
      (
        read_uint16-rest c w.legacy_version _ e,
        skip-rest (advance 2 c) w.random _ h e₁,
        read_uint8-rest c₂ (length w.session_id) _ e₂,
        skip-rest c₃ w.session_id _ refl e₃,
        read_uint16-rest c₄ (length ws) _ e₄,
        encode_words-even w.cipher_suites,
        read_bytes-rest c₅ ws _ refl e₅,
        cipher_loop-encode (suc (length ws)) w.cipher_suites (start ws) []
            (omega (arith, length-encode_words w.cipher_suites)) refl,
        append_unless_grease_lem w.cipher_suites [],
        read_uint8-rest c₆ (length w.compression) _ e₆,
        skip-rest c₇ w.compression _ refl e₇,
      )
      (parse_tail-encode w.extensions (advance (length w.compression) c₇) _ e₈)

cut_body : (n a b c d : ℕ) (ys : Bytes) → drop 4 (take (4 + n) (a ∷ b ∷ c ∷ d ∷ ys)) ≡ take n ys
cut_body n a b c d ys = let e : 4 + n ≡ suc (suc (suc (suc n))) = omega arith in rw e refl

parse_header-encode :
    (w : Wire) (trailing : Bytes)
    → (c : Cursor) × (parse_header (encode w ++ trailing) ≡ ok c) × (rest c ≡ encode_body w)
unfolding parse_header bound_to_body
parse_header-encode w trailing =
    let msg = encode w ++ trailing in
    let n = length (encode_body w) in
    (
      record { bytes = take (4 + n) msg; pos = 4 },
      ground (
        arith,
        read_uint8-rest (start msg) handshake_type_client_hello _ refl,
        read_uint24-rest (advance 1 (start msg)) n (encode_body w ++ trailing) refl,
        remaining-rest (advance 3 (advance 1 (start msg))),
        length-append (encode_body w) trailing,
      ),
      cut_body n _ _ _ _ (encode_body w ++ trailing) ∙ take-append (encode_body w) trailing,
    )

-- Every message with 32 random bytes that the encoder writes is read back, field by field: the legacy version, the
-- cipher suites and extension types in wire order without the GREASE values, the payloads of the
-- last supported_versions, signature_algorithms and ALPN extensions, and whether a server name is
-- there. Bytes behind the message change nothing.
pub parse_client_hello-encode :
    (w : Wire) (trailing : Bytes)
    → length w.random ≡ 32
    → parse_client_hello (encode w ++ trailing) ≡ ok (hello_of w)
unfolding parse_client_hello
parse_client_hello-encode w trailing h =
    let (c, header, body) = parse_header-encode w trailing in
    rw header (parse_body-encode w c h body)
