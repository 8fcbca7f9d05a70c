-- ===== src/Ja4/Hello/Alpn.antt =====
-- The loop of parseALPN ends: each round reads a byte.
use crucible_analytic.Prelude.{
  ℕ, zero, suc, ◌+◌, ◌-◌, ◌<◌, ◌≤◌, ◌≡◌, refl, sym, ap, ◌∙◌, List, [], ◌∷◌, ◌++◌, Option, none,
  some, Bytes, true, arith, ltb, ◌==◌, if◌then◌else◌, Bool-cases, Option-cases, inl, inr, ok,
}
use crucible_analytic.Ja4.Cursor.{Cursor, start, remaining, read_uint8, read_uint16, read_bytes}
use crucible_analytic.Ja4.Hello.Lists.{
  append_unless_grease, parse_uint16_list_with_prefix8, parse_uint16_list_with_prefix16, alpn_loop,
  alpn_list, parse_alpn,
}
use crucible_analytic.Ja4.Hello.Parse.{
  ClientHello, ext_server_name, ext_alpn, ext_signature_algorithms, ext_supported_versions,
  read_extension_body, add_extension,
}
use crucible_analytic.Ja4.Hello.Wire.{alpn_of}

read_uint8-pos : (c c' : Cursor) {v : ℕ} → read_uint8 c ≡ some (v, c') → c'.pos ≡ c.pos + 1
unfolding read_uint8
read_uint8-pos c c' e = ground arith

read_bytes-pos :
    (n : ℕ) (c c' : Cursor) {v : Bytes} → read_bytes n c ≡ some (v, c') → c.pos ≤ c'.pos
unfolding read_bytes
read_bytes-pos n c c' e = ground arith

-- A loop that has fuel for the bytes up to the end of the list gives one.
alpn_loop-some :
    (fuel last : ℕ) (c : Cursor) (protos : List Bytes)
    → last - c.pos < fuel
    → (names : List Bytes) × (alpn_loop fuel last c protos ≡ some names)
unfolding alpn_loop
alpn_loop-some zero last c protos h = elim h [ ]
alpn_loop-some (suc fuel) last c protos h = elim (Bool-cases (ltb c.pos last)) [
  | inr e ↦ (protos, ground (arith, e))
  | inl e ↦ elim (Option-cases (read_uint8 c)) [
    | inl e₁ ↦ (protos, ground (arith, e, e₁))
    | inr ((l, c'), e₁) ↦ elim (Option-cases (read_bytes l c')) [
      | inl e₂ ↦ (protos, ground (arith, e, e₁, e₂))
      | inr ((name, c''), e₂) ↦
          let closer : last - c''.pos < fuel =
            ground (arith, h, e, read_uint8-pos c c' e₁, read_bytes-pos l c' c'' e₂) in
          let (names, found) = alpn_loop-some fuel last c'' (protos ++ name ∷ []) closer in
          (names, ground (arith, e, e₁, e₂, found))
    ]
  ]
]

alpn_list-some : (o : Option (ℕ × Cursor)) → (names : List Bytes) × (alpn_list o ≡ some names)
unfolding alpn_list
alpn_list-some none = ([], refl)
alpn_list-some (some (list_len, c)) = elim (Bool-cases (ltb (remaining c) list_len)) [
  | inl e ↦ ([], rw (e) refl)
  | inr e ↦
      let (names, found) = alpn_loop-some (suc list_len) (c.pos + list_len) c [] (omega arith) in
      (names, rw (e) found)
]

pub parse_alpn-some : (body : Bytes) → parse_alpn body ≡ some (alpn_of body)
unfolding parse_alpn alpn_of
parse_alpn-some body =
    let (names, found) = alpn_list-some (read_uint16 (start body)) in
    found
    ∙ ap
        (λ (o : Option (List Bytes)).
          some (elim o as (λ _. List Bytes) [ none ↦ [] | some protos ↦ protos ]))
        (sym found)

-- The switch, where the names are read.
unfoldable pub with_extension : ClientHello → ℕ → Bytes → ClientHello
with_extension ch ext_type body =
    let ch' = record ch { extensions = append_unless_grease ch.extensions ext_type } in
    if ext_type == ext_server_name
    then record ch' { has_sni = true }
    else if ext_type == ext_alpn
    then record ch' { alpn_protocols = alpn_of body }
    else if ext_type == ext_supported_versions
    then record ch' { supported_versions = parse_uint16_list_with_prefix8 body }
    else if ext_type == ext_signature_algorithms
    then record ch' { signature_algorithms = parse_uint16_list_with_prefix16 body }
    else ch'

pub add_extension_ok :
    (ch : ClientHello) (ext_type : ℕ) (body : Bytes)
    → add_extension ch ext_type body ≡ ok (with_extension ch ext_type body)
unfolding add_extension read_extension_body with_extension
add_extension_ok ch ext_type body = ground (arith, parse_alpn-some body)
