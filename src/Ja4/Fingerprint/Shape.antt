-- ===== src/Ja4/Fingerprint/Shape.antt =====
-- The shape of a fingerprint, and the version that it shows.
use crucible_analytic.Prelude.{
  ℕ, ◌*◌, ◌≤◌, ◌≡◌, Bool, true, false, ◌⊎◌, inl, refl, List, [], ◌∷◌, ◌++◌, foldl, Bytes, arith,
  length, All, any, ◌==◌, length-append, length-take_le, codes, ltb, if◌then◌else◌,
}
use crucible_analytic.Ja4.Hello.Parse.{ClientHello}
use crucible_analytic.Ja4.Fingerprint.{
  version_tokens, best_version, negotiated_version_token, cap_count, format02d, alpn_token,
  first_alpn, part_a, part_b, part_c, part_c_raw, hash_segment, truncated_sha256, encode_to_string,
  fingerprint,
}

length-negotiated_version_token : (ch : ClientHello) → length (negotiated_version_token ch) ≡ 2
unfolding negotiated_version_token version_tokens
length-negotiated_version_token ch = ground arith

length-alpn_token : (proto : Bytes) → length (alpn_token proto) ≡ 2
unfolding alpn_token
length-alpn_token [] = refl
length-alpn_token (first ∷ name) = ground arith

length-first_alpn : (protos : List Bytes) → length (first_alpn protos) ≡ 2
unfolding first_alpn
length-first_alpn [] = refl
length-first_alpn (p ∷ ps) = length-alpn_token p

-- Server name, two counts and a protocol.
length-flags :
    (b : Bool) (n m : ℕ) (protos : List Bytes)
    → length (
        (if b then codes "d" else codes "i") ++ (format02d n ++ (format02d m ++ first_alpn protos)))
      ≡ 7
unfolding format02d
length-flags true n m protos = omega (arith, length-first_alpn protos)
length-flags false n m protos = omega (arith, length-first_alpn protos)

-- The prefix has ten characters, whatever the hello holds.
length-part_a : (ch : ClientHello) → length (part_a ch) ≡ 10
unfolding part_a
length-part_a ch =
    let n = cap_count (length ch.cipher_suites) in
    let m = cap_count (length ch.extensions) in
    omega (
      arith,
      length-append (negotiated_version_token ch) (
          (if ch.has_sni then codes "d" else codes "i")
          ++ (format02d n ++ (format02d m ++ first_alpn ch.alpn_protocols))),
      length-negotiated_version_token ch,
      length-flags ch.has_sni n m ch.alpn_protocols,
    )

length-encode_to_string : (bs : Bytes) → length (encode_to_string bs) ≡ 2 * length bs
unfolding encode_to_string
length-encode_to_string [] = omega arith
length-encode_to_string (b ∷ bs) = omega (arith, length-encode_to_string bs)

module _ (sha256 : Bytes → Bytes) (size : (s : Bytes) → length (sha256 s) ≡ 32) where
  length-truncated_sha256 : (s : Bytes) → length (truncated_sha256 sha256 s) ≡ 12
  unfolding truncated_sha256
  length-truncated_sha256 s =
      length-take_le 12 _ (omega (arith, size s, length-encode_to_string (sha256 s)))

  length-hash_segment : (s : Bytes) → length (hash_segment sha256 s) ≡ 12
  unfolding hash_segment
  length-hash_segment [] = refl
  length-hash_segment (c ∷ s) = length-truncated_sha256 (c ∷ s)

  length-part_b : (ch : ClientHello) → length (part_b sha256 ch) ≡ 12
  unfolding part_b
  length-part_b ch = grind (arith, length-truncated_sha256)

  -- A fingerprint has 36 characters, if a digest has 32 bytes.
  pub length-fingerprint : (ch : ClientHello) → length (fingerprint sha256 ch) ≡ 36
  unfolding fingerprint part_c
  length-fingerprint ch =
      let b = part_b sha256 ch in
      let c = hash_segment sha256 (part_c_raw ch) in
      omega (
        arith,
        length-append (part_a ch) (codes "_" ++ (b ++ (codes "_" ++ c))),
        length-append b (codes "_" ++ c),
        length-part_a ch,
        length-part_b ch,
        length-hash_segment (part_c_raw ch),
      )

best_of : ℕ → List ℕ → ℕ
best_of best vs = foldl (λ best v. if ltb best v then v else best) best vs

best_of_lem :
    (vs : List ℕ) (v : ℕ)
    → (v ≤ best_of v vs)
      × All (λ x. x ≤ best_of v vs) vs
      × ((best_of v vs ≡ v) ⊎ (any (λ x. best_of v vs == x) vs ≡ true))
unfolding best_of
best_of_lem [] v = (omega arith, tt, inl refl)
best_of_lem (x ∷ vs) v =
    let ih = best_of_lem vs (if ltb v x then x else v) in
    (ground (arith, ih.0), (ground (arith, ih.0), ih.1), ground (arith, ih.2))

-- The version behind the token is the highest that the hello offers: at least the legacy version
-- and each supported one, and one of them.
pub best_version_max :
    (ch : ClientHello)
    → (ch.legacy_version ≤ best_version ch)
      × All (λ v. v ≤ best_version ch) ch.supported_versions
      × ((best_version ch ≡ ch.legacy_version)
          ⊎ (any (λ v. best_version ch == v) ch.supported_versions ≡ true))
unfolding best_version best_of
best_version_max ch = best_of_lem ch.supported_versions ch.legacy_version
