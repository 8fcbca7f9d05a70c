-- ===== src/Ja4/Fingerprint.antt =====
-- internal/ja4/ja4.go: the JA4 fingerprint of a parsed ClientHello. Text is a list of bytes. The
-- digest is a parameter, `sha256`; the sort is the library's.
pub mod Order
pub mod Shape
use Prim.Native.Nat.{max}
use crucible_analytic.Prelude.{
  ℕ, ◌+◌, ◌-◌, ◌*◌, ◌/◌, ◌%◌, ◌^◌, Bool, true, false, not, ◌||◌, List, [], ◌∷◌, ◌++◌, foldl, map,
  Option, some, none, codes, ltb, ◌==◌, if◌then◌else◌, length, get_or, take, keep_if, Bytes,
}
use crucible_analytic.Prelude.Sorting.{sort}
use crucible_analytic.Ja4.Hello.Parse.{ClientHello, ext_server_name, ext_alpn}

-- The map from a wire version to its token.
unfoldable pub version_tokens : ℕ → Option Bytes
version_tokens v =
    if v == 0x0304
    then some (codes "13")
    else if v == 0x0303
    then some (codes "12")
    else if v == 0x0302
    then some (codes "11")
    else if v == 0x0301
    then some (codes "10")
    else if v == 0x0300
    then some (codes "s3")
    else if v == 0x0002
    then some (codes "s2")
    else none

-- `best` behind the loop over SupportedVersions.
unfoldable pub best_version : ClientHello → ℕ
best_version ch =
    foldl (λ best v. if ltb best v then v else best) ch.legacy_version ch.supported_versions

abbrev or_zeros : Option Bytes → Bytes
or_zeros none = codes "00"
or_zeros (some token) = token

unfoldable pub negotiated_version_token : ClientHello → Bytes
negotiated_version_token ch = or_zeros (version_tokens (best_version ch))

unfoldable pub cap_count : ℕ → ℕ
cap_count n = if ltb 99 n then 99 else n

-- `%02d` of a number below 100.
unfoldable pub format02d : ℕ → Bytes
format02d n = (b'0' + n / 10) ∷ (b'0' + n % 10) ∷ []

unfoldable pub alpn_token : Bytes → Bytes
alpn_token [] = codes "00"
alpn_token (first ∷ name) =
    if ltb 0x7f first
    then codes "99"
    else first ∷ get_or (first ∷ name) (length (first ∷ name) - 1) 0 ∷ []

unfoldable pub first_alpn : List Bytes → Bytes
first_alpn [] = codes "00"
first_alpn (proto ∷ protos) = alpn_token proto

unfoldable pub part_a : ClientHello → Bytes
part_a ch =
    codes "t"
    ++ (negotiated_version_token ch
        ++ ((if ch.has_sni then codes "d" else codes "i")
            ++ (format02d (cap_count (length ch.cipher_suites))
                ++ (format02d (cap_count (length ch.extensions)) ++ first_alpn ch.alpn_protocols))))

-- A lower-case hexadecimal digit.
unfoldable pub hex_digit : ℕ → ℕ
hex_digit d = if ltb d 10 then b'0' + d else b'a' + (d - 10)

-- `%04x` of a 16-bit word.
unfoldable pub hex4 : ℕ → Bytes
hex4 v =
    hex_digit (v / 4096 % 16)
    ∷ hex_digit (v / 256 % 16)
    ∷ hex_digit (v / 16 % 16)
    ∷ hex_digit (v % 16)
    ∷ []

join_rest : List ℕ → Bytes
join_rest [] = []
join_rest (v ∷ vs) = b',' ∷ (hex4 v ++ join_rest vs)

-- `strings.Join` of the words' digits, with commas.
unfoldable pub join_hex4 : List ℕ → Bytes
unfolding join_rest
join_hex4 [] = []
join_hex4 (v ∷ vs) = hex4 v ++ join_rest vs

-- `hex.EncodeToString`.
unfoldable pub encode_to_string : Bytes → Bytes
encode_to_string [] = []
encode_to_string (b ∷ bs) = hex_digit (b / 16 % 16) ∷ hex_digit (b % 16) ∷ encode_to_string bs

abbrev pub empty_hash_segment : Bytes
empty_hash_segment = codes "000000000000"

abbrev pub is_hashed_extension : ℕ → Bool
is_hashed_extension e = not (e == ext_server_name || e == ext_alpn)

-- The text that part C hashes.
unfoldable pub part_c_raw : ClientHello → Bytes
part_c_raw ch =
    join_hex4 (sort (keep_if is_hashed_extension ch.extensions))
    ++ (if ltb 0 (length ch.signature_algorithms)
        then codes "_" ++ join_hex4 ch.signature_algorithms
        else [])

module _ (sha256 : Bytes → Bytes) where
  unfoldable pub truncated_sha256 : Bytes → Bytes
  truncated_sha256 s = take 12 (encode_to_string (sha256 s))

  -- The digest of a text that is not empty.
  unfoldable pub hash_segment : Bytes → Bytes
  hash_segment [] = empty_hash_segment
  hash_segment (c ∷ s) = truncated_sha256 (c ∷ s)

  unfoldable pub part_b : ClientHello → Bytes
  part_b ch =
      if length ch.cipher_suites == 0
      then empty_hash_segment
      else truncated_sha256 (join_hex4 (sort ch.cipher_suites))

  unfoldable pub part_c : ClientHello → Bytes
  part_c ch = hash_segment (part_c_raw ch)

  unfoldable pub fingerprint : ClientHello → Bytes
  fingerprint ch = part_a ch ++ (codes "_" ++ (part_b ch ++ (codes "_" ++ part_c ch)))
