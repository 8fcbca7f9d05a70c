-- ===== src/Ja4/Examples.antt =====
-- The parser and the fingerprint on one hello.
use mathlib.Core.List.Perm as Perm
use crucible_analytic.Prelude.{
  ℕ, ◌≡◌, ◌≢◌, refl, List, [], ◌∷◌, ◌++◌, some, ok, err, length, Bytes, replicate, codes, ◌%◌, take,
  drop,
}
use crucible_analytic.Ja4.Hello.Parse.{ClientHello, Error, out_of_fuel, parse_client_hello}
use crucible_analytic.Ja4.Hello.Lists.{
  is_grease, parse_uint16_list_with_prefix8, parse_uint16_list_with_prefix16, parse_alpn,
}
use crucible_analytic.Ja4.Hello.Wire.{Wire, encode, hello_of}
use crucible_analytic.Ja4.Hello.RoundTrip.{parse_client_hello-encode}
use crucible_analytic.Ja4.Hello.Total.{parse_client_hello-ends}
use crucible_analytic.Ja4.Records.{parse_client_hello_from_records}
use crucible_analytic.Ja4.Records.Fragments.{
  Fragment, encode_records, parse_client_hello_from_records-encode,
}
use crucible_analytic.Ja4.Fingerprint.{fingerprint, best_version, part_a}
use crucible_analytic.Ja4.Fingerprint.Order.{fingerprint-perm}

-- A hello with a GREASE cipher suite, a server name, ALPN and two versions.
abbrev browser : Wire
browser = record {
  legacy_version = 0x0303;
  random = replicate 32 7;
  session_id = 1 ∷ 2 ∷ [];
  cipher_suites = 0x0a0a ∷ 0x1301 ∷ 0xc02f ∷ [];
  compression = 0 ∷ [];
  extensions = some (
      record { kind = 0; body = [] }
      ∷ record { kind = 0x10; body = 0 ∷ 3 ∷ 2 ∷ codes "h2" }
      ∷ record { kind = 0x2b; body = 4 ∷ 3 ∷ 4 ∷ 3 ∷ 3 ∷ [] }
      ∷ record { kind = 0x0d; body = 0 ∷ 2 ∷ 4 ∷ 3 ∷ [] }
      ∷ []);
}

abbrev browser_hello : ClientHello
browser_hello = hello_of browser

-- A function of the size of a digest.
abbrev toy_digest : Bytes → Bytes
toy_digest s = replicate 32 (length s % 256)

parse_browser : parse_client_hello (encode browser) ≡ ok browser_hello
unfolding parse_client_hello crucible_analytic.Ja4.Hello.Parse.parse_header
    crucible_analytic.Ja4.Cursor.read_uint8 crucible_analytic.Ja4.Cursor.remaining
    crucible_analytic.Ja4.Cursor.read_uint24 crucible_analytic.Ja4.Hello.Parse.bound_to_body
    crucible_analytic.Ja4.Hello.Parse.parse_body crucible_analytic.Ja4.Cursor.read_uint16
    crucible_analytic.Ja4.Cursor.skip crucible_analytic.Ja4.Cursor.read_bytes
    crucible_analytic.Ja4.Hello.Parse.cipher_loop crucible_analytic.Ja4.Hello.Parse.parse_tail
    crucible_analytic.Ja4.Hello.Parse.parse_extensions
    crucible_analytic.Ja4.Hello.Parse.extension_loop crucible_analytic.Ja4.Hello.Parse.add_extension
    crucible_analytic.Ja4.Hello.Parse.read_extension_body is_grease
    crucible_analytic.Ja4.Hello.Lists.append_unless_grease parse_alpn
    crucible_analytic.Ja4.Hello.Lists.alpn_loop crucible_analytic.Ja4.Hello.Wire.alpn_of
parse_browser = refl

prefix_browser : part_a browser_hello ≡ codes "t13d0204h2"
unfolding part_a crucible_analytic.Ja4.Fingerprint.negotiated_version_token
    crucible_analytic.Ja4.Fingerprint.version_tokens best_version parse_uint16_list_with_prefix8
    crucible_analytic.Ja4.Cursor.read_uint8 crucible_analytic.Ja4.Cursor.remaining
    crucible_analytic.Ja4.Hello.Lists.uint16_loop crucible_analytic.Ja4.Cursor.read_uint16
    crucible_analytic.Ja4.Hello.Lists.append_unless_grease is_grease
    crucible_analytic.Ja4.Fingerprint.format02d crucible_analytic.Ja4.Fingerprint.cap_count
    crucible_analytic.Ja4.Fingerprint.first_alpn parse_alpn crucible_analytic.Ja4.Hello.Wire.alpn_of
    crucible_analytic.Ja4.Hello.Lists.alpn_loop crucible_analytic.Ja4.Cursor.read_bytes
    crucible_analytic.Ja4.Fingerprint.alpn_token
prefix_browser = refl

parse_client_hello-encode_example :
    parse_client_hello (encode browser ++ 9 ∷ []) ≡ ok (hello_of browser)
parse_client_hello-encode_example = parse_client_hello-encode browser (9 ∷ []) refl

parse_client_hello-ends_example : parse_client_hello (1 ∷ 0 ∷ 0 ∷ 2 ∷ 3 ∷ 3 ∷ []) ≢ err out_of_fuel
parse_client_hello-ends_example = parse_client_hello-ends (1 ∷ 0 ∷ 0 ∷ 2 ∷ 3 ∷ 3 ∷ [])

-- The message in two records, cut behind its tenth byte.
abbrev two_records : List Fragment
two_records =
    record { major = 3; minor = 1; payload = take 10 (encode browser) }
    ∷ record { major = 3; minor = 3; payload = drop 10 (encode browser) }
    ∷ []

parse_client_hello_from_records-encode_example :
    parse_client_hello_from_records (encode_records two_records ++ 0x17 ∷ [])
    ≡ ok (hello_of browser)
parse_client_hello_from_records-encode_example =
    parse_client_hello_from_records-encode browser [] (0x17 ∷ []) two_records refl refl

abbrev versions : List ℕ
versions = 0x1a1a ∷ 0x0304 ∷ 0x0303 ∷ []

abbrev protocols : List Bytes
protocols = codes "h2" ∷ codes "http/1.1" ∷ []

fingerprint-perm_example :
    fingerprint toy_digest (record browser_hello {
      cipher_suites = 0xc02f ∷ 0x1301 ∷ [];
      extensions = 0x10 ∷ 0 ∷ 0x2b ∷ 0x0d ∷ [];
    })
    ≡ fingerprint toy_digest browser_hello
unfolding is_grease
fingerprint-perm_example =
    fingerprint-perm toy_digest browser_hello (Perm.swap 0xc02f 0x1301 [])
      (Perm.swap 0x10 0 (0x2b ∷ 0x0d ∷ []))
