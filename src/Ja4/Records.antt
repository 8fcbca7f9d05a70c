-- ===== src/Ja4/Records.antt =====
-- internal/ja4/records.go: the handshake message put together again from TLS records. A record's
-- header is five bytes; each round of the loop takes one record off, so the bytes that are there
-- bound the rounds.
pub mod Fragments
use crucible_analytic.Prelude.{
  ℕ, zero, suc, ◌+◌, ◌*◌, ◌^◌, List, [], ◌∷◌, ◌++◌, Result, ok, err, ◌>>=◌, ◌>>◌, guard, true,
  false, not, ltb, leb, ◌==◌, if◌then◌else◌, length, get_or, take, drop, Bytes, Bool, ◌&&◌,
}
use crucible_analytic.Ja4.Hello.Parse.{
  Error, truncated, not_client_hello, out_of_fuel, ClientHello, parse_client_hello,
}

abbrev pub record_type_handshake : ℕ
record_type_handshake = 0x16

abbrev pub record_header_len : ℕ
record_header_len = 5

-- `len(msg) >= 4` and `len(msg) >= 4+declaredLen`.
unfoldable pub is_complete : Bytes → Bool
is_complete msg =
    leb 4 (length msg)
    && leb (4 + (get_or msg 1 0 * 2 ^ 16 + get_or msg 2 0 * 2 ^ 8 + get_or msg 3 0)) (length msg)

-- `for len(raw) > 0`.
unfoldable pub collect : ℕ → Bytes → Bytes → Result Error Bytes
collect zero raw msg = err out_of_fuel
collect (suc fuel) [] msg = ok msg
collect (suc fuel) (b ∷ bs) msg = do
  let raw : Bytes = b ∷ bs
  guard (leb record_header_len (length raw)) truncated
  guard (get_or raw 0 0 == record_type_handshake) not_client_hello
  let record_len = get_or raw 3 0 * 2 ^ 8 + get_or raw 4 0
  guard (leb (record_header_len + record_len) (length raw)) truncated
  let msg' = msg ++ take record_len (drop record_header_len raw)
  let again = collect fuel (drop (record_header_len + record_len) raw) msg'
  if is_complete msg' then ok msg' else again

unfoldable pub finish : Bytes → Result Error ClientHello
finish [] = err truncated
finish (b ∷ bs) = parse_client_hello (b ∷ bs)

unfoldable pub parse_client_hello_from_records : Bytes → Result Error ClientHello
parse_client_hello_from_records raw = collect (suc (length raw)) raw [] >>= finish
