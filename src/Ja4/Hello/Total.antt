-- ===== src/Ja4/Hello/Total.antt =====
-- The loops of ParseClientHello end: the fuel that they are given is never used up.
use crucible_analytic.Prelude.{
  ℕ, zero, suc, ◌<◌, ◌≤◌, ◌≡◌, ◌≢◌, List, [], some, arith, length, Bytes, err, Option-cases, inl,
  inr,
}
use crucible_analytic.Ja4.Cursor.{Cursor, start, remaining, read_uint16, read_bytes}
use crucible_analytic.Ja4.Hello.Lists.{append_unless_grease}
use crucible_analytic.Ja4.Hello.Alpn.{with_extension, add_extension_ok}
use crucible_analytic.Ja4.Hello.Parse.{
  ClientHello, out_of_fuel, extension_loop, parse_extensions, cipher_loop, bound_to_body,
  parse_header, parse_tail, parse_body, parse_client_hello,
}

read_uint16-advances :
    (c c' : Cursor) {v : ℕ} → read_uint16 c ≡ some (v, c') → remaining c' < remaining c
unfolding read_uint16 remaining
read_uint16-advances c c' e = ground arith

read_bytes-advances :
    (n : ℕ) (c c' : Cursor) {v : Bytes} → read_bytes n c ≡ some (v, c') → remaining c' ≤ remaining c
unfolding read_bytes remaining
read_bytes-advances n c c' e = ground arith

cipher_loop-ends :
    (fuel : ℕ) (c : Cursor) (out : List ℕ)
    → remaining c < fuel
    → cipher_loop fuel c out ≢ err out_of_fuel
unfolding cipher_loop
cipher_loop-ends zero c out h = elim h [ ]
cipher_loop-ends (suc fuel) c out h = elim (Option-cases (read_uint16 c)) [
  | inl e ↦ ground (arith, e)
  | inr ((v, c'), e) ↦
      ground (
        arith,
        e,
        read_uint16-advances c c' e,
        cipher_loop-ends fuel c' (append_unless_grease out v),
      )
]

-- One round: what the loop does behind its three reads.
extension_round :
    (fuel : ℕ) (c : Cursor) (ch : ClientHello)
    → ((c' : Cursor) (ch' : ClientHello)
        → remaining c' < remaining c
        → extension_loop fuel c' ch' ≢ err out_of_fuel)
    → extension_loop (suc fuel) c ch ≢ err out_of_fuel
unfolding extension_loop
extension_round fuel c ch ih = elim (Option-cases (read_uint16 c)) [
  | inl e ↦ ground (arith, e)
  | inr ((kind, c₁), e) ↦ elim (Option-cases (read_uint16 c₁)) [
    | inl e₁ ↦ ground (arith, e, e₁)
    | inr ((len, c₂), e₁) ↦ elim (Option-cases (read_bytes len c₂)) [
      | inl e₂ ↦ ground (arith, e, e₁, e₂)
      | inr ((body, c₃), e₂) ↦ ground (
        arith,
        e,
        e₁,
        e₂,
        read_uint16-advances c c₁ e,
        read_uint16-advances c₁ c₂ e₁,
        read_bytes-advances len c₂ c₃ e₂,
        add_extension_ok ch kind body,
        ih c₃ (with_extension ch kind body),
      )
    ]
  ]
]

extension_loop-ends :
    (fuel : ℕ) (c : Cursor) (ch : ClientHello)
    → remaining c < fuel
    → extension_loop fuel c ch ≢ err out_of_fuel
extension_loop-ends zero c ch h = elim h [ ]
extension_loop-ends (suc fuel) c ch h =
    extension_round fuel c ch (λ c' ch' lt. extension_loop-ends fuel c' ch' (omega arith))

remaining-start : (b : Bytes) → remaining (start b) ≡ length b
unfolding remaining
remaining-start b = omega arith

parse_extensions-ends : (b : Bytes) (ch : ClientHello) → parse_extensions b ch ≢ err out_of_fuel
unfolding parse_extensions
parse_extensions-ends b ch = extension_loop-ends _ (start b) ch (omega (arith, remaining-start b))

parse_tail-ends : (c : Cursor) (ch : ClientHello) → parse_tail c ch ≢ err out_of_fuel
unfolding parse_tail
parse_tail-ends c ch = grind (arith, parse_extensions-ends)

ciphers-end : (b : Bytes) → cipher_loop (suc (length b)) (start b) [] ≢ err out_of_fuel
ciphers-end b = cipher_loop-ends _ (start b) [] (omega (arith, remaining-start b))

parse_body-ends : (c : Cursor) → parse_body c ≢ err out_of_fuel
unfolding parse_body
parse_body-ends c = grind (arith, parse_tail-ends, ciphers-end)

parse_header-ends : (msg : Bytes) → parse_header msg ≢ err out_of_fuel
unfolding parse_header bound_to_body
parse_header-ends msg = ground arith

-- ParseClientHello returns, on every input: its loops end by their own tests.
pub parse_client_hello-ends : (msg : Bytes) → parse_client_hello msg ≢ err out_of_fuel
unfolding parse_client_hello
parse_client_hello-ends msg = grind (arith, parse_header-ends msg, parse_body-ends)
