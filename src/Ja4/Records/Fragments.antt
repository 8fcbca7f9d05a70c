-- ===== src/Ja4/Records/Fragments.antt =====
-- A ClientHello that was split over records is parsed as the whole message is.
use crucible_analytic.Prelude.{
  ℕ, zero, suc, ◌+◌, ◌*◌, ◌/◌, ◌%◌, ◌^◌, leb→le, if◌then◌else◌, ◌<◌, ◌≤◌, ◌≡◌, ◌≢◌, refl, ap, ap₂,
  ◌∙◌, List, [], ◌∷◌, ◌++◌, append_assoc, ok, err, leb, length, get_or, take, drop, Bytes, be16,
  arith, length-append, length-drop, take-append, drop-append, Bool-cases, inl, inr,
}
use crucible_analytic.Ja4.Hello.Parse.{out_of_fuel}
use crucible_analytic.Ja4.Hello.Wire.{Wire, encode, hello_of}
use crucible_analytic.Ja4.Hello.RoundTrip.{parse_client_hello-encode}
use crucible_analytic.Ja4.Hello.Total.{parse_client_hello-ends}
use crucible_analytic.Ja4.Records.{
  record_type_handshake, record_header_len, is_complete, collect, finish,
  parse_client_hello_from_records,
}

-- One record: the two bytes of its version, and its payload.
pub record Fragment : Type 0 where
  pub major : ℕ
  pub minor : ℕ
  pub payload : Bytes

abbrev pub payloads : List Fragment → Bytes
payloads [] = []
payloads (x ∷ xs) = x.payload ++ payloads xs

abbrev pub encode_records : List Fragment → Bytes
encode_records [] = []
encode_records (x ∷ xs) =
    record_type_handshake
    ∷ x.major
    ∷ x.minor
    ∷ (be16 (length x.payload) ++ (x.payload ++ encode_records xs))

-- Two splits of one text: the longer front holds the shorter one.
front-append :
    (xs ys r t : Bytes) → xs ++ r ≡ ys ++ t → length ys ≤ length xs → xs ≡ ys ++ drop (length ys) xs
front-append xs [] r t e h = refl
front-append [] (y ∷ ys) r t e h = absurd (omega arith)
front-append (x ∷ xs) (y ∷ ys) r t e h =
    let head : x ≡ y = ap (λ (l : Bytes). get_or l 0 0) e in
    let tail = front-append xs ys r t (ap (drop 1) e) (omega arith) in
    ap₂ (λ (a : ℕ) (l : Bytes). a ∷ l) head tail

module _ (w : Wire) (trailing : Bytes) where
  -- The header's length is the body's, so a front of the message is complete when it holds all
  -- of it.
  is_complete-encode :
      (msg r : Bytes)
      → msg ++ r ≡ encode w ++ trailing
      → is_complete msg ≡ leb (length (encode w)) (length msg)
  unfolding is_complete
  is_complete-encode [] r e = ground arith
  is_complete-encode (a ∷ []) r e = ground arith
  is_complete-encode (a ∷ b ∷ []) r e = ground arith
  is_complete-encode (a ∷ b ∷ c ∷ []) r e = ground arith
  is_complete-encode (a ∷ b ∷ c ∷ d ∷ msg) r e = ground (
    arith,
    ap (λ (l : Bytes). get_or l 1 0) e,
    ap (λ (l : Bytes). get_or l 2 0) e,
    ap (λ (l : Bytes). get_or l 3 0) e,
  )

drop_header :
    (n a b c d e : ℕ) (ys : Bytes)
    → drop (record_header_len + n) (a ∷ b ∷ c ∷ d ∷ e ∷ ys) ≡ drop n ys
drop_header n a b c d e ys =
    let five : record_header_len + n ≡ suc (suc (suc (suc (suc n)))) = omega arith in rw five refl

-- One round on a record that is all there.
collect_round :
    (fuel major minor : ℕ) (p r msg : Bytes)
    → collect (suc fuel) (record_type_handshake ∷ major ∷ minor ∷ (be16 (length p) ++ (p ++ r))) msg
      ≡ (if is_complete (msg ++ p) then ok (msg ++ p) else collect fuel r (msg ++ p))
unfolding collect
collect_round fuel major minor p r msg =
    let n = length p / 256 * 2 ^ 8 + length p % 256 in
    let size : n ≡ length p = omega arith in
    let taken : take n (p ++ r) ≡ p = rw size (take-append p r) in
    let left : drop n (p ++ r) ≡ r = rw size (drop-append p r) in
    let header =
      drop_header n record_type_handshake major minor (length p / 256) (length p % 256) (p ++ r) in
    ground (arith, taken, left, header, length-append p r)

module _ (whole trailing junk : Bytes)
    (is_complete_iff : (msg r : Bytes)
      → msg ++ r ≡ whole ++ trailing
      → is_complete msg ≡ leb (length whole) (length msg)) where
  -- The loop stops at a front of the message that holds all of it.
  collect-encode :
      (fuel : ℕ) (xs : List Fragment) (msg : Bytes)
      → length xs < fuel
      → msg ++ payloads xs ≡ whole ++ trailing
      → length msg < length whole
      → (t : Bytes) × (collect fuel (encode_records xs ++ junk) msg ≡ ok (whole ++ t))
  collect-encode zero xs msg h e short = elim h [ ]
  collect-encode (suc fuel) [] msg h e short =
      absurd (omega (arith, ap length e, length-append msg [], length-append whole trailing))
  collect-encode (suc fuel) (x ∷ xs) msg h e short =
      let msg' = msg ++ x.payload in
      let e' : msg' ++ payloads xs ≡ whole ++ trailing =
        append_assoc msg x.payload (payloads xs) ∙ e in
      let round = collect_round fuel x.major x.minor x.payload (encode_records xs ++ junk) msg in
      rw (append_assoc x.payload (encode_records xs) junk, round)
        (elim (Bool-cases (leb (length whole) (length msg'))) [
          | inl done ↦
              rw (is_complete_iff msg' (payloads xs) e', done)
                (drop (length whole) msg', ap ok (front-append msg' whole _ _ e' (leb→le _ _ done)))
          | inr more ↦
              rw (is_complete_iff msg' (payloads xs) e', more)
                (collect-encode fuel xs msg' (omega arith) e' (ground arith))
        ])

length-encode_records : (xs : List Fragment) → length xs ≤ length (encode_records xs)
length-encode_records [] = omega arith
length-encode_records (x ∷ xs) =
    omega (arith, length-encode_records xs, length-append x.payload (encode_records xs))

finish_whole :
    (w : Wire) (t : Bytes) → length w.random ≡ 32 → finish (encode w ++ t) ≡ ok (hello_of w)
unfolding finish
finish_whole w t h = parse_client_hello-encode w t h

-- However a ClientHello message with 32 random bytes is cut into records, and whatever handshake bytes stand behind it
-- in its last record and whatever records or other bytes behind those, the hello that is read is
-- the message's own.
pub parse_client_hello_from_records-encode :
    (w : Wire) (trailing junk : Bytes) (xs : List Fragment)
    → length w.random ≡ 32
    → payloads xs ≡ encode w ++ trailing
    → parse_client_hello_from_records (encode_records xs ++ junk) ≡ ok (hello_of w)
unfolding parse_client_hello_from_records
parse_client_hello_from_records-encode w trailing junk xs h e =
    let raw = encode_records xs ++ junk in
    let (t, collected) =
      collect-encode (encode w) trailing junk (is_complete-encode w trailing) (suc (length raw)) xs
        [] (omega (arith, length-encode_records xs, length-append (encode_records xs) junk)) e
        (omega arith) in
    rw collected (finish_whole w t h)

collect-ends :
    (fuel : ℕ) (raw msg : Bytes) → length raw < fuel → collect fuel raw msg ≢ err out_of_fuel
unfolding collect
collect-ends zero raw msg h = elim h [ ]
collect-ends (suc fuel) [] msg h = ground arith
collect-ends (suc fuel) (b ∷ bs) msg h =
    let n = get_or (b ∷ bs) 3 0 * 2 ^ 8 + get_or (b ∷ bs) 4 0 in
    ground (
      arith,
      length-drop (record_header_len + n) (b ∷ bs),
      collect-ends fuel (drop (record_header_len + n) (b ∷ bs))
          (msg ++ take n (drop record_header_len (b ∷ bs))),
    )

-- Reading records returns, on every input.
pub parse_client_hello_from_records-ends :
    (raw : Bytes) → parse_client_hello_from_records raw ≢ err out_of_fuel
unfolding parse_client_hello_from_records finish
parse_client_hello_from_records-ends raw =
    grind (arith, collect-ends (suc (length raw)) raw [], parse_client_hello-ends)
