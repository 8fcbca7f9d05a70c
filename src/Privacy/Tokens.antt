-- ===== src/Privacy/Tokens.antt =====
-- The token of an address, which two services compute.
use crucible_analytic.Prelude.{
  ℕ, zero, suc, ◌+◌, ◌*◌, ◌/◌, ◌%◌, ◌^◌, ◌≤◌, ◌<◌, ◌≡◌, ◌≢◌, ◌⊎◌, ◌↔◌, false, refl, ap, ◌∙◌, sym,
  true, false, [], ◌∷◌, ◌++◌, some, Bytes, arith, ◌==◌, length, length-append, take, Bool-cases,
  inl, inr,
}
use native.Mathlib.Numerals.{unary_clauses}
use mathlib.Core.Option.{some-injective}
use crucible_analytic.Prelude.Text.{bytes_eq, bytes_eq_sound, bytes_eq_refl}
use crucible_analytic.ClientIp.Resolver.{Addr, v4, v6, unmap}
use crucible_analytic.Privacy.{hash_len, can_tokenise, be_bytes, as16, token_ip}

but_last : Bytes → Bytes
but_last [] = []
but_last (x ∷ []) = []
but_last (x ∷ y ∷ xs) = x ∷ but_last (y ∷ xs)

last_of : Bytes → ℕ
last_of [] = 0
last_of (x ∷ []) = x
last_of (x ∷ y ∷ xs) = last_of (y ∷ xs)

but_last-append : (xs : Bytes) (x : ℕ) → but_last (xs ++ x ∷ []) ≡ xs
unfolding but_last
but_last-append [] x = refl
but_last-append (y ∷ []) x = refl
but_last-append (y ∷ z ∷ xs) x = ap (λ (l : Bytes). y ∷ l) (but_last-append (z ∷ xs) x)

last_of-append : (xs : Bytes) (x : ℕ) → last_of (xs ++ x ∷ []) ≡ x
unfolding last_of
last_of-append [] x = refl
last_of-append (y ∷ []) x = refl
last_of-append (y ∷ z ∷ xs) x = last_of-append (z ∷ xs) x

scale-lt : (p m : ℕ) → m < p * 256 → m / 256 < p
scale-lt p m h = omega (arith, h)

div-lt : (k m : ℕ) → m < 256 ^ suc k → m / 256 < 256 ^ k
div-lt k m h = scale-lt (256 ^ k) m (simp unary_clauses at h)

be_bytes-injective : (k m n : ℕ) → m < 256 ^ k → n < 256 ^ k → be_bytes k m ≡ be_bytes k n → m ≡ n
unfolding be_bytes
be_bytes-injective zero m n hm hn e = omega (arith, hm, hn)
be_bytes-injective (suc k) m n hm hn e =
    let front =
      sym (but_last-append (be_bytes k (m / 256)) (m % 256))
      ∙ ap but_last e
      ∙ but_last-append (be_bytes k (n / 256)) (n % 256) in
    let back =
      sym (last_of-append (be_bytes k (m / 256)) (m % 256))
      ∙ ap last_of e
      ∙ last_of-append (be_bytes k (n / 256)) (n % 256) in
    let high = be_bytes-injective k (m / 256) (n / 256) (div-lt k m hm) (div-lt k n hn) front in
    omega (arith, high, back)

-- The two families have 32 and 128 bits.
abbrev pub IsAddr : Addr → Type 0
IsAddr (v4 a) = a < 2 ^ 32
IsAddr (v6 a) = a < 2 ^ 128

abbrev wide : Addr → ℕ
wide (v4 a) = 0xffff * 2 ^ 32 + a
wide (v6 a) = a

as16-wide : (a : Addr) → as16 a ≡ be_bytes 16 (wide a)
unfolding as16
as16-wide (v4 a) = refl
as16-wide (v6 a) = refl

wide-lt : (a : Addr) → IsAddr a → wide a < 256 ^ 16
wide-lt (v4 a) h = omega (arith, h)
wide-lt (v6 a) h = h

unmap-IsAddr : (a : Addr) → IsAddr a → IsAddr (unmap a)
unfolding unmap
unmap-IsAddr (v4 a) h = h
unmap-IsAddr (v6 a) h = elim (Bool-cases (a / 2 ^ 32 == 0xffff)) [
  | inl e ↦ rw (e) (ground (arith, e))
  | inr e ↦ rw (e) h
]

abbrev IsUnmapped : Addr → Type 0
IsUnmapped (v4 a) = Unit
IsUnmapped (v6 a) = (a / 2 ^ 32 == 0xffff) ≡ false

unmap-IsUnmapped : (a : Addr) → IsUnmapped (unmap a)
unfolding unmap
unmap-IsUnmapped (v4 a) = tt
unmap-IsUnmapped (v6 a) = elim (Bool-cases (a / 2 ^ 32 == 0xffff)) [
  | inl e ↦ rw (e) tt
  | inr e ↦ rw (e) e
]

wide-injective :
    (a b : Addr) → IsAddr a → IsAddr b → IsUnmapped a → IsUnmapped b → wide a ≡ wide b → a ≡ b
wide-injective (v4 a) (v4 b) ha hb ua ub e = ap v4 (omega (arith, e))
wide-injective (v4 a) (v6 b) ha hb ua ub e = absurd (ground (arith, ha, ub, e))
wide-injective (v6 a) (v4 b) ha hb ua ub e = absurd (ground (arith, hb, ua, e))
wide-injective (v6 a) (v6 b) ha hb ua ub e = ap v6 e

length-be_bytes : (k n : ℕ) → length (be_bytes k n) ≡ k
unfolding be_bytes
length-be_bytes zero n = refl
length-be_bytes (suc k) n =
    omega (arith, length-append (be_bytes k (n / 256)) (n % 256 ∷ []), length-be_bytes k (n / 256))

length-as16 : (a : Addr) → length (as16 a) ≡ 16
length-as16 a = rw (as16-wide a) (length-be_bytes 16 (wide a))

as16-injective :
    (a b : Addr) → IsAddr a → IsAddr b → as16 (unmap a) ≡ as16 (unmap b) → unmap a ≡ unmap b
as16-injective a b ha hb e =
    let ka = unmap-IsAddr a ha in
    let kb = unmap-IsAddr b hb in
    wide-injective (unmap a) (unmap b) ka kb (unmap-IsUnmapped a) (unmap-IsUnmapped b) (
      be_bytes-injective 16 (wide (unmap a)) (wide (unmap b)) (wide-lt (unmap a) ka)
        (wide-lt (unmap b) kb) (sym (as16-wide (unmap a)) ∙ e ∙ as16-wide (unmap b)))

-- Two texts of an HMAC that begin alike.
abbrev pub IsCollision : (Bytes → Bytes) → Bytes → Bytes → Type 0
IsCollision mac s t = (s ≢ t) × (take hash_len (mac s) ≡ take hash_len (mac t))

bytes_eq_apart : (s t : Bytes) → bytes_eq s t ≡ false → s ≢ t
bytes_eq_apart s t e h = let no_such = rw (h, bytes_eq_refl) at e in cc

module _ (hmac : Bytes → Bytes → Bytes) where
  -- With a key of 32 bytes or more: two addresses have one token if and only if they are one address,
  -- an IPv4 address that IPv6 maps being that IPv4 address, or the two different texts of 16 bytes
  -- that stand for them have HMACs that agree in the half that is kept.
  pub token_ip_iff :
      (key : Bytes) (a b : Addr)
      → 32 ≤ length key
      → IsAddr a
      → IsAddr b
      → token_ip hmac (some a) key ≡ token_ip hmac (some b) key
        ↔ (unmap a ≡ unmap b) ⊎ IsCollision (hmac key) (as16 (unmap a)) (as16 (unmap b))
  unfolding token_ip
  token_ip_iff key a b long ha hb =
      let able : can_tokenise key ≡ true = unfold can_tokenise in ground (arith, long) in
      rw (able) (
        λ e. elim (Bool-cases (bytes_eq (as16 (unmap a)) (as16 (unmap b)))) [
          | inl same ↦ inl (as16-injective a b ha hb (bytes_eq_sound _ _ same))
          | inr apart ↦ inr (bytes_eq_apart _ _ apart, some-injective _ _ e)
        ],
        λ h. elim h [
          | inl same ↦ ap (λ (x : Addr). some (take hash_len (hmac key (as16 x)))) same
          | inr (_, e) ↦ ap (λ (x : Bytes). some x) e
        ],
      )
