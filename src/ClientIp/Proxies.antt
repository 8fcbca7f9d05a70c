-- ===== src/ClientIp/Proxies.antt =====
-- What the list of trusted proxies means.
use crucible_analytic.Prelude.{
  ℕ, ◌≡◌, refl, Bool, false, ◌&&◌, ◌/◌, ◌*◌, ◌^◌, List, [], ◌∷◌, Option, none, some, Bytes, arith,
  ◌==◌, any, not, Bool-cases, inl, inr, subst, ap₂, ◌||◌,
}
use native.Mathlib.Nat.{div-one, one-le-pow, mul-div_cancel}
use crucible_analytic.Prelude.Text.{is_empty, trim_space}
use crucible_analytic.ClientIp.Resolver.{
  Addr, v4, v6, Prefix, Parsers, unmap, bit_len, shares, contains, mask_addr, masked, trusts,
  prefix_or_host, add_prefix, parse_trusted_proxies,
}

abbrev same_addr : Addr → Addr → Bool
same_addr (v4 a) (v4 b) = a == b
same_addr (v4 a) (v6 b) = false
same_addr (v6 a) (v4 b) = false
same_addr (v6 a) (v6 b) = a == b

abbrev by_host : Addr → Option Addr → Bool
by_host b none = false
by_host b (some ip) = same_addr (unmap ip) b

-- An entry read as a prefix, else as the one address.
abbrev by_entry : Addr → Option Addr → Option Prefix → Bool
by_entry b host none = by_host b host
by_entry b host (some p) = contains p b

abbrev pub names_proxy : Parsers → Addr → Bytes → Bool
names_proxy net b entry =
    let trimmed = trim_space entry in
    not (is_empty trimmed) && by_entry b (net.parse_addr trimmed) (net.parse_prefix trimmed)

-- The bits behind a prefix do not count.
mask_bits : (a k : ℕ) → a / 2 ^ k * 2 ^ k / 2 ^ k ≡ a / 2 ^ k
mask_bits a k = mul-div_cancel (a / 2 ^ k) (one-le-pow k 2 (omega arith))

shares-mask : (bits : ℕ) (a b : Addr) → shares bits (mask_addr bits a) b ≡ shares bits a b
unfolding mask_addr shares
shares-mask bits (v4 a) (v4 b) = rw mask_bits refl
shares-mask bits (v4 a) (v6 b) = refl
shares-mask bits (v6 a) (v4 b) = refl
shares-mask bits (v6 a) (v6 b) = rw mask_bits refl

contains-masked : (p : Prefix) (b : Addr) → contains (masked p) b ≡ contains p b
unfolding contains masked
contains-masked p b = shares-mask p.bits p.addr b

contains-host : (a b : Addr) → contains (record { addr = a; bits = bit_len a }) b ≡ same_addr a b
unfolding contains shares bit_len
contains-host (v4 a) (v4 b) = ground (arith, div-one a, div-one b)
contains-host (v4 a) (v6 b) = refl
contains-host (v6 a) (v4 b) = refl
contains-host (v6 a) (v6 b) = ground (arith, div-one a, div-one b)

some-injective : {A : Type 0} {x y : A} → some x ≡ some y → x ≡ y
some-injective e = cc

trusts-add_prefix :
    (net : Parsers) (host : Option Addr) (prefix : Option Prefix) (rest : Option (List Prefix))
    → (proxies : List Prefix) → add_prefix net (prefix_or_host net prefix host) rest ≡ some proxies
    → (b : Addr) (named : Bool) → ((ps : List Prefix) → rest ≡ some ps → trusts ps b ≡ named)
    → trusts proxies b ≡ (by_entry b host prefix || named)
unfolding add_prefix prefix_or_host trusts
trusts-add_prefix net host (some p) none proxies e b named ih = cc
trusts-add_prefix net none none rest proxies e b named ih = cc
trusts-add_prefix net (some ip) none none proxies e b named ih = cc
trusts-add_prefix net host (some p) (some ps) proxies e b named ih =
    subst (λ qs. trusts qs b ≡ (contains p b || named)) (some-injective e)
      (ap₂ (λ x y. x || y) (contains-masked p b) (ih ps refl))
trusts-add_prefix net (some ip) none (some ps) proxies e b named ih =
    subst (λ qs. trusts qs b ≡ (same_addr (unmap ip) b || named)) (some-injective e)
      (ap₂ (λ x y. x || y) (contains-host (unmap ip) b) (ih ps refl))

trusts-nil : (b : Addr) → trusts [] b ≡ false
unfolding trusts
trusts-nil b = refl

-- When the list parses, an address is trusted exactly when a nonblank entry of it, with the white
-- space around it cut, is a prefix that has the address, or no prefix but the address itself.
trusts-parse_trusted_proxies :
    (net : Parsers) (entries : List Bytes) (proxies : List Prefix)
    → parse_trusted_proxies net entries ≡ some proxies
    → (b : Addr) → trusts proxies b ≡ any (names_proxy net b) entries
unfolding parse_trusted_proxies
trusts-parse_trusted_proxies net [] proxies e b =
    subst (λ qs. trusts qs b ≡ false) (some-injective e) (trusts-nil b)
trusts-parse_trusted_proxies net (entry ∷ entries) proxies e b =
    elim (Bool-cases (is_empty (trim_space entry))) [
      | inl blank ↦
          rw blank (trusts-parse_trusted_proxies net entries proxies (ground (arith, e, blank)) b)
      | inr full ↦ rw full (
          trusts-add_prefix net (net.parse_addr (trim_space entry))
            (net.parse_prefix (trim_space entry)) (parse_trusted_proxies net entries) proxies
            (ground (arith, e, full)) b (any (names_proxy net b) entries)
            (λ ps h. trusts-parse_trusted_proxies net entries ps h b))
    ]
