-- ===== src/Privacy/Network.antt =====
-- Masked addresses and the networks that they name.
use crucible_analytic.Prelude.{
  ℕ, ◌*◌, ◌/◌, ◌^◌, ◌≡◌, refl, ap, true, Option, none, some, arith, ◌↔◌,
}
use mathlib.Core.Option.{some-injective}
use crucible_analytic.ClientIp.Resolver.{Addr, v4, v6, unmap, mask_addr, shares}
use crucible_analytic.Privacy.{IpMode, masked_bits_of, mask_ip, masked_bits}

-- The mask of an IPv6 address maps no IPv4 address.
unmap-masked_v6 : (a : ℕ) → unmap (v6 (a / 2 ^ 64 * 2 ^ 64)) ≡ v6 (a / 2 ^ 64 * 2 ^ 64)
unfolding unmap
unmap-masked_v6 a = ground arith

abbrev mask : Addr → Addr
mask a = mask_addr (masked_bits_of a) a

mask-mask : (a : Addr) → mask (unmap (mask a)) ≡ mask a
unfolding mask_addr
mask-mask (v4 a) = unfold unmap in ap v4 (omega arith)
mask-mask (v6 a) = rw (unmap-masked_v6 a) (ap v6 (omega arith))

mask_same : (a b : Addr) → shares (masked_bits_of a) a b ≡ true → mask a ≡ mask b
unfolding mask_addr shares
mask_same (v4 a) (v4 b) h = ap v4 (ground (arith, h))
mask_same (v4 a) (v6 b) h = cc
mask_same (v6 a) (v4 b) h = cc
mask_same (v6 a) (v6 b) h = ap v6 (ground (arith, h))

number : Addr → ℕ
number (v4 a) = a
number (v6 a) = a

same_mask : (a b : Addr) → mask a ≡ mask b → shares (masked_bits_of a) a b ≡ true
unfolding mask_addr shares number
same_mask (v4 a) (v4 b) h = let e = ap number h in ground (arith, e)
same_mask (v4 a) (v6 b) h = cc
same_mask (v6 a) (v4 b) h = cc
same_mask (v6 a) (v6 b) h = let e = ap number h in ground (arith, e)

-- Masking again, in whatever mode, changes nothing.
pub mask_ip-mask_ip : (ip : Option Addr) (m n : IpMode) → mask_ip (mask_ip ip m) n ≡ mask_ip ip m
unfolding mask_ip
mask_ip-mask_ip none m n = refl
mask_ip-mask_ip (some a) m n = ap some (mask-mask (unmap a))

-- Two addresses are stored as one, in whatever mode, if and only if without the mapping of IPv4 into
-- IPv6 they are of one family and agree in its leading bits: 24 of IPv4, 64 of IPv6.
pub mask_ip_iff :
    (a b : Addr) (m : IpMode)
    → mask_ip (some a) m ≡ mask_ip (some b) m ↔ shares (masked_bits a) (unmap a) (unmap b) ≡ true
unfolding mask_ip masked_bits
mask_ip_iff a b m = (
  λ e. same_mask (unmap a) (unmap b) (some-injective _ _ e),
  λ h. ap some (mask_same (unmap a) (unmap b) h),
)
