-- ===== src/Privacy/Examples.antt =====
-- Addresses on concrete input.
use crucible_analytic.Prelude.{◌+◌, ◌*◌, ◌^◌, ◌≡◌, ◌↔◌, ◌⊎◌, arith, true, some, Bytes, replicate}
use crucible_analytic.ClientIp.Resolver.{Addr, v4, v6, unmap, shares}
use crucible_analytic.Privacy.{ip_masked, mask_ip, masked_bits, as16, token_ip}
use crucible_analytic.Privacy.Network.{mask_ip_iff}
use crucible_analytic.Privacy.Tokens.{IsCollision, token_ip_iff}

abbrev host : Addr
host = v4 0x0a141e28

abbrev neighbour : Addr
neighbour = v6 (0xffff * 2 ^ 32 + 0x0a141e29)

mask_ip_iff_example :
    mask_ip (some host) ip_masked ≡ mask_ip (some neighbour) ip_masked
    ↔ shares (masked_bits host) (unmap host) (unmap neighbour) ≡ true
mask_ip_iff_example = mask_ip_iff host neighbour ip_masked

-- An HMAC that keeps its text.
abbrev keeping : Bytes → Bytes → Bytes
keeping key s = s

token_ip_iff_example :
    token_ip keeping (some host) (replicate 32 7)
      ≡ token_ip keeping (some neighbour) (replicate 32 7)
    ↔ (unmap host ≡ unmap neighbour)
      ⊎ IsCollision (keeping (replicate 32 7)) (as16 (unmap host)) (as16 (unmap neighbour))
token_ip_iff_example =
    token_ip_iff keeping (replicate 32 7) host neighbour (omega arith) (omega arith) (omega arith)
