-- ===== src/Privacy.antt =====
-- internal/privacy/ip.go: what of an address reaches the disk. The zero netip.Addr is `none`; an
-- address with a zone is left out, since Prefix and As16 drop it. HMAC-SHA256 is a parameter, of a key
-- and a text. Prefix does not fail at the two lengths that are asked of it.
pub mod Network
pub mod Tokens
mod Examples
use crucible_analytic.Prelude.{
  ℕ, zero, suc, ◌+◌, ◌*◌, ◌/◌, ◌%◌, ◌^◌, Bool, true, false, not, ◌&&◌, ◌||◌, List, [], ◌∷◌, ◌++◌,
  Option, none, some, Bytes, codes, leb, length, take, if◌then◌else◌,
}
use crucible_analytic.Prelude.Text.{bytes_eq}
use crucible_analytic.ClientIp.Resolver.{Addr, v4, v6, unmap, mask_addr}

pub data IpMode : Type 0 where
  ip_masked ip_full : IpMode

abbrev pub default_ip_mode : IpMode
default_ip_mode = ip_masked

unfoldable pub parse_ip_mode : Bytes → IpMode
parse_ip_mode value =
    if bytes_eq value (codes "full")
    then ip_full
    else if bytes_eq value (codes "masked")
    then ip_masked
    else default_ip_mode

abbrev pub masks : IpMode → Bool
masks m = true

abbrev pub tokenises : IpMode → Bool
tokenises ip_masked = false
tokenises ip_full = true

abbrev pub masked_bits_of : Addr → ℕ
masked_bits_of (v4 a) = 24
masked_bits_of (v6 a) = 64

unfoldable pub mask_ip : Option Addr → IpMode → Option Addr
mask_ip none m = none
mask_ip (some ip) m =
    if masks m then some (mask_addr (masked_bits_of (unmap ip)) (unmap ip)) else some ip

unfoldable pub masked_bits : Addr → ℕ
masked_bits ip = masked_bits_of (unmap ip)

abbrev pub hash_len : ℕ
hash_len = 16

abbrev pub min_hash_key_len : ℕ
min_hash_key_len = 32

unfoldable pub can_tokenise : Bytes → Bool
can_tokenise key = leb min_hash_key_len (length key)

-- The low bytes of a number, most significant first.
unfoldable pub be_bytes : ℕ → ℕ → Bytes
be_bytes zero n = []
be_bytes (suc k) n = be_bytes k (n / 256) ++ (n % 256) ∷ []

unfoldable pub as16 : Addr → Bytes
as16 (v4 a) = be_bytes 16 (0xffff * 2 ^ 32 + a)
as16 (v6 a) = be_bytes 16 a

module _ (hmac : Bytes → Bytes → Bytes) where
  unfoldable pub token_ip : Option Addr → Bytes → Option Bytes
  token_ip none key = none
  token_ip (some ip) key =
      if can_tokenise key then some (take hash_len (hmac key (as16 (unmap ip)))) else none
