-- ===== src/ClientIp/Resolver.antt =====
-- internal/clientip/clientip.go: Resolver, Peer, parseHop and ParseTrustedProxies.
use crucible_analytic.Prelude.{
  ℕ, ◌-◌, ◌*◌, ◌/◌, ◌^◌, Bool, true, false, not, List, [], ◌∷◌, ◌++◌, Option, none, some, Bytes,
  ◌==◌, if◌then◌else◌, any,
}
use crucible_analytic.Prelude.Text.{trim_space, is_empty}
use mathlib.Core.List.{reverse}

pub data Addr : Type 0 where
  v4 v6 : ℕ → Addr

pub record Prefix : Type 0 where
  pub addr : Addr
  pub bits : ℕ

pub record Parsers : Type 0 where
  pub parse_addr : Bytes → Option Addr
  pub parse_prefix : Bytes → Option Prefix
  pub split_host_port : Bytes → Option (Bytes × Bytes)

-- An address of ::ffff:0:0/96 is the IPv4 address that it maps.
unfoldable pub unmap : Addr → Addr
unmap (v4 a) = v4 a
unmap (v6 a) = if a / 2 ^ 32 == 0xffff then v4 (a - 0xffff * 2 ^ 32) else v6 a

unfoldable pub bit_len : Addr → ℕ
bit_len (v4 a) = 32
bit_len (v6 a) = 128

-- The two families never match one another.
unfoldable pub shares : ℕ → Addr → Addr → Bool
shares bits (v4 a) (v4 b) = a / 2 ^ (32 - bits) == b / 2 ^ (32 - bits)
shares bits (v4 a) (v6 b) = false
shares bits (v6 a) (v4 b) = false
shares bits (v6 a) (v6 b) = a / 2 ^ (128 - bits) == b / 2 ^ (128 - bits)

unfoldable pub contains : Prefix → Addr → Bool
unfolding shares
contains p ip = shares p.bits p.addr ip

unfoldable pub mask_addr : ℕ → Addr → Addr
mask_addr bits (v4 a) = v4 (a / 2 ^ (32 - bits) * 2 ^ (32 - bits))
mask_addr bits (v6 a) = v6 (a / 2 ^ (128 - bits) * 2 ^ (128 - bits))

unfoldable pub masked : Prefix → Prefix
unfolding mask_addr
masked p = record p { addr = mask_addr p.bits p.addr }

-- The header fields that are read; a field that is not there is empty.
pub record Request : Type 0 where
  pub remote_addr : Bytes
  pub forwarded_for : Bytes
  pub real_ip : Bytes

-- `strings.Split(s, ",")`.
unfoldable pub split_comma : Bytes → Bytes → List Bytes
split_comma cur [] = cur ∷ []
split_comma cur (c ∷ s) = elim (c == b',') [
  | true ↦ cur ∷ split_comma [] s
  | false ↦ split_comma (cur ++ c ∷ []) s
]

-- The Resolver's field.
abbrev pub Resolver : Type 0
Resolver = List Prefix

unfoldable pub trusts : Resolver → Addr → Bool
trusts proxies ip = any (λ prefix. contains prefix ip) proxies

module _ (net : Parsers) where
  unfoldable pub host_of : Bytes → Option (Bytes × Bytes) → Bytes
  host_of remote_addr none = remote_addr
  host_of remote_addr (some (host, port)) = host

  unfoldable pub unmapped : Option Addr → Option Addr
  unmapped none = none
  unmapped (some ip) = some (unmap ip)

  unfoldable pub peer : Bytes → Option Addr
  unfolding unmapped host_of
  peer remote_addr =
      unmapped (net.parse_addr (trim_space (host_of remote_addr (net.split_host_port remote_addr))))

  unfoldable pub hop_with_port : Option (Bytes × Bytes) → Option Addr
  unfolding unmapped
  hop_with_port none = none
  hop_with_port (some (host, port)) = unmapped (net.parse_addr host)

  unfoldable pub hop_or_port : Bytes → Option Addr → Option Addr
  unfolding hop_with_port
  hop_or_port hop (some ip) = some (unmap ip)
  hop_or_port hop none = hop_with_port (net.split_host_port hop)

  unfoldable pub parse_hop : Bytes → Option Addr
  unfolding hop_or_port
  parse_hop hop =
      let trimmed = trim_space hop in
      if is_empty trimmed then none else hop_or_port trimmed (net.parse_addr trimmed)

  -- `for i := len(hops) - 1; i >= 0; i--`, over the hops from the right. `none` is the end of the
  -- loop, by `break` or by its test.
  unfoldable pub walk : Resolver → List Bytes → Option Addr
  walk proxies [] = none
  walk proxies (hop ∷ hops) =
      let left = walk proxies hops in
      elim (parse_hop hop) [ none ↦ none | some ip ↦ if trusts proxies ip then left else some ip ]

  unfoldable pub forwarded : Resolver → Bytes → Option Addr
  forwarded proxies header =
      if is_empty header then none else walk proxies (reverse (split_comma [] header))

  -- The answer for a trusted peer: the walk's, else X-Real-IP, else the peer.
  unfoldable pub or_else : Option Addr → Option Addr → Option Addr
  or_else none ip = ip
  or_else (some ip) other = some ip

  unfoldable pub client_ip_of : Resolver → Request → Option Addr → Option Addr
  unfolding or_else forwarded
  client_ip_of proxies r none = none
  client_ip_of proxies r (some ip) =
      if not (trusts proxies ip)
      then some ip
      else or_else (forwarded proxies r.forwarded_for) (or_else (parse_hop r.real_ip) (some ip))

  unfoldable pub client_ip : Resolver → Request → Option Addr
  unfolding client_ip_of
  client_ip proxies r = client_ip_of proxies r (peer r.remote_addr)

  -- `none` is the error of the first entry that is neither a prefix nor an address.
  unfoldable pub prefix_or_host : Option Prefix → Option Addr → Option Prefix
  prefix_or_host (some p) host = some (masked p)
  prefix_or_host none none = none
  prefix_or_host none (some ip) = some (record { addr = unmap ip; bits = bit_len (unmap ip) })

  unfoldable pub add_prefix : Option Prefix → Option (List Prefix) → Option (List Prefix)
  add_prefix none rest = none
  add_prefix (some p) none = none
  add_prefix (some p) (some ps) = some (p ∷ ps)

  unfoldable pub parse_trusted_proxies : List Bytes → Option (List Prefix)
  unfolding prefix_or_host add_prefix
  parse_trusted_proxies [] = some []
  parse_trusted_proxies (entry ∷ entries) =
      let rest = parse_trusted_proxies entries in
      let trimmed = trim_space entry in
      if is_empty trimmed
      then rest
      else add_prefix (prefix_or_host (net.parse_prefix trimmed) (net.parse_addr trimmed)) rest
