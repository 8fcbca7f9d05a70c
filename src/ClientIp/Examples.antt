-- ===== src/ClientIp/Examples.antt =====
-- A proxy at 10.0.0.1 and clients behind it, with toy parsers: one letter is an address.
use crucible_analytic.Prelude.{
  ℕ, ◌≡◌, ◌+◌, ◌++◌, refl, Bool, true, false, List, [], ◌∷◌, Option, some, none, Bytes, codes, any,
  if◌then◌else◌, leb,
}
use crucible_analytic.ClientIp.Resolver.{
  Addr, v4, Prefix, Parsers, Request, Resolver, forwarded, client_ip, walk, trusts, peer,
  parse_trusted_proxies,
}
use crucible_analytic.ClientIp.Spoofing.{client_ip-claimed, Found, walk_sound}

abbrev toy_addr : Bytes → Option Addr
toy_addr (c ∷ []) = some (v4 c)
toy_addr _ = none

abbrev toy_parsers : Parsers
toy_parsers = record {
  parse_addr = toy_addr;
  parse_prefix = λ s. none;
  split_host_port = λ s. none;
}

abbrev proxies : Resolver
proxies = record { addr = v4 b'p'; bits = 32 } ∷ []

abbrev proxied : Request
proxied = record { remote_addr = codes "p"; forwarded_for = codes "c, p"; real_ip = [] }

client_ip-claimed_example :
    client_ip toy_parsers proxies
      (record proxied { forwarded_for = codes "x" ++ b',' ∷ codes "c, p" })
    ≡ client_ip toy_parsers proxies proxied
unfolding forwarded crucible_analytic.Prelude.Text.is_empty walk
    crucible_analytic.ClientIp.Resolver.split_comma crucible_analytic.ClientIp.Resolver.parse_hop
    crucible_analytic.Prelude.Text.trim_space crucible_analytic.Prelude.Text.trim_right
    crucible_analytic.Prelude.Text.trim_left crucible_analytic.Prelude.Text.is_space trusts
    crucible_analytic.ClientIp.Resolver.contains crucible_analytic.ClientIp.Resolver.unmap
client_ip-claimed_example = client_ip-claimed toy_parsers proxies proxied (codes "x") (v4 b'c') refl

abbrev direct : Request
direct = record { remote_addr = codes "c"; forwarded_for = []; real_ip = [] }

walk_sound_example : Found toy_parsers proxies (codes "p" ∷ codes "c" ∷ codes "x" ∷ []) (v4 b'c')
unfolding walk crucible_analytic.ClientIp.Resolver.parse_hop crucible_analytic.Prelude.Text.is_empty
    crucible_analytic.Prelude.Text.trim_space crucible_analytic.Prelude.Text.trim_right
    crucible_analytic.Prelude.Text.trim_left crucible_analytic.Prelude.Text.is_space trusts
    crucible_analytic.ClientIp.Resolver.contains crucible_analytic.ClientIp.Resolver.unmap
walk_sound_example =
    walk_sound toy_parsers proxies (codes "p" ∷ codes "c" ∷ codes "x" ∷ []) (v4 b'c') refl
