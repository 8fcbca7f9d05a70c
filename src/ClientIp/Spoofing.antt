-- ===== src/ClientIp/Spoofing.antt =====
-- What a client can and cannot do with forwarded headers.
use mathlib.Core.List.{reverse, reverse-append}
use crucible_analytic.Prelude.{
  ◌≡◌, refl, subst, ap, sym, ◌∙◌, true, false, List, [], ◌∷◌, ◌++◌, none, some, Bytes, arith, ◌==◌,
  if◌then◌else◌, Bool-cases, Option-cases, inl, inr, All,
}
use crucible_analytic.Prelude.Text.{is_empty}
use crucible_analytic.ClientIp.Resolver.{
  Addr, Parsers, Request, Resolver, split_comma, trusts, peer, parse_hop, walk, forwarded,
  client_ip_of, client_ip,
}

split_comma-append :
    (cur s t : Bytes) → split_comma cur (s ++ b',' ∷ t) ≡ split_comma cur s ++ split_comma [] t
unfolding split_comma
split_comma-append cur [] t = refl
split_comma-append cur (c ∷ s) t = elim (Bool-cases (c == b',')) [
  | inl e ↦ rw (e, split_comma) (ap (λ (l : List Bytes). cur ∷ l) (split_comma-append [] s t))
  | inr e ↦ rw (e, split_comma) (split_comma-append (cur ++ c ∷ []) s t)
]

module _ (net : Parsers) (proxies : Resolver) where
  walk-append :
      (hops more : List Bytes) (ip : Addr)
      → walk net proxies hops ≡ some ip
      → walk net proxies (hops ++ more) ≡ some ip
  unfolding walk
  walk-append [] more ip e = cc
  walk-append (hop ∷ hops) more ip e = ground (arith, walk-append hops more ip)

  forwarded-append :
      (claimed header : Bytes) (ip : Addr)
      → forwarded net proxies header ≡ some ip
      → forwarded net proxies (claimed ++ b',' ∷ header) ≡ some ip
  unfolding forwarded is_empty
  forwarded-append claimed [] ip e = cc
  forwarded-append claimed (h ∷ header) ip e =
      subst
        (λ b.
          (if b
            then none
            else walk net proxies (reverse (split_comma [] (claimed ++ b',' ∷ h ∷ header))))
          ≡ some ip)
        (sym (nonempty claimed))
        (rw (split_comma-append [] claimed (h ∷ header), reverse-append)
          (walk-append (reverse (split_comma [] (h ∷ header))) (reverse (split_comma [] claimed)) ip
            e))
    where
      nonempty : (s : Bytes) → is_empty (s ++ b',' ∷ h ∷ header) ≡ false
      nonempty [] = refl
      nonempty (c ∷ s) = refl

  -- Whatever a client writes in front of the header that the trusted chain built, the chain's
  -- finding stands: a request that resolves by its forwarded header resolves to the same address
  -- with anything claimed to the left of it.
  pub client_ip-claimed :
      (r : Request) (claimed : Bytes) (ip : Addr)
      → forwarded net proxies r.forwarded_for ≡ some ip
      → client_ip net proxies (record r { forwarded_for = claimed ++ b',' ∷ r.forwarded_for })
        ≡ client_ip net proxies r
  unfolding client_ip client_ip_of
  client_ip-claimed r claimed ip e =
      ground (arith, e, forwarded-append claimed r.forwarded_for ip e)

  -- Without a trusted peer no header is read: two requests from one peer that is not trusted are
  -- attributed alike, to the peer.
  pub client_ip_untrusted :
      (r : Request) (ip : Addr)
      → peer net r.remote_addr ≡ some ip
      → trusts proxies ip ≡ false
      → (forwarded_for real_ip : Bytes)
      → client_ip net proxies (record r { forwarded_for = forwarded_for; real_ip = real_ip })
        ≡ some ip
  unfolding client_ip client_ip_of
  client_ip_untrusted r ip e untrusted forwarded_for real_ip = ground (arith, e, untrusted)

  -- The hops, the nearest first, up to and with the one that a walk finds.
  pub record Found (hops : List Bytes) (ip : Addr) : Type 0 where
    pub near : List Bytes
    pub hop : Bytes
    pub far : List Bytes
    pub shape : hops ≡ near ++ hop ∷ far
    pub names : parse_hop net hop ≡ some ip
    pub untrusted : trusts proxies ip ≡ false
    pub vouched :
        All (λ h. (a : Addr) × (parse_hop net h ≡ some a) × (trusts proxies a ≡ true)) near

  -- The walk finds the nearest hop that is not trusted, and every nearer hop is an address of a
  -- trusted proxy.
  pub walk_sound : (hops : List Bytes) (ip : Addr) → walk net proxies hops ≡ some ip → Found hops ip
  unfolding walk
  walk_sound [] ip e = cc
  walk_sound (h ∷ hops) ip e = elim (Option-cases (parse_hop net h)) [
    | inl none_e ↦ absurd (ground (arith, e, none_e))
    | inr (a, some_e) ↦ elim (Bool-cases (trusts proxies a)) [
      | inl t ↦ further a some_e t (walk_sound hops ip (ground (arith, e, some_e, t)))
      | inr f ↦ here a some_e f (ground (arith, e, some_e, f))
    ]
  ]
    where
      further :
          (a : Addr)
          → parse_hop net h ≡ some a
          → trusts proxies a ≡ true
          → Found hops ip
          → Found (h ∷ hops) ip
      further a some_e t found = record {
        near = h ∷ found.near;
        hop = found.hop;
        far = found.far;
        shape = ap (λ (l : List Bytes). h ∷ l) found.shape;
        names = found.names;
        untrusted = found.untrusted;
        vouched = ((a, some_e, t), found.vouched);
      }

      here :
          (a : Addr)
          → parse_hop net h ≡ some a
          → trusts proxies a ≡ false
          → a ≡ ip
          → Found (h ∷ hops) ip
      here a some_e f same = record {
        near = [];
        hop = h;
        far = hops;
        shape = refl;
        names = some_e ∙ ap some same;
        untrusted = subst (λ b. trusts proxies b ≡ false) same f;
        vouched = tt;
      }
