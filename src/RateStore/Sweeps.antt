-- ===== src/RateStore/Sweeps.antt =====
-- The store between its requests and the sweeps of the cleanup loop.
use mathlib.Core.Logic.{if_pos, if_neg}
use crucible_analytic.Prelude.{
  ℕ, ◌+◌, ◌-◌, ◌*◌, ◌≤◌, ◌<◌, ◌≡◌, ◌⊎◌, inl, inr, refl, sym, subst, List, [], ◌∷◌, Option, none,
  some, Bytes, arith, ltb, Bool-cases,
}
use crucible_analytic.Prelude.Maps.{
  lookup, lookup-insert, Distinct, insert-Distinct, keep_if-Distinct, lookup-keep_if,
  lookup-keep_none,
}
use crucible_analytic.RateStore.History.{IsRecent, idle-Tracks}
use crucible_analytic.RateStore.Store.{
  IpState, MemoryRateStore, new_memory_rate_store, state_or_new, touched, record_request, snapshot,
  snapshot_loop, is_live, remove_expired,
}
use crucible_analytic.RateStore.Requests.{
  Request, IsOrdered, Follows, counts-with_ja4, touched-Follows, IsRecent-mono, arrivals,
  arrivals-IsRecent, Reports, snapshot_loop-Reports, lookup-snapshot_none,
}

-- A request, or a run of the cleanup at a time; the newest is the first of a list.
pub data Use (Addr : Type 0) : Type 0 where
  requests : (r : Request Addr) → Use Addr
  sweeps : (at : ℕ) → Use Addr

abbrev pub requests_of : {Addr : Type 0} → List (Use Addr) → List (Request Addr)
requests_of [] = []
requests_of (requests r ∷ us) = r ∷ requests_of us
requests_of (sweeps at ∷ us) = requests_of us

-- No use is older than the one before it.
abbrev pub AreOrdered : {Addr : Type 0} → ℕ → List (Use Addr) → Type 0
AreOrdered now [] = Unit
AreOrdered now (requests r ∷ us) = (r.at ≤ now) × AreOrdered r.at us
AreOrdered now (sweeps at ∷ us) = (at ≤ now) × AreOrdered at us

requests-IsOrdered :
    {Addr : Type 0} (now later : ℕ) (us : List (Use Addr))
    → now ≤ later
    → AreOrdered now us
    → IsOrdered later (requests_of us)
requests-IsOrdered now later [] h o = tt
requests-IsOrdered now later (requests r ∷ us) h o =
    (omega (arith, h, o.0), requests-IsOrdered r.at r.at us (omega arith) o.1)
requests-IsOrdered now later (sweeps at ∷ us) h o =
    requests-IsOrdered at later us (omega (arith, h, o.0)) o.1

-- The address sent something, and has been swept away since.
abbrev IsSwept : ℕ → ℕ → List ℕ → Option IpState → Type 0
IsSwept ttl now [] o = ⊥
IsSwept ttl now (t ∷ ts) o = (o ≡ none) × (t + ttl < now)

abbrev pub Holds : ℕ → ℕ → ℕ → List ℕ → Option IpState → Type 0
Holds w ttl now ts o = Follows w ts o ⊎ IsSwept ttl now ts o

Holds-mono :
    (w ttl now later : ℕ) (ts : List ℕ) (o : Option IpState)
    → now ≤ later
    → Holds w ttl now ts o
    → Holds w ttl later ts o
Holds-mono w ttl now later ts o h (inl f) = inl f
Holds-mono w ttl now later [] o h (inr x) = elim x [ ]
Holds-mono w ttl now later (t ∷ ts) o h (inr (e, old)) = inr (e, omega (arith, h, old))

-- One more request, of an address that may have been swept away.
touched-Holds :
    (w ttl last now : ℕ) (ts : List ℕ) (o : Option IpState) (ja4 : Bytes)
    → 0 < w
    → 2 * w ≤ ttl
    → last ≤ now
    → IsRecent last ts
    → Holds w ttl last ts o
    → Follows w (now ∷ ts) (some (touched (state_or_new o now w) ja4 now w))
unfolding touched state_or_new
touched-Holds w ttl last now ts o ja4 pos long le r (inl f) =
    touched-Follows w now ts o ja4 pos (IsRecent-mono ts le r) f
touched-Holds w ttl last now [] o ja4 pos long le r (inr x) = elim x [ ]
touched-Holds w ttl last now (t ∷ ts) o ja4 pos long le r (inr (e, old)) = rw e (
  _,
  refl,
  rw counts-with_ja4
      (idle-Tracks w pos t now (t ∷ ts) (omega arith, r.1) (omega (arith, long, le, old))),
  refl,
)

module _ {Addr : Type 0} (same : Discrete Addr) where
  swept-Holds :
      (w at last : ℕ) (s : MemoryRateStore Addr) (ip : Addr) (ts : List ℕ)
      → last ≤ at
      → Distinct same s.states
      → Holds w s.idle_ttl last ts (lookup same ip s.states)
      → Holds w s.idle_ttl at ts (lookup same ip (remove_expired s at).0.states)
  unfolding remove_expired
  swept-Holds w at last s ip [] le d (inr x) = elim x [ ]
  swept-Holds w at last s ip [] le d (inl f) =
      inl (lookup-keep_none same (is_live s at) ip s.states f)
  swept-Holds w at last s ip (t ∷ ts) le d (inl (st, e, track, seen)) =
      let kept = lookup-keep_if same (is_live s at) ip st s.states d e in
      elim (Bool-cases (ltb st.last_seen (at - s.idle_ttl))) [
        | inl old ↦ inr (ground (arith, kept, old), ground (arith, old, seen))
        | inr new ↦ inl (st, ground (arith, kept, new), track, seen)
      ]
  swept-Holds w at last s ip (t ∷ ts) le d (inr (e, old)) =
      inr (lookup-keep_none same (is_live s at) ip s.states e, omega (arith, old, le))

module _ {Addr : Type 0} (same : Discrete Addr) (window_size idle_ttl : ℕ) where
  -- The store behind its uses, the newest first.
  unfoldable pub store_after : List (Use Addr) → MemoryRateStore Addr
  store_after [] = new_memory_rate_store window_size idle_ttl
  store_after (requests r ∷ us) = (record_request same (store_after us) r.ip r.ja4 r.at).0
  store_after (sweeps at ∷ us) = (remove_expired (store_after us) at).0

  pub fields-store_after :
      (us : List (Use Addr))
      → ((store_after us).window_size ≡ window_size) × ((store_after us).idle_ttl ≡ idle_ttl)
  unfolding store_after record_request remove_expired
  fields-store_after [] = (refl, refl)
  fields-store_after (requests r ∷ us) = fields-store_after us
  fields-store_after (sweeps at ∷ us) = fields-store_after us

  pub store_after-Distinct : (us : List (Use Addr)) → Distinct same (store_after us).states
  unfolding store_after record_request remove_expired
  store_after-Distinct [] = tt
  store_after-Distinct (requests r ∷ us) =
      insert-Distinct same r.ip _ (store_after us).states (store_after-Distinct us)
  store_after-Distinct (sweeps at ∷ us) =
      keep_if-Distinct same (is_live (store_after us) at) (store_after us).states
        (store_after-Distinct us)

  store_after-Holds :
      (now : ℕ) (us : List (Use Addr)) (ip : Addr)
      → 0 < window_size
      → 2 * window_size ≤ idle_ttl
      → AreOrdered now us
      → Holds window_size idle_ttl now
          (arrivals same ip (requests_of us))
          (lookup same ip (store_after us).states)
  unfolding store_after arrivals record_request
  store_after-Holds now [] ip pos long o = inl (unfold lookup in refl)
  store_after-Holds now (sweeps at ∷ us) ip pos long o =
      let ih = store_after-Holds at us ip pos long o.1 in
      let s = store_after us in
      let ts = arrivals same ip (requests_of us) in
      Holds-mono window_size idle_ttl at now ts _ o.0 (
        subst
          (λ (ttl : ℕ). Holds window_size ttl at ts (lookup same ip (remove_expired s at).0.states))
          (fields-store_after us).1
          (swept-Holds same window_size at at s ip ts (omega arith) (store_after-Distinct us) (
            subst (λ (ttl : ℕ). Holds window_size ttl at ts (lookup same ip s.states))
              (sym (fields-store_after us).1) ih)))
  store_after-Holds now (requests r ∷ us) ip pos long o =
      let s = store_after us in
      let ih = store_after-Holds r.at us ip pos long o.1 in
      let recent =
        arrivals-IsRecent same r.at ip (requests_of us)
          (requests-IsOrdered r.at r.at us (omega arith) o.1) in
      elim (same r.ip ip) [
        | yes e ↦
            let before =
              subst
                (λ a.
                  Holds window_size idle_ttl r.at (arrivals same ip (requests_of us))
                    (lookup same a s.states))
                (sym e) ih in
            rw (lookup-insert, if_pos _ e, if_pos _ e, (fields-store_after us).0)
              (inl (
                touched-Holds window_size idle_ttl r.at r.at (arrivals same ip (requests_of us)) _
                  r.ja4 pos long (omega arith) recent before))
        | no n ↦
            rw (lookup-insert, if_neg _ n, if_neg _ n)
              (Holds-mono window_size idle_ttl r.at now _ _ o.0 ih)
      ]

  -- Where the time to live is two windows or more, and a snapshot reaches back no further than it:
  -- the sweeps change nothing of what the snapshot reports.
  pub snapshot-store_after :
      (last since now : ℕ) (us : List (Use Addr)) (ip : Addr)
      → 0 < window_size
      → 2 * window_size ≤ idle_ttl
      → AreOrdered last us
      → last ≤ now
      → now ≤ since + idle_ttl
      → Reports window_size since now
          (arrivals same ip (requests_of us))
          (lookup same ip (snapshot (store_after us) since now))
  unfolding snapshot
  snapshot-store_after last since now us ip pos long o le reach = rw ((fields-store_after us).0) (
      report (arrivals same ip (requests_of us)) (store_after-Holds last us ip pos long o) (
        arrivals-IsRecent same last ip (requests_of us)
          (requests-IsOrdered last last us (omega arith) o)))
    where
      report :
          (ts : List ℕ)
          → Holds window_size idle_ttl last ts (lookup same ip (store_after us).states)
          → IsRecent last ts
          → Reports window_size since now ts
              (lookup same ip (snapshot_loop (store_after us).states since now window_size))
      report ts (inl f) r =
          snapshot_loop-Reports same window_size since now last ip (store_after us).states ts pos le
            (store_after-Distinct us) r f
      report [] (inr x) r = elim x [ ]
      report (t ∷ ts) (inr (e, old)) r = inl (
        omega (arith, old, le, reach),
        lookup-snapshot_none same ip (store_after us).states since now window_size e,
      )
