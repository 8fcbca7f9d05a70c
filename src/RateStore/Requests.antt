-- ===== src/RateStore/Requests.antt =====
-- The store after any sequence of requests: for each address, the two counters count that
-- address's requests.
use mathlib.Core.Logic.{ite, if_pos, if_neg}
use crucible_analytic.Prelude.{
  ℕ, ◌⊎◌, inl, inr, Bool-cases, ◌∙◌, length-keep_if-not, ◌+◌, ◌/◌, ◌≤◌, ◌<◌, ◌≡◌, refl, sym, subst,
  List, [], ◌∷◌, Option, none, some, Bytes, arith, ltb, if◌then◌else◌, length,
}
use crucible_analytic.Prelude.Maps.{
  lookup, lookup-insert, Distinct, insert-Distinct, lookup-keep_if,
}
use crucible_analytic.RateStore.Window.{window_stats_at}
use crucible_analytic.RateStore.History.{
  IsRecent, Tracks, in_window, in_previous, new_counts-Tracks, rotated-Tracks, arrival-Tracks,
}
use crucible_analytic.RateStore.Store.{
  IpState, Snapshot, MemoryRateStore, new_memory_rate_store, state_or_new, with_ja4, touched,
  take_snapshot, record_request, snapshot_loop, snapshot, is_live, remove_expired,
}

pub record Request (Addr : Type 0) : Type 0 where
  pub ip : Addr
  pub ja4 : Bytes
  pub at : ℕ

-- No request is older than the one before it.
abbrev pub IsOrdered : {Addr : Type 0} → ℕ → List (Request Addr) → Type 0
IsOrdered now [] = Unit
IsOrdered now (r ∷ rs) = (r.at ≤ now) × IsOrdered r.at rs

-- What a state has to say of its address's arrivals, newest first.
abbrev pub Follows : ℕ → List ℕ → Option IpState → Type 0
Follows w [] o = o ≡ none
Follows w (t ∷ ts) o =
    (st : IpState) × (o ≡ some st) × Tracks w t (t ∷ ts) st.counts × (st.last_seen ≡ t)

pub counts-with_ja4 : (st : IpState) (ja4 : Bytes) → (with_ja4 st ja4).counts ≡ st.counts
unfolding with_ja4
counts-with_ja4 st [] = refl
counts-with_ja4 st (c ∷ ja4) = refl

pub touched-Follows :
    (w now : ℕ) (ts : List ℕ) (o : Option IpState) (ja4 : Bytes)
    → 0 < w
    → IsRecent now ts
    → Follows w ts o
    → Follows w (now ∷ ts) (some (touched (state_or_new o now w) ja4 now w))
unfolding touched state_or_new
touched-Follows w now [] o ja4 pos r f =
    rw f (_, refl, rw counts-with_ja4 (new_counts-Tracks w pos now), refl)
touched-Follows w now (t ∷ ts) o ja4 pos (le, r) (st, e, track, seen) = rw e (
  _,
  refl,
  rw counts-with_ja4 (arrival-Tracks w pos st.counts t now (t ∷ ts) track (omega arith, r) le),
  refl,
)

pub IsRecent-mono :
    {now later : ℕ} (ts : List ℕ) → now ≤ later → IsRecent now ts → IsRecent later ts
IsRecent-mono [] h r = tt
IsRecent-mono (t ∷ ts) h r = (omega arith, r.1)

module _ {Addr : Type 0} (same : Discrete Addr) where
  unfoldable pub arrivals : Addr → List (Request Addr) → List ℕ
  arrivals ip [] = []
  arrivals ip (r ∷ rs) = ite (same r.ip ip) (r.at ∷ arrivals ip rs) (arrivals ip rs)

  pub arrivals-IsRecent :
      (now : ℕ) (ip : Addr) (rs : List (Request Addr))
      → IsOrdered now rs
      → IsRecent now (arrivals ip rs)
  unfolding arrivals
  arrivals-IsRecent now ip [] o = tt
  arrivals-IsRecent now ip (r ∷ rs) o = elim (same r.ip ip) [
    | yes e ↦ rw (if_pos _ e) (o.0, arrivals-IsRecent r.at ip rs o.1)
    | no n ↦ rw (if_neg _ n) (IsRecent-mono _ o.0 (arrivals-IsRecent r.at ip rs o.1))
  ]

module _ {Addr : Type 0} (same : Discrete Addr) (window_size idle_ttl : ℕ) where
  -- The store after the requests, the newest first.
  unfoldable pub store_of : List (Request Addr) → MemoryRateStore Addr
  store_of [] = new_memory_rate_store window_size idle_ttl
  store_of (r ∷ rs) = (record_request same (store_of rs) r.ip r.ja4 r.at).0

  window_size-store_of : (rs : List (Request Addr)) → (store_of rs).window_size ≡ window_size
  unfolding store_of record_request
  window_size-store_of [] = refl
  window_size-store_of (r ∷ rs) = window_size-store_of rs

  -- Every store that requests have built has one state for an address.
  pub store_of-Distinct : (rs : List (Request Addr)) → Distinct same (store_of rs).states
  unfolding store_of record_request
  store_of-Distinct [] = tt
  store_of-Distinct (r ∷ rs) =
      insert-Distinct same r.ip _ (store_of rs).states (store_of-Distinct rs)

  -- With a positive window, after any sequence of requests whose times do not go back, an address that sent none has no
  -- state; an address that sent some has its last request's time, the number of its requests in
  -- that time's window, and their number in the window before.
  pub store_of-Follows :
      (now : ℕ) (rs : List (Request Addr)) (ip : Addr)
      → 0 < window_size
      → IsOrdered now rs
      → Follows window_size (arrivals same ip rs) (lookup same ip (store_of rs).states)
  unfolding store_of arrivals record_request
  store_of-Follows now [] ip pos o = unfold lookup in refl
  store_of-Follows now (r ∷ rs) ip pos o =
      let s = store_of rs in
      let ih = store_of-Follows r.at rs ip pos o.1 in
      elim (same r.ip ip) [
        | yes e ↦
            let before =
              subst (λ a. Follows window_size (arrivals same ip rs) (lookup same a s.states))
                (sym e) ih in
            rw (lookup-insert, if_pos _ e, if_pos _ e, window_size-store_of rs)
              (touched-Follows window_size r.at (arrivals same ip rs) _ r.ja4 pos
                (arrivals-IsRecent same r.at ip rs o.1) before)
        | no n ↦ rw (lookup-insert, if_neg _ n, if_neg _ n) ih
      ]

-- What a snapshot at the time `now` has to report of an address with these arrivals.
abbrev pub Reports : ℕ → ℕ → ℕ → List ℕ → Option Snapshot → Type 0
Reports w since now [] o = o ≡ none
Reports w since now (t ∷ ts) o =
    ((t < since) × (o ≡ none))
    ⊎ ((since ≤ t)
        × ((sn : Snapshot) × (o ≡ some sn)
            × (sn.last_seen ≡ t)
            × (sn.stats.curr_window_count ≡ in_window w (now / w) (t ∷ ts))
            × (sn.stats.prev_window_count ≡ in_previous w (now / w) (t ∷ ts))))

-- What a snapshot at the time `now` says of an address whose requests the counters follow: their
-- number in the window of `now`, and in the window before.
take_snapshot-Tracks :
    (w now last : ℕ) (ts : List ℕ) (st : IpState)
    → 0 < w
    → Tracks w last ts st.counts
    → IsRecent last ts
    → last ≤ now
    → let stats = (take_snapshot st now w).stats in
      (stats.curr_window_count ≡ in_window w (now / w) ts)
      × (stats.prev_window_count ≡ in_previous w (now / w) ts)
unfolding take_snapshot window_stats_at
take_snapshot-Tracks w now last ts st pos tr r le =
    let t = rotated-Tracks w pos st.counts last now ts tr r le in (t.curr, t.prev)

module _ {Addr : Type 0} (same : Discrete Addr) where
  pub lookup-snapshot_none :
      (ip : Addr) (m : List (Addr × IpState)) (since now w : ℕ)
      → lookup same ip m ≡ none
      → lookup same ip (snapshot_loop m since now w) ≡ none
  unfolding lookup snapshot_loop
  lookup-snapshot_none ip [] since now w e = refl
  lookup-snapshot_none ip ((j, st) ∷ m) since now w e =
      ground (arith, lookup-snapshot_none ip m since now w)

  lookup-snapshot_loop :
      (ip : Addr) (st : IpState) (m : List (Addr × IpState)) (since now w : ℕ)
      → Distinct same m
      → lookup same ip m ≡ some st
      → lookup same ip (snapshot_loop m since now w)
        ≡ (if ltb st.last_seen since then none else some (take_snapshot st now w))
  unfolding lookup snapshot_loop
  lookup-snapshot_loop ip st [] since now w d e = cc
  lookup-snapshot_loop ip st ((j, u) ∷ m) since now w d e =
      ground
        (arith, lookup-snapshot_loop ip st m since now w d.1, lookup-snapshot_none ip m since now w)

  pub snapshot_loop-Reports :
      (w since now last : ℕ) (ip : Addr) (m : List (Addr × IpState)) (ts : List ℕ)
      → 0 < w
      → last ≤ now
      → Distinct same m
      → IsRecent last ts
      → Follows w ts (lookup same ip m)
      → Reports w since now ts (lookup same ip (snapshot_loop m since now w))
  snapshot_loop-Reports w since now last ip m [] pos le d r f =
      lookup-snapshot_none ip m since now w f
  snapshot_loop-Reports w since now last ip m (t ∷ ts) pos le d (r, rs) (st, e, track, seen) =
      let found = lookup-snapshot_loop ip st m since now w d e in
      let (curr, prev) =
        take_snapshot-Tracks w now t (t ∷ ts) st pos track (omega arith, rs) (omega arith) in
      elim (Bool-cases (ltb st.last_seen since)) [
        | inl old ↦ inl (ground (arith, seen), found ∙ rw old)
        | inr new ↦ inr (
          ground (arith, seen),
          (take_snapshot st now w, found ∙ rw new, unfold take_snapshot in seen, curr, prev),
        )
      ]

  -- With a positive window, Snapshot reports exactly the addresses that were seen at `since` or later, and for each the
  -- number of requests that it sent in the window of `now` and in the one before, however long ago
  -- its counters were last written. The requests' times do not go back, and `now` is no earlier.
  pub snapshot-store_of :
      (window_size idle_ttl last since now : ℕ) (rs : List (Request Addr)) (ip : Addr)
      → 0 < window_size
      → IsOrdered last rs
      → last ≤ now
      → Reports window_size since now
          (arrivals same ip rs)
          (lookup same ip (snapshot (store_of same window_size idle_ttl rs) since now))
  unfolding snapshot
  snapshot-store_of w ttl last since now rs ip pos o le = rw (window_size-store_of same w ttl rs) (
      snapshot_loop-Reports w since now last ip _ (arrivals same ip rs) pos le
        (store_of-Distinct same w ttl rs) (arrivals-IsRecent same last ip rs o)
        (store_of-Follows same w ttl last rs ip pos o))

  -- In a store with one state for an address, the cleanup drops the state of an address if its
  -- last request is more than `idle_ttl` old and keeps it as it is otherwise, and the number that
  -- it returns is the number of states that it dropped.
  remove_expired_lem :
      (s : MemoryRateStore Addr) (now : ℕ) (ip : Addr) (st : IpState)
      → Distinct same s.states
      → lookup same ip s.states ≡ some st
      → (lookup same ip (remove_expired s now).0.states
          ≡ (if ltb (st.last_seen + s.idle_ttl) now then none else some st))
        × ((remove_expired s now).1 + length (remove_expired s now).0.states ≡ length s.states)
  unfolding remove_expired
  remove_expired_lem s now ip st d e = (
    lookup-keep_if same (is_live s now) ip st s.states d e ∙ ground arith,
    omega (arith, length-keep_if-not (λ (_, u). is_live s now u) s.states),
  )
