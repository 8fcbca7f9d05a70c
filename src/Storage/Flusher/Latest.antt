-- ===== src/Storage/Flusher/Latest.antt =====
-- Which addresses a flush writes, from the whole history of requests.
use crucible_analytic.Prelude.{
  ℕ, ◌+◌, ◌*◌, ◌≤◌, ◌<◌, ap, inl, inr, not, List, [], ◌∷◌, arith, if◌then◌else◌, Bool-cases,
}
use crucible_analytic.Prelude.Maps.{lookup, Distinct, lookup-keep_if, lookup-keep_none}
use crucible_analytic.RateStore.Store.{IpState, Snapshot, snapshot, snapshot_loop}
use crucible_analytic.RateStore.Requests.{Reports, arrivals, lookup-snapshot_none}
use crucible_analytic.RateStore.Sweeps.{
  Use, requests_of, AreOrdered, store_after, store_after-Distinct, snapshot-store_after,
}
use crucible_analytic.Storage.Pause.{Pause, holds}
use crucible_analytic.Storage.Flusher.{unpaused}

-- The arrivals, newest first, unless the newest belongs to the pause.
unfoldable pub unheld : Pause → List ℕ → List ℕ
unheld p [] = []
unheld p (t ∷ ts) = if holds p t then [] else t ∷ ts

module _ {Addr : Type 0} (same : Discrete Addr) where
  snapshot_loop-Distinct :
      (m : List (Addr × IpState)) (since now w : ℕ)
      → Distinct same m
      → Distinct same (snapshot_loop m since now w)
  unfolding snapshot_loop
  snapshot_loop-Distinct [] since now w d = tt
  snapshot_loop-Distinct ((ip, st) ∷ m) since now w d = ground (
    arith,
    snapshot_loop-Distinct m since now w d.1,
    lookup-snapshot_none same ip m since now w d.0,
  )

  unpaused-Reports :
      (p : Pause) (w since now : ℕ) (ip : Addr) (snaps : List (Addr × Snapshot)) (ts : List ℕ)
      → Distinct same snaps
      → Reports w since now ts (lookup same ip snaps)
      → Reports w since now (unheld p ts) (lookup same ip (unpaused p snaps))
  unfolding unheld unpaused
  unpaused-Reports p w since now ip snaps [] d r =
      lookup-keep_none same (λ (u : Snapshot). not (holds p u.last_seen)) ip snaps r
  unpaused-Reports p w since now ip snaps (t ∷ ts) d (inl (old, r)) =
      let gone = lookup-keep_none same (λ (u : Snapshot). not (holds p u.last_seen)) ip snaps r in
      elim (Bool-cases (holds p t)) [
        | inl held ↦ rw (held) gone
        | inr free ↦ rw (free) (inl (old, gone))
      ]
  unpaused-Reports p w since now ip snaps (t ∷ ts) d (inr (new, (sn, e, seen, curr, prev))) =
      let kept =
        lookup-keep_if same (λ (u : Snapshot). not (holds p u.last_seen)) ip sn snaps d e in
      let same_time = ap (holds p) seen in
      elim (Bool-cases (holds p t)) [
        | inl held ↦ rw (held) (ground (arith, kept, same_time, held))
        | inr free ↦
            rw (free) (inr (new, (sn, ground (arith, kept, same_time, free), seen, curr, prev)))
      ]

  -- With a positive window, a time to live of the store's states that is no shorter than two windows
  -- nor than the time since the last flush, and requests and sweeps of the store whose times do not
  -- go back: a flush has a row for exactly the addresses whose latest request came at the last
  -- flush or later and does not belong to the pause; its counters are the address's requests in
  -- the window of the flush and in the one before.
  pub unpaused-store_after :
      (p : Pause) (window_size idle_ttl last since now : ℕ) (us : List (Use Addr)) (ip : Addr)
      → 0 < window_size
      → 2 * window_size ≤ idle_ttl
      → now ≤ since + idle_ttl
      → AreOrdered last us
      → last ≤ now
      → Reports window_size since now (unheld p (arrivals same ip (requests_of us))) (
          lookup same ip
            (unpaused p (snapshot (store_after same window_size idle_ttl us) since now)))
  unpaused-store_after p w ttl last since now us ip pos long reach o le =
      unpaused-Reports p w since now ip (snapshot (store_after same w ttl us) since now)
        (arrivals same ip (requests_of us))
        (unfold snapshot in
          snapshot_loop-Distinct (store_after same w ttl us).states since now
            (store_after same w ttl us).window_size (store_after-Distinct same w ttl us))
        (snapshot-store_after same w ttl last since now us ip pos long o le reach)
