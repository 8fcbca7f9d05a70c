-- ===== src/RateStore/Store.antt =====
-- internal/ratestore/memory.go: the store of one state per address. Go's map is an association
-- list; its random order of iteration is the list's. The lock makes each method one step; the
-- cleanup goroutine is a call of `remove_expired` by its ticker.
use crucible_analytic.Prelude.{
  ℕ, ◌-◌, List, [], ◌∷◌, Option, none, some, Bytes, ltb, not, if◌then◌else◌, keep_if, count_if,
  Bool,
}
use crucible_analytic.Prelude.Maps.{lookup, insert}
use crucible_analytic.RateStore.Window.{
  Counts, WindowStats, rotated_counts, window_stats_at, add_arrival, new_counts,
}

pub record IpState : Type 0 where
  pub ja4 : Bytes
  pub counts : Counts
  pub open counts use *
  pub last_seen : ℕ

pub record Snapshot : Type 0 where
  pub ja4 : Bytes
  pub stats : WindowStats
  pub last_seen : ℕ

pub record MemoryRateStore (Addr : Type 0) : Type 0 where
  pub window_size : ℕ
  pub idle_ttl : ℕ
  pub states : List (Addr × IpState)

abbrev pub new_memory_rate_store : {Addr : Type 0} → ℕ → ℕ → MemoryRateStore Addr
new_memory_rate_store window_size idle_ttl = record {
  window_size = window_size;
  idle_ttl = idle_ttl;
  states = [];
}

-- The state that a request updates: a new one if the address is not there.
unfoldable pub state_or_new : Option IpState → ℕ → ℕ → IpState
state_or_new none now window_size = record {
  ja4 = [];
  counts = new_counts now window_size;
  last_seen = 0;
}
state_or_new (some st) now window_size = st

-- `if ja4 != ""`.
unfoldable pub with_ja4 : IpState → Bytes → IpState
with_ja4 st [] = st
with_ja4 st (c ∷ ja4) = record st { ja4 = c ∷ ja4 }

unfoldable pub touched : IpState → Bytes → ℕ → ℕ → IpState
touched st ja4 now window_size =
    let st' = with_ja4 st ja4 in
    record st' { counts = add_arrival st'.counts now window_size; last_seen = now }

unfoldable pub take_snapshot : IpState → ℕ → ℕ → Snapshot
take_snapshot st now window_size = record {
  ja4 = st.ja4;
  stats = window_stats_at (rotated_counts st.counts now window_size) now window_size;
  last_seen = st.last_seen;
}

-- The address type is a parameter, with Go's `==` on the keys of a map.
module _ {Addr : Type 0} (same : Discrete Addr) where
  unfoldable pub record_request :
      MemoryRateStore Addr → Addr → Bytes → ℕ → MemoryRateStore Addr × WindowStats
  record_request s ip ja4 now =
      let st =
        touched (state_or_new (lookup same ip s.states) now s.window_size) ja4 now s.window_size in
      (
        record s { states = insert same ip st s.states },
        window_stats_at st.counts now s.window_size,
      )

module _ {Addr : Type 0} where
  unfoldable pub snapshot_loop : List (Addr × IpState) → ℕ → ℕ → ℕ → List (Addr × Snapshot)
  snapshot_loop [] since now window_size = []
  snapshot_loop ((ip, st) ∷ m) since now window_size =
      let out = snapshot_loop m since now window_size in
      if ltb st.last_seen since then out else (ip, take_snapshot st now window_size) ∷ out

  unfoldable pub snapshot : MemoryRateStore Addr → ℕ → ℕ → List (Addr × Snapshot)
  snapshot s since now = snapshot_loop s.states since now s.window_size

  -- `st.lastSeen.Before(cutoff)` fails.
  abbrev pub is_live : MemoryRateStore Addr → ℕ → IpState → Bool
  is_live s now st = not (ltb st.last_seen (now - s.idle_ttl))

  unfoldable pub remove_expired : MemoryRateStore Addr → ℕ → MemoryRateStore Addr × ℕ
  remove_expired s now = (
    record s { states = keep_if (λ (_, st). is_live s now st) s.states },
    count_if (λ (_, st). not (is_live s now st)) s.states,
  )
