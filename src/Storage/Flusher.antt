-- ===== src/Storage/Flusher.antt =====
-- internal/storage/flusher.go, with Writer.WriteRows and Counters of writer.go: the loop that snapshots
-- the rate store and writes its rows. A nil Pause is one that never holds. COPY is a parameter of each
-- flush: the number of rows that it reports, or `none` for an error. The log lines are left out.
pub mod Latest
pub mod Accounts
use crucible_analytic.Prelude.{
  ℕ, ◌+◌, ◌-◌, not, List, [], ◌∷◌, Option, none, some, Bytes, length, keep_if,
}
use crucible_analytic.ClientIp.Resolver.{Addr}
use crucible_analytic.RateStore.Store.{MemoryRateStore, Snapshot, record_request, snapshot}
use crucible_analytic.Privacy.{IpMode}
use crucible_analytic.Storage.Rows.{Row, RowOptions, build_rows}
use crucible_analytic.Storage.Pause.{Pause, set_until, holds}

pub record Writer : Type 0 where
  pub written : ℕ
  pub failed : ℕ

abbrev pub Copy : Type 0
Copy = List Row → Option ℕ

unfoldable pub copied : Writer → ℕ → Option ℕ → Writer
copied w len none = record w { failed = w.failed + len }
copied w len (some n) = record w { written = w.written + n }

unfoldable pub write_rows : Copy → Writer → List Row → Writer
write_rows copy w [] = w
write_rows copy w (r ∷ rows) = copied w (length (r ∷ rows)) (copy (r ∷ rows))

-- The options of its rows stand for the Flusher's fields, and the two that SetIPMode and
-- SetKnownBotASNs publish are those in force.
pub record Flusher : Type 0 where
  pub store : MemoryRateStore (Option Addr)
  pub opts : RowOptions
  pub pause : Pause
  pub held : ℕ
  pub writer : Writer
  pub last_flush : ℕ

unfoldable pub set_ip_mode : IpMode → Flusher → Flusher
set_ip_mode mode f = record f { opts = record f.opts { ip_mode = mode } }

unfoldable pub set_known_bot_asns : List ℕ → Flusher → Flusher
set_known_bot_asns asns f = record f { opts = record f.opts { known_bot_asns = asns } }

unfoldable pub unpaused : {A : Type 0} → Pause → List (A × Snapshot) → List (A × Snapshot)
unpaused p snapshots = keep_if (λ (_, snap). not (holds p snap.last_seen)) snapshots

module _ (hmac : Bytes → Bytes → Bytes) where
  unfoldable pub flush_kept :
      Copy → ℕ → Flusher → List (Option Addr × Snapshot) → List (Option Addr × Snapshot) → Flusher
  flush_kept copy now f snapshots kept = record f {
    held = f.held + (length snapshots - length kept);
    writer = write_rows copy f.writer (build_rows hmac kept now f.opts);
  }

  unfoldable pub flush_once : Copy → ℕ → ℕ → Flusher → Flusher
  flush_once copy since now f =
      let snapshots = snapshot f.store since now in
      flush_kept copy now f snapshots (unpaused f.pause snapshots)

  -- A tick of Run, or its end.
  unfoldable pub flush : Copy → ℕ → Flusher → Flusher
  flush copy now f = record (flush_once copy f.last_flush now f) { last_flush = now }
