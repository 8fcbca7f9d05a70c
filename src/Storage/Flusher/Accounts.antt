-- ===== src/Storage/Flusher/Accounts.antt =====
-- Every row of every snapshot is counted once: written, failed or held.
use crucible_analytic.Prelude.{
  ℕ, ◌+◌, ◌≡◌, refl, ◌⊎◌, inl, inr, not, List, [], ◌∷◌, Option, none, some, Bytes, All, arith,
  length, length-keep_if-not,
}
use crucible_analytic.ClientIp.Resolver.{Addr}
use crucible_analytic.RateStore.Store.{Snapshot, record_request, snapshot}
use crucible_analytic.Privacy.{IpMode}
use crucible_analytic.Storage.Rows.{Row, RowOptions, build_rows}
use crucible_analytic.Storage.Pause.{set_until, holds}
use crucible_analytic.Storage.Flusher.{
  Writer, Copy, copied, write_rows, Flusher, set_ip_mode, set_known_bot_asns, unpaused, flush_kept,
  flush_once, flush,
}

-- What the collector does with a flusher, its times those at which it is done.
pub data Event : Type 0 where
  requests : Option Addr → Bytes → ℕ → Event
  pauses : ℕ → ℕ → Event
  changes_mode : IpMode → Event
  changes_asns : List ℕ → Event
  flushes : Copy → ℕ → Event

-- COPY reports all of its rows, or fails.
abbrev pub IsCopying : Event → Type 0
IsCopying (flushes copy now) =
    (rows : List Row) → (copy rows ≡ none) ⊎ (copy rows ≡ some (length rows))
IsCopying _ = Unit

abbrev pub counted : Flusher → ℕ
counted f = f.writer.written + f.writer.failed + f.held

length-build_rows :
    (hmac : Bytes → Bytes → Bytes) (snaps : List (Option Addr × Snapshot)) (now : ℕ)
    (opts : RowOptions)
    → length (build_rows hmac snaps now opts) ≡ length snaps
unfolding build_rows
length-build_rows hmac [] now opts = refl
length-build_rows hmac (s ∷ snaps) now opts = omega (arith, length-build_rows hmac snaps now opts)

written-write_rows :
    (copy : Copy) (w : Writer) (rows : List Row)
    → ((copy rows ≡ none) ⊎ (copy rows ≡ some (length rows)))
    → (write_rows copy w rows).written + (write_rows copy w rows).failed
      ≡ w.written + w.failed + length rows
unfolding write_rows copied
written-write_rows copy w [] h = omega arith
written-write_rows copy w (r ∷ rows) (inl e) = rw (e) (omega arith)
written-write_rows copy w (r ∷ rows) (inr e) = rw (e) (omega arith)

module _ (same : Discrete (Option Addr)) (hmac : Bytes → Bytes → Bytes) where
  unfoldable pub happen : Flusher → Event → Flusher
  happen f (requests ip ja4 now) = record f { store = (record_request same f.store ip ja4 now).0 }
  happen f (pauses end now) = record f { pause = set_until end now f.pause }
  happen f (changes_mode mode) = set_ip_mode mode f
  happen f (changes_asns asns) = set_known_bot_asns asns f
  happen f (flushes copy now) = flush hmac copy now f

  unfoldable pub happen_all : Flusher → List Event → Flusher
  happen_all f [] = f
  happen_all f (e ∷ es) = happen_all (happen f e) es

  unfoldable pub taken : Flusher → Event → ℕ
  taken f (flushes copy now) = length (snapshot f.store f.last_flush now)
  taken f (requests ip ja4 now) = 0
  taken f (pauses end now) = 0
  taken f (changes_mode mode) = 0
  taken f (changes_asns asns) = 0

  -- The snapshots that the flushes take.
  unfoldable pub taken_all : Flusher → List Event → ℕ
  taken_all f [] = 0
  taken_all f (e ∷ es) = taken f e + taken_all (happen f e) es

  counted-happen :
      (f : Flusher) (e : Event) → IsCopying e → counted (happen f e) ≡ counted f + taken f e
  unfolding happen taken set_ip_mode set_known_bot_asns flush flush_once flush_kept unpaused
  counted-happen f (requests ip ja4 now) h = omega arith
  counted-happen f (pauses end now) h = omega arith
  counted-happen f (changes_mode mode) h = omega arith
  counted-happen f (changes_asns asns) h = omega arith
  counted-happen f (flushes copy now) h =
      let snaps = snapshot f.store f.last_flush now in
      let kept = unpaused f.pause snaps in
      omega (
        arith,
        length-keep_if-not
            (λ ((_, snap) : Option Addr × Snapshot). not (holds f.pause snap.last_seen)) snaps,
        length-build_rows hmac kept now f.opts,
        written-write_rows copy f.writer (build_rows hmac kept now f.opts)
            (h (build_rows hmac kept now f.opts)),
      )

  -- Where COPY reports all of its rows or fails: after whatever requests, pauses, changes of the mode
  -- and of the networks, and flushes, the rows that were written, that failed and that the pause held
  -- back are together those of all snapshots taken.
  pub counted-happen_all :
      (f : Flusher) (es : List Event)
      → All IsCopying es
      → counted (happen_all f es) ≡ counted f + taken_all f es
  unfolding happen_all taken_all
  counted-happen_all f [] h = omega arith
  counted-happen_all f (e ∷ es) h =
      omega (arith, counted-happen_all (happen f e) es h.1, counted-happen f e h.0)
