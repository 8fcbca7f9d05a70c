-- ===== src/Storage/Rollup/Cycles.antt =====
-- The rollup while rows arrive and go between the statements of its cycles.
use crucible_analytic.Prelude.{
  ℕ, ◌-◌, ◌<◌, ◌≡◌, refl, sym, subst, ap, ◌∙◌, false, not, List, [], ◌∷◌, All, arith, leb, ◌==◌,
  keep_if, Bool-cases, inl, inr,
}
use crucible_analytic.Storage.Buckets.{time_bucket, min_time}
use crucible_analytic.Storage.Rollup.{
  rollup_bucket, rollup_settle, Rollup, RollupReport, start_of, write_buckets, move_mark, is_pruned,
  prune,
}
use crucible_analytic.Storage.Rollup.Steps.{
  Phase, idle, has_planned, has_written, Cycle, Event, arrives, expires, begins, writes, moves,
  prunes, write, move, pruned, happen, happen_all, IsTimely, AreTimely, Keeps, no_rollup,
}
use crucible_analytic.Storage.Rollup.Claim.{IsSummed, time_bucket-IsCut}
use crucible_analytic.Storage.Rollup.Held.{
  IsHeld, Claims-map, arrives-IsHeld, expires-IsSummed, lookup-keep_key, written-IsHeld,
  moved-IsHeld, begin-Stands, start-Claims,
}

module _ (b : ℕ) where
  write-IsHeld :
      (r : Rollup) (phase : Phase)
      → IsHeld b (record { rollup = r; phase = phase })
      → IsHeld b (write r phase)
  unfolding write write_buckets
  write-IsHeld r idle v = v
  write-IsHeld r (has_written report) v = v
  write-IsHeld r (has_planned report) (c, s) =
      let (done, claims) = written-IsHeld b r.raw r.table r.mark report c s in
      (claims, (s.1, λ h. done (omega (arith, h))))

  move-IsHeld :
      (r : Rollup) (phase : Phase)
      → IsHeld b (record { rollup = r; phase = phase })
      → IsHeld b (move r phase)
  unfolding move move_mark
  move-IsHeld r idle v = v
  move-IsHeld r (has_planned report) v = v
  move-IsHeld r (has_written report) (c, s) = (moved-IsHeld b r.raw r.table r.mark report c s, tt)

  pruned-IsHeld :
      (r : Rollup) (phase : Phase) (now keep_days : ℕ)
      → is_pruned now keep_days b ≡ false
      → IsHeld b (record { rollup = r; phase = phase })
      → IsHeld b (record { rollup = pruned r (prune now keep_days r); phase = phase })
  unfolding prune pruned
  pruned-IsHeld r phase now keep_days keep v = elim (Bool-cases (keep_days == 0)) [
    | inl e ↦ rw (e) v
    | inr e ↦ rw (e) (
        Claims-map b r.raw r.raw r.table
          (keep_if (λ (bucket, _). not (is_pruned now keep_days bucket)) r.table) r.mark phase
          (λ right rows.
            lookup-keep_key b (λ k. not (is_pruned now keep_days k)) r.table (ap not keep)
            ∙ right rows)
          v)
  ]

  happen-IsHeld :
      (c : Cycle) (e : Event) → IsTimely c e → Keeps b e → IsHeld b c → IsHeld b (happen c e)
  unfolding happen
  happen-IsHeld c (arrives row) t k v =
      arrives-IsHeld b row c.rollup.raw c.rollup.table c.rollup.mark c.phase t.0 t.1 v
  happen-IsHeld c (expires before) t k v =
      Claims-map b c.rollup.raw (keep_if (λ r. leb before r.time) c.rollup.raw) c.rollup.table
        c.rollup.table c.rollup.mark c.phase
        (expires-IsSummed b before c.rollup.raw c.rollup.table k) v
  happen-IsHeld c (begins now) t k v = (
    v.0,
    begin-Stands b c.rollup.raw c.rollup.table c.rollup.mark
        (time_bucket rollup_bucket (now - rollup_settle)) (start_of c.rollup)
        (time_bucket-IsCut (now - rollup_settle))
        (λ from s.
          start-Claims b c.rollup.raw c.rollup.table c.rollup.mark (min_time c.rollup.raw) from refl
            v.0 (unfold start_of in s)),
  )
  happen-IsHeld c writes t k v = write-IsHeld c.rollup c.phase v
  happen-IsHeld c moves t k v = move-IsHeld c.rollup c.phase v
  happen-IsHeld c (prunes now keep_days) t k v = pruned-IsHeld c.rollup c.phase now keep_days k v

  happen_all-IsHeld :
      (c : Cycle) (es : List Event)
      → AreTimely c es
      → All (Keeps b) es
      → IsHeld b c
      → IsHeld b (happen_all c es)
  unfolding happen_all
  happen_all-IsHeld c [] t k v = v
  happen_all-IsHeld c (e ∷ es) t k v =
      happen_all-IsHeld (happen c e) es t.1 k.1 (happen-IsHeld c e t.0 k.0 v)

  abbrev through_of : Phase → ℕ
  through_of idle = 0
  through_of (has_planned report) = report.through
  through_of (has_written report) = report.through

  writes-IsSummed :
      (r : Rollup) (phase : Phase) (report : RollupReport)
      → IsHeld b (record { rollup = r; phase = phase })
      → phase ≡ has_planned report
      → b < report.through
      → IsSummed (write r phase).rollup.raw (write r phase).rollup.table b
  unfolding write write_buckets
  writes-IsSummed r idle report v e h = cc
  writes-IsSummed r (has_written other) report v e h = cc
  writes-IsSummed r (has_planned other) report v e h =
      (written-IsHeld b r.raw r.table r.mark other v.0 v.1).0
        (subst (λ (p : Phase). b < through_of p) (sym e) h)

-- Rows come and go between any two statements of the refreshes and prunes, at whatever clocks, some
-- of the refreshes left off half-way. A row that comes is no older than an hour before the watermark,
-- no older than where a refresh starts that has not summed yet, and no older than an hour before the
-- end of one that has summed and not moved the watermark. Then as soon as a refresh has written its
-- buckets, each bucket before the end that it reports, of which no prune and no retention has taken
-- anything, has the summary of exactly its rows, if it has rows.
pub writes-happen_all :
    (es : List Event) (report : RollupReport) (b : ℕ)
    → AreTimely no_rollup es
    → All (Keeps b) es
    → (happen_all no_rollup es).phase ≡ has_planned report
    → b < report.through
    → IsSummed
        (happen (happen_all no_rollup es) writes).rollup.raw
        (happen (happen_all no_rollup es) writes).rollup.table
        b
unfolding happen
writes-happen_all es report b t k p h =
    let c = happen_all no_rollup es in
    writes-IsSummed b c.rollup c.phase report (happen_all-IsHeld b no_rollup es t k (tt, tt)) p h
