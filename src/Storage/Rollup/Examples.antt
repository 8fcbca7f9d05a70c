-- ===== src/Storage/Rollup/Examples.antt =====
-- The rollup on concrete input.
use crucible_analytic.Prelude.{
  ℕ, ◌+◌, ◌-◌, ◌*◌, ◌≡◌, refl, arith, List, [], ◌∷◌, none, some, ℕ_discrete,
}
use crucible_analytic.Prelude.Maps.{lookup, insert}
use crucible_analytic.ClientIp.Resolver.{v4}
use crucible_analytic.Storage.Buckets.{Traffic, time_bucket, min_time, upsert, upsert_loop}
use crucible_analytic.Storage.Rollup.{
  rollup_bucket, rollup_max_span, rollup_settle, Rollup, not_skipped, RollupReport, summarize,
  sum_of, max_of, window_requests, start_from, start_of, moved_mark, write_buckets, move_mark,
  planned, is_pruned, prune, refresh,
}
use crucible_analytic.Storage.Rollup.Claim.{IsSummed, IsDone}
use crucible_analytic.Storage.Rollup.Steps.{
  Event, arrives, expires, begins, writes, moves, prunes, begin, write, move, pruned, happen,
  happen_all, AreTimely, no_rollup,
}
use crucible_analytic.Storage.Rollup.Cycles.{writes-happen_all}
use crucible_analytic.Storage.Rollup.CatchUp.{refreshes, refresh-refreshes}

abbrev traffic : ℕ → Traffic
traffic at = record {
  time = at;
  ip = v4 1;
  prev_window_count = 0;
  curr_window_count = 3;
  request_rate = 2;
  bot_score = 0;
}

-- Two rows of one quarter of an hour, a refresh five hours on with a row between its statements, and
-- the beginning of the next.
abbrev history : List Event
history =
    arrives (traffic rollup_bucket)
    ∷ arrives (traffic (rollup_bucket + 7))
    ∷ begins (20 * rollup_bucket)
    ∷ writes
    ∷ arrives (traffic (13 * rollup_bucket))
    ∷ moves
    ∷ prunes (21 * rollup_bucket) 1
    ∷ expires 5
    ∷ begins (24 * rollup_bucket)
    ∷ []

rolled_up :
    lookup ℕ_discrete rollup_bucket (happen_all no_rollup history).rollup.table
    ≡ some (record { snapshots = 2; sum_rate = 4; max_rate = 2; max_window = 3 })
unfolding happen_all happen begin write move planned write_buckets move_mark start_of start_from
    min_time time_bucket moved_mark upsert upsert_loop summarize sum_of max_of window_requests
    lookup insert ℕ_discrete prune is_pruned pruned
rolled_up = refl

history-AreTimely : AreTimely no_rollup history
unfolding happen begin write move planned write_buckets move_mark start_of start_from min_time
    time_bucket moved_mark prune is_pruned pruned
history-AreTimely =
    ((tt, tt), ((tt, tt), (tt, (tt, ((tt, omega arith), (tt, (tt, (tt, (tt, tt)))))))))

abbrev second : RollupReport
second = record {
  from = 12 * rollup_bucket;
  through = 20 * rollup_bucket;
  caught_up_to = 0;
  skipped = not_skipped;
}

writes-happen_all_example :
    IsSummed
      (happen (happen_all no_rollup history) writes).rollup.raw
      (happen (happen_all no_rollup history) writes).rollup.table
      (13 * rollup_bucket)
unfolding is_pruned prune happen_all happen begin write move planned write_buckets move_mark
    start_of start_from min_time time_bucket moved_mark pruned
writes-happen_all_example =
    writes-happen_all history second (13 * rollup_bucket) history-AreTimely
      (tt, (tt, (tt, (tt, (tt, (tt, (refl, (omega arith, (tt, tt))))))))) refl (omega arith)

abbrev old_rows : Rollup
old_rows = record { raw = traffic 0 ∷ []; table = []; mark = none }

abbrev clocks : List ℕ
clocks = 3 * rollup_max_span ∷ 3 * rollup_max_span ∷ (3 * rollup_max_span + 9) ∷ []

refresh-refreshes_example :
    IsDone
      (refresh (4 * rollup_max_span) (refreshes clocks old_rows)).0
      (time_bucket rollup_bucket (3 * rollup_max_span - rollup_settle))
unfolding start_of start_from min_time time_bucket
refresh-refreshes_example =
    refresh-refreshes clocks (3 * rollup_max_span) (4 * rollup_max_span) 0 old_rows tt
      (omega arith, (omega arith, (omega arith, tt))) (omega arith) refl (omega arith)
