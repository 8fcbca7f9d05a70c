-- ===== src/Storage/Rollup.antt =====
-- internal/storage/rollup.go, for one site: Refresh with its two statements, and Prune. The tables are
-- those of schema.sql, the watermark is the site's row of traffic_rollup_state. An empty site id and
-- the database's errors are left out.
pub mod Claim
pub mod Steps
pub mod Held
pub mod Cycles
pub mod CatchUp
mod Examples
use crucible_analytic.Prelude.{
  ℕ, ◌+◌, ◌-◌, ◌*◌, Bool, not, List, [], ◌∷◌, Option, none, some, length, leb, ltb, ◌==◌,
  if◌then◌else◌, keep_if, count_if,
}
use crucible_analytic.RateStore.Window.{second}
use crucible_analytic.Storage.Buckets.{Traffic, time_bucket, min_time, upsert}

abbrev pub rollup_bucket : ℕ
rollup_bucket = 15 * 60 * second

abbrev pub rollup_settle : ℕ
rollup_settle = 60 * 60 * second

abbrev pub rollup_recheck : ℕ
rollup_recheck = 60 * 60 * second

abbrev pub rollup_max_span : ℕ
rollup_max_span = 30 * 24 * 60 * 60 * second

abbrev pub day : ℕ
day = 24 * 60 * 60 * second

-- A row of traffic_rollup.
pub record Summary : Type 0 where
  pub snapshots : ℕ
  pub sum_rate : ℕ
  pub max_rate : ℕ
  pub max_window : ℕ

unfoldable pub sum_of : (Traffic → ℕ) → List Traffic → ℕ
sum_of f [] = 0
sum_of f (r ∷ rows) = f r + sum_of f rows

unfoldable pub max_of : (Traffic → ℕ) → List Traffic → ℕ
max_of f [] = 0
max_of f (r ∷ rows) = let m = max_of f rows in if ltb m (f r) then f r else m

-- The requests in the windows of one flush.
unfoldable pub window_requests : List Traffic → ℕ → ℕ
window_requests rows t =
    sum_of (λ r. r.prev_window_count + r.curr_window_count) (keep_if (λ r. r.time == t) rows)

unfoldable pub summarize : List Traffic → Summary
summarize rows = record {
  snapshots = length rows;
  sum_rate = sum_of (λ r. r.request_rate) rows;
  max_rate = max_of (λ r. r.request_rate) rows;
  max_window = max_of (λ r. window_requests rows r.time) rows;
}

pub record Rollup : Type 0 where
  pub raw : List Traffic
  pub table : List (ℕ × Summary)
  pub mark : Option ℕ

pub data Skipped : Type 0 where
  not_skipped no_rows already_materialized : Skipped

-- The zero time is 0.
pub record RollupReport : Type 0 where
  pub from : ℕ
  pub through : ℕ
  pub caught_up_to : ℕ
  pub skipped : Skipped

-- COALESCE of the watermark, pulled back, and of the oldest row's bucket.
unfoldable pub start_from : Option ℕ → Option ℕ → Option ℕ
start_from (some m) first = some (m - rollup_recheck)
start_from none (some t) = some (time_bucket rollup_bucket t)
start_from none none = none

unfoldable pub start_of : Rollup → Option ℕ
start_of r = start_from r.mark (min_time r.raw)

-- The watermark goes forward only.
unfoldable pub moved_mark : Option ℕ → ℕ → Option ℕ
moved_mark none horizon = some horizon
moved_mark (some m) horizon = if ltb m horizon then some horizon else some m

-- The two statements that write.
unfoldable pub write_buckets : ℕ → ℕ → Rollup → Rollup
write_buckets from through r = record r {
  table = upsert summarize rollup_bucket from through r.raw r.table;
}

unfoldable pub move_mark : ℕ → Rollup → Rollup
move_mark through r = record r { mark = moved_mark r.mark through }

-- What a refresh decides from the horizon and the start that it reads.
unfoldable pub planned : ℕ → Option ℕ → RollupReport
planned horizon none = record { from = 0; through = 0; caught_up_to = 0; skipped = no_rows }
planned horizon (some from) =
    if leb horizon from
    then record { from = from; through = from; caught_up_to = 0; skipped = already_materialized }
    else let capped = from + rollup_max_span in
      if ltb capped horizon
      then record { from = from; through = capped; caught_up_to = capped; skipped = not_skipped }
      else record { from = from; through = horizon; caught_up_to = 0; skipped = not_skipped }

abbrev pub plan_at : ℕ → Rollup → RollupReport
plan_at now r = planned (time_bucket rollup_bucket (now - rollup_settle)) (start_of r)

unfoldable pub carry_out : Skipped → RollupReport → Rollup → Rollup
carry_out not_skipped report r =
    move_mark report.through (write_buckets report.from report.through r)
carry_out no_rows report r = r
carry_out already_materialized report r = r

-- Refresh with nothing between its statements.
unfoldable pub refresh : ℕ → Rollup → Rollup × RollupReport
refresh now r = let report = plan_at now r in (carry_out report.skipped report r, report)

-- make_interval counts days of 24 hours where the session's zone is UTC.
unfoldable pub is_pruned : ℕ → ℕ → ℕ → Bool
is_pruned now keep_days bucket = ltb bucket (time_bucket rollup_bucket (now - keep_days * day))

-- `none` is the refusal of a number of days that is no retention.
unfoldable pub prune : ℕ → ℕ → Rollup → Option (Rollup × ℕ)
prune now keep_days r =
    if keep_days == 0
    then none
    else some (
      record r { table = keep_if (λ (bucket, _). not (is_pruned now keep_days bucket)) r.table },
      count_if (λ (bucket, _). is_pruned now keep_days bucket) r.table,
    )
