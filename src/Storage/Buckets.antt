-- ===== src/Storage/Buckets.antt =====
-- The upsert that rollup.go and sketch.go make of the raw rows: one summary for each bucket of time
-- that has rows in a range. time_bucket cuts at the multiples of a width, which for quarters of an
-- hour and days is the same from the year 2000 as from Go's zero time.
pub mod Right
use crucible_analytic.Prelude.{
  ℕ, ◌*◌, ◌/◌, Bool, not, ◌&&◌, List, [], ◌∷◌, Option, none, some, leb, ltb, ◌==◌, keep_if, min,
  ℕ_discrete,
}
use crucible_analytic.Prelude.Maps.{insert}
use crucible_analytic.ClientIp.Resolver.{Addr}

-- A row of traffic_snapshots, as far as the summaries read it. A request_rate stands in units in which
-- the rates are whole, since the sums of float64 are taken to be exact.
pub record Traffic : Type 0 where
  pub time : ℕ
  pub ip : Addr
  pub prev_window_count : ℕ
  pub curr_window_count : ℕ
  pub request_rate : ℕ
  pub bot_score : ℕ

unfoldable pub time_bucket : ℕ → ℕ → ℕ
time_bucket width t = t / width * width

abbrev pub is_between : ℕ → ℕ → Traffic → Bool
is_between from to r = leb from r.time && ltb r.time to

abbrev pub falls_in : ℕ → ℕ → Traffic → Bool
falls_in width bucket r = time_bucket width r.time == bucket

-- `time_bucket($, min(time))`.
unfoldable pub min_time : List Traffic → Option ℕ
min_time [] = none
min_time (r ∷ raw) = elim (min_time raw) [ none ↦ some r.time | some t ↦ some (min r.time t) ]

module _ {S : Type 0} (summary : List Traffic → S) (width : ℕ) where
  -- A bucket's summary is written once for each of its rows, which is as good as once.
  unfoldable pub upsert_loop : List Traffic → List Traffic → List (ℕ × S) → List (ℕ × S)
  upsert_loop rows [] table = table
  upsert_loop rows (r ∷ todo) table =
      insert ℕ_discrete (time_bucket width r.time)
        (summary (keep_if (falls_in width (time_bucket width r.time)) rows))
        (upsert_loop rows todo table)

  unfoldable pub upsert : ℕ → ℕ → List Traffic → List (ℕ × S) → List (ℕ × S)
  upsert from to raw table =
      let rows = keep_if (is_between from to) raw in upsert_loop rows rows table
