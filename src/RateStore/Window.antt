-- ===== src/RateStore/Window.antt =====
-- internal/ratestore/memory.go: rotatedCounts and windowStatsAt. Times and durations are counted in
-- nanoseconds, times from Go's zero time, so that Truncate cuts at the multiples of a duration.
-- float64 is exact: a rate is a fraction.
use crucible_analytic.Prelude.{ℕ, ◌+◌, ◌-◌, ◌*◌, ◌%◌, ◌^◌, ltb, leb, if◌then◌else◌}

-- `t.Truncate(d)`: the time itself if the duration is not positive.
unfoldable pub truncate : ℕ → ℕ → ℕ
truncate t d = if ltb 0 d then t - t % d else t

pub record Counts : Type 0 where
  pub prev_count : ℕ
  pub curr_count : ℕ
  pub window_start : ℕ

-- `elapsed >= d` is an order of times, since a Go duration may be negative.
unfoldable pub rotated_counts : Counts → ℕ → ℕ → Counts
rotated_counts c now window_size =
    if leb (c.window_start + 2 * window_size) now
    then record { prev_count = 0; curr_count = 0; window_start = truncate now window_size }
    else if leb (c.window_start + window_size) now
    then record {
      prev_count = c.curr_count;
      curr_count = 0;
      window_start = c.window_start + window_size;
    }
    else c

-- A fraction. Its denominator is positive wherever the code computes it.
pub record Rate : Type 0 where
  pub num : ℕ
  pub den : ℕ

pub record WindowStats : Type 0 where
  pub prev_window_count : ℕ
  pub curr_window_count : ℕ
  pub estimated_rate : Rate

-- `weight`, in parts of the window: 1 if `now` lies before the window, 0 if it lies behind.
unfoldable pub weight_parts : ℕ → ℕ → ℕ → ℕ
weight_parts window_start now window_size =
    if ltb now window_start
    then window_size
    else if ltb window_size (now - window_start)
    then 0
    else window_size - (now - window_start)

abbrev pub second : ℕ
second = 10 ^ 9

-- `(prev*weight + curr) / windowSize.Seconds()`.
unfoldable pub estimate : Counts → ℕ → ℕ → Rate
estimate c now window_size =
    if ltb 0 window_size
    then record {
      num =
          (c.prev_count * weight_parts c.window_start now window_size + c.curr_count * window_size)
          * second;
      den = window_size * window_size;
    }
    else record { num = 0; den = 1 }

unfoldable pub window_stats_at : Counts → ℕ → ℕ → WindowStats
window_stats_at c now window_size = record {
  prev_window_count = c.prev_count;
  curr_window_count = c.curr_count;
  estimated_rate = estimate c now window_size;
}

-- RecordRequest's treatment of the counts.
unfoldable pub add_arrival : Counts → ℕ → ℕ → Counts
add_arrival c now window_size =
    let r = rotated_counts c now window_size in record r { curr_count = r.curr_count + 1 }

-- The counts that a first request finds.
unfoldable pub new_counts : ℕ → ℕ → Counts
new_counts now window_size = record {
  prev_count = 0;
  curr_count = 0;
  window_start = truncate now window_size;
}
