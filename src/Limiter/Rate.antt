-- ===== src/Limiter/Rate.antt =====
-- internal/limiter/limiter.go: globalRateCounter and rotate. The time 0 is Go's zero time, for
-- which IsZero holds. float64 is exact: a rate is a fraction over the window size, which New sets
-- to a second.
use native.Mathlib.Nat.{le-div_iff_mul-le}
use crucible_analytic.Prelude.{
  ℕ, ◌+◌, ◌*◌, ◌/◌, ◌≡◌, ◌≤◌, ◌<◌, leb, ◌==◌, if◌then◌else◌, arith, refl, List, ◌∷◌, [], All,
}
use crucible_analytic.RateStore.Window.{
  Counts, Rate, truncate, weight_parts, rotated_counts, new_counts, add_arrival,
}
use crucible_analytic.RateStore.History.{IsRecent, Tracks, new_counts-Tracks, arrival-Tracks}

pub record GlobalRateCounter : Type 0 where
  pub window_size : ℕ
  pub counts : Counts
  pub open counts use *

abbrev pub new_global_rate_counter : ℕ → GlobalRateCounter
new_global_rate_counter window_size = record {
  window_size = window_size;
  counts = record { prev_count = 0; curr_count = 0; window_start = 0 };
}

unfoldable pub rotate : Counts → ℕ → ℕ → Counts
rotate c now window_size =
    if leb (c.window_start + 2 * window_size) now
    then record { prev_count = 0; curr_count = 0; window_start = truncate now window_size }
    else if leb (c.window_start + window_size) now
    then record {
      prev_count = c.curr_count;
      curr_count = 0;
      window_start = c.window_start + window_size;
    }
    else c

-- `if c.windowStart.IsZero() { c.windowStart = now.Truncate(c.windowSize) }`.
unfoldable pub with_start : Counts → ℕ → ℕ → Counts
with_start c now window_size =
    if c.window_start == 0 then record c { window_start = truncate now window_size } else c

unfoldable pub record_arrival : GlobalRateCounter → ℕ → GlobalRateCounter
record_arrival c now =
    let r = rotate (with_start c.counts now c.window_size) now c.window_size in
    record c { counts = record r { curr_count = r.curr_count + 1 } }

unfoldable pub rate : GlobalRateCounter → ℕ → Rate
rate c now =
    let r = rotate c.counts now c.window_size in
    if c.window_start == 0 then record { num = 0; den = c.window_size } else record {
      num =
          r.prev_count * weight_parts r.window_start now c.window_size
          + r.curr_count * c.window_size;
      den = c.window_size;
    }

-- The two copies of the rotation in the source say the same.
rotate-rotated_counts : (c : Counts) (now w : ℕ) → rotate c now w ≡ rotated_counts c now w
unfolding rotate rotated_counts
rotate-rotated_counts c now w = refl

-- An arrival is that of ratestore, on the counts whose window has a start.
record_arrival-add_arrival :
    (c : GlobalRateCounter) (now : ℕ)
    → (record_arrival c now).counts
      ≡ add_arrival (with_start c.counts now c.window_size) now c.window_size
unfolding record_arrival add_arrival rotate rotated_counts
record_arrival-add_arrival c now = refl

-- The counter after the arrivals, listed newest first.
unfoldable pub counter_of : ℕ → List ℕ → GlobalRateCounter
counter_of w [] = new_global_rate_counter w
counter_of w (t ∷ ts) = record_arrival (counter_of w ts) t

window_size-counter_of : (w : ℕ) (ts : List ℕ) → (counter_of w ts).window_size ≡ w
unfolding counter_of record_arrival
window_size-counter_of w [] = refl
window_size-counter_of w (t ∷ ts) = window_size-counter_of w ts

start_pos : (w u : ℕ) → 0 < w → w ≤ u → 0 < w * (u / w)
start_pos w u pos h =
    let one : 1 ≤ u / w = (le-div_iff_mul-le {k = w} {x = 1} {y = u} pos).1 (omega arith) in
    grind arith

-- With a positive window, after any arrivals whose times do not go back and lie behind the first window that follows Go's
-- zero time, the global counter holds the number of arrivals in the last one's window and in the
-- window before it.
counter_of-Tracks :
    (w t : ℕ) (ts : List ℕ)
    → 0 < w
    → IsRecent t ts
    → All (λ u. w ≤ u) (t ∷ ts)
    → Tracks w t (t ∷ ts) (counter_of w (t ∷ ts)).counts
unfolding counter_of with_start new_counts
counter_of-Tracks w t [] pos r late =
    rw (record_arrival-add_arrival (new_global_rate_counter w) t) (new_counts-Tracks w pos t)
counter_of-Tracks w t (u ∷ ts) pos (le, r) (_, late) =
    let c = counter_of w (u ∷ ts) in
    let track = counter_of-Tracks w u ts pos r late in
    let started : 0 < c.counts.window_start = rw track.start (start_pos w u pos (late.0)) in
    let kept : with_start c.counts t w ≡ c.counts = ground arith in
    rw (record_arrival-add_arrival c t, window_size-counter_of w (u ∷ ts), kept)
      (arrival-Tracks w pos c.counts u t (u ∷ ts) track (omega arith, r) le)

-- When two windows have gone by since the counter's window began, the counter reads 0.
pub rate_idle :
    (c : GlobalRateCounter) (now : ℕ)
    → c.window_start + 2 * c.window_size ≤ now
    → (rate c now).num ≡ 0
unfolding rate rotate
rate_idle c now h = ground arith
