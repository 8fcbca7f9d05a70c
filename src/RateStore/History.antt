-- ===== src/RateStore/History.antt =====
-- The two counters against the whole history of arrivals that they stand for.
use native.Mathlib.Nat.{le-div_iff_mul-le, div-add-mod, div-mul-le_self}
use crucible_analytic.Prelude.{
  ℕ, ◌+◌, ◌-◌, ◌*◌, ◌/◌, ◌≤◌, ◌<◌, ◌≡◌, List, [], ◌∷◌, count_if, leb, ◌==◌, arith, refl,
}
use crucible_analytic.RateStore.Window.{Counts, truncate, rotated_counts, add_arrival, new_counts}

-- Arrivals are listed newest first; no clock goes back.
abbrev pub IsRecent : ℕ → List ℕ → Type 0
IsRecent now [] = Unit
IsRecent now (t ∷ ts) = (t ≤ now) × IsRecent t ts

-- The arrivals in the window number `q`, and those in the window before it.
abbrev pub in_window : ℕ → ℕ → List ℕ → ℕ
in_window w q = count_if (λ t. t / w == q)

abbrev pub in_previous : ℕ → ℕ → List ℕ → ℕ
in_previous w q = count_if (λ t. t / w + 1 == q)

-- The counters hold the arrivals of the window of the time `now` and of the one before it.
pub record Tracks (w now : ℕ) (ts : List ℕ) (c : Counts) : Type 0 where
  pub start : c.window_start ≡ w * (now / w)
  pub curr : c.curr_count ≡ in_window w (now / w) ts
  pub prev : c.prev_count ≡ in_previous w (now / w) ts

module _ (w : ℕ) (pos : 0 < w) where
  truncate_lem : (t : ℕ) → truncate t w ≡ w * (t / w)
  unfolding truncate
  truncate_lem t = ground (arith, div-add-mod t w)

  -- A window boundary in terms of window numbers.
  boundary : (q t : ℕ) → leb (w * q) t ≡ leb q (t / w)
  boundary q t = grind (arith, le-div_iff_mul-le {k = w} {x = q} {y = t} pos)

  window_mono : (t now : ℕ) → t ≤ now → t / w ≤ now / w
  window_mono t now h = (le-div_iff_mul-le pos).1 (omega (arith, div-mul-le_self t w))

  none_later : (q now : ℕ) (ts : List ℕ) → IsRecent now ts → now / w < q → in_window w q ts ≡ 0
  none_later q now [] r h = refl
  none_later q now (t ∷ ts) r h = ground (arith, none_later q t ts r.1, window_mono t now r.0)

  in_previous_lem : (q : ℕ) (ts : List ℕ) → in_previous w (q + 1) ts ≡ in_window w q ts
  in_previous_lem q [] = refl
  in_previous_lem q (t ∷ ts) = ground (arith, in_previous_lem q ts)

  pub new_counts-Tracks : (t : ℕ) → Tracks w t (t ∷ []) (add_arrival (new_counts t w) t w)
  unfolding add_arrival new_counts rotated_counts
  new_counts-Tracks t =
      ground (arith, truncate_lem t, boundary (t / w + 2) t, boundary (t / w + 1) t)

  -- An address that has sent nothing for two windows starts again as one that has sent nothing.
  pub idle-Tracks :
      (last now : ℕ) (ts : List ℕ)
      → IsRecent last ts
      → last + 2 * w ≤ now
      → Tracks w now (now ∷ ts) (add_arrival (new_counts now w) now w)
  idle-Tracks last now ts recent idle =
      let fresh = new_counts-Tracks now in
      let two : w * (last / w + 2) ≡ w * (last / w) + 2 * w = grind arith in
      let far : last / w + 2 ≤ now / w =
        ground (arith, idle, two, boundary (last / w + 2) now, div-mul-le_self last w) in
      ground (
        arith,
        fresh.start,
        fresh.curr,
        fresh.prev,
        none_later (now / w) last ts recent,
        none_later (now / w - 1) last ts recent,
        in_previous_lem (now / w - 1) ts,
        far,
      )

  -- What one more arrival does, by the number of windows since the last one.
  module _ (c : Counts) (last now : ℕ) (ts : List ℕ) (track : Tracks w last ts c)
      (recent : IsRecent last ts) (order : last ≤ now) where
    pub rotated-Tracks : Tracks w now ts (rotated_counts c now w)
    unfolding rotated_counts
    rotated-Tracks =
        let q = last / w in
        let two : w * (q + 2) ≡ w * q + 2 * w = grind arith in
        let one : w * (q + 1) ≡ w * q + w = grind arith in
        ground (
          arith,
          two,
          one,
          truncate_lem now,
          boundary (q + 2) now,
          boundary (q + 1) now,
          window_mono last now order,
          none_later (now / w) last ts recent,
          none_later (now / w - 1) last ts recent,
          in_previous_lem (now / w - 1) ts,
          in_previous_lem q ts,
        )

    pub arrival-Tracks : Tracks w now (now ∷ ts) (add_arrival c now w)
    unfolding add_arrival
    arrival-Tracks = let r = rotated-Tracks in ground (arith, r.start, r.curr, r.prev)
