-- ===== src/Storage/Pause.antt =====
-- internal/storage/flusher.go: the recording pause of one site. A section under its mutex is one step.
pub mod Span
use crucible_analytic.Prelude.{ℕ, Bool, not, ◌&&◌, List, [], ◌∷◌, ltb, if◌then◌else◌}

pub record Pause : Type 0 where
  pub from : ℕ
  pub until : ℕ

-- `new(Pause)`.
abbrev pub new_pause : Pause
new_pause = record { from = 0; until = 0 }

unfoldable pub set_until : ℕ → ℕ → Pause → Pause
set_until end now p =
    let in_force = ltb now p.until in
    if ltb now end && in_force
    then record p { until = end }
    else if ltb now end
    then record { from = now; until = end }
    else if in_force
    then record p { until = now }
    else p

unfoldable pub holds : Pause → ℕ → Bool
holds p seen = not (ltb seen p.from) && ltb seen p.until

-- A setting as it was read, with the time of the reading; the latest is the first.
pub record Applied : Type 0 where
  pub end : ℕ
  pub now : ℕ

unfoldable pub apply_all : List Applied → Pause
apply_all [] = new_pause
apply_all (a ∷ earlier) = set_until a.end a.now (apply_all earlier)
