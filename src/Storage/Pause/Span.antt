-- ===== src/Storage/Pause/Span.antt =====
-- What a pause holds back, against the settings that were in force.
use crucible_analytic.Prelude.{
  ℕ, ◌≤◌, ◌<◌, ◌≡◌, refl, ap, ◌∙◌, not, Bool, true, false, ◌&&◌, List, [], ◌∷◌, arith, ltb, leb,
  if◌then◌else◌,
}
use crucible_analytic.Storage.Pause.{set_until, holds, Applied, apply_all}

-- Paused at a time, by the latest setting that was applied by then.
unfoldable pub paused_at : List Applied → ℕ → Bool
paused_at [] t = false
paused_at (a ∷ earlier) t =
    let rest = paused_at earlier t in if leb a.now t then ltb t a.end else rest

-- When the pause began that the latest settings are part of: at the latest setting that says paused at a
-- time for which those before it said recording.
unfoldable pub began_at : List Applied → ℕ
began_at [] = 0
began_at (a ∷ earlier) =
    let rest = began_at earlier in
    if ltb a.now a.end && not (paused_at earlier a.now) then a.now else rest

-- No setting was read before the one before it.
abbrev pub IsInOrder : List Applied → Type 0
IsInOrder [] = Unit
IsInOrder (a ∷ []) = Unit
IsInOrder (a ∷ b ∷ earlier) = (b.now ≤ a.now) × IsInOrder (b ∷ earlier)

abbrev IsReadBy : ℕ → List Applied → Type 0
IsReadBy t [] = Unit
IsReadBy t (a ∷ earlier) = a.now ≤ t

-- From the last reading on, a pause is in force exactly if the last setting says paused.
in_force_lem :
    (settings : List Applied) (t : ℕ)
    → IsReadBy t settings
    → ltb t (apply_all settings).until ≡ paused_at settings t
unfolding apply_all set_until paused_at
in_force_lem [] t h = ground arith
in_force_lem (a ∷ earlier) t h = ground (arith, h)

earlier-IsReadBy :
    (a : Applied) (earlier : List Applied) → IsInOrder (a ∷ earlier) → IsReadBy a.now earlier
earlier-IsReadBy a [] o = tt
earlier-IsReadBy a (b ∷ earlier) o = o.0

earlier-IsInOrder :
    (a : Applied) (earlier : List Applied) → IsInOrder (a ∷ earlier) → IsInOrder earlier
earlier-IsInOrder a [] o = tt
earlier-IsInOrder a (b ∷ earlier) o = o.1

from-apply_all :
    (settings : List Applied) → IsInOrder settings → (apply_all settings).from ≡ began_at settings
unfolding apply_all set_until began_at
from-apply_all [] o = refl
from-apply_all (a ∷ earlier) o = ground (
  arith,
  from-apply_all earlier (earlier-IsInOrder a earlier o),
  in_force_lem earlier a.now (earlier-IsReadBy a earlier o),
)

holds_lem :
    (settings : List Applied) (seen : ℕ)
    → holds (apply_all settings) seen
      ≡ (leb (apply_all settings).from seen && paused_at settings seen)
unfolding holds apply_all set_until paused_at
holds_lem [] seen = ground arith
holds_lem (a ∷ earlier) seen = ground (arith, holds_lem earlier seen)

-- However often the setting changes, if the times of its readings do not go back: a row is held back if
-- and only if its address was last seen at a time for which the setting read by then said paused,
-- and not before the latest pause began, which is at the latest reading of a setting that said
-- paused where those before it did not.
pub holds-apply_all :
    (settings : List Applied) (seen : ℕ)
    → IsInOrder settings
    → holds (apply_all settings) seen ≡ (leb (began_at settings) seen && paused_at settings seen)
holds-apply_all settings seen o =
    holds_lem settings seen
    ∙ ap (λ (f : ℕ). leb f seen && paused_at settings seen) (from-apply_all settings o)

-- Two pauses apart, the second begun at the first one's end or later: what was seen in the first is
-- held back as long as the second has not begun, and not any more from then on.
holds-second_pause :
    (first second : Applied) (seen : ℕ)
    → first.now ≤ seen
    → seen < first.end
    → first.end ≤ second.now
    → second.now < second.end
    → (holds (apply_all (first ∷ [])) seen ≡ true)
      × (holds (apply_all (second ∷ first ∷ [])) seen ≡ false)
unfolding holds apply_all set_until
holds-second_pause first second seen a b c d = (ground (arith, a, b), ground (arith, a, b, c, d))
