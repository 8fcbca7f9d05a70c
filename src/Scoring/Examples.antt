-- ===== src/Scoring/Examples.antt =====
-- The score of one address that is fast and known.
use crucible_analytic.Prelude.{[], ◌∷◌, codes}
use crucible_analytic.RateStore.Window.{Rate}
use crucible_analytic.Scoring.{KnownBots}

-- Nine requests a second.
abbrev nine : Rate
nine = record { num = 9000; den = 1000 }

abbrev bots : KnownBots
bots = (codes "t13d", codes "scanner") ∷ []
