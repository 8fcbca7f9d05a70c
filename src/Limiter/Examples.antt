-- ===== src/Limiter/Examples.antt =====
-- The limiter and the blocklist on small inputs.
use crucible_analytic.Prelude.{
  ◌≤◌, refl, inr, List, [], ◌∷◌, some, none, Bytes, codes, count_if, false,
}
use crucible_analytic.Prelude.Int.{pos}
use crucible_analytic.Limiter.Rate.{GlobalRateCounter}
use crucible_analytic.Limiter.Admit.{Config, throttle, Event, moves, configures, Input, run}
use crucible_analytic.Limiter.Slots.{IsCounted, start_system, holds_slot, run_start-IsCounted}
use crucible_analytic.Limiter.Caps.{run_start-le-max}
use crucible_analytic.Limiter.GeoBlock.{GeoBlocklist}

abbrev busy : GlobalRateCounter
busy = record {
  window_size = 1000;
  counts = record { prev_count = 40; curr_count = 90; window_start = 3000 };
}

-- One slot, and a queue of one.
abbrev one_slot : Config
one_slot = record {
  max_concurrent_connections = pos 1;
  max_requests_per_second = pos 0;
  policy = throttle;
  throttle_queue_size = pos 1;
}

abbrev at_rest : Input
at_rest = record { now = 7; ctx_done = false }

-- Two callers that both read `current` before either swaps it: the second one loses the swap, and
-- joins the queue.
abbrev race : List Event
race =
    moves 0 at_rest
    ∷ moves 1 at_rest
    ∷ moves 0 at_rest
    ∷ moves 1 at_rest
    ∷ moves 0 at_rest
    ∷ moves 1 at_rest
    ∷ moves 0 at_rest
    ∷ moves 1 at_rest
    ∷ moves 1 at_rest
    ∷ moves 1 at_rest
    ∷ configures one_slot
    ∷ []

run_start-IsCounted_example : IsCounted (run (start_system one_slot 1000 2) race)
run_start-IsCounted_example = run_start-IsCounted one_slot 1000 2 race

run_start-le-max_example : count_if holds_slot (run (start_system one_slot 1000 2) race).callers ≤ 1
run_start-le-max_example = run_start-le-max one_slot refl (inr refl) 1000 2 race (refl, tt)

-- One slot and one request a second.
abbrev one_a_second : Config
one_a_second = record one_slot { max_requests_per_second = pos 1 }

abbrev no_rules : GeoBlocklist
no_rules = record { rules = none; refused = 3 }

abbrev blocked : List Bytes
blocked = codes " ru " ∷ codes " " ∷ []

abbrev with_rules : GeoBlocklist
with_rules = record {
  rules = some (record { countries = codes "RU" ∷ []; asns = [] });
  refused = 3;
}
