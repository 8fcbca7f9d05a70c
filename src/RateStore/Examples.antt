-- ===== src/RateStore/Examples.antt =====
-- The rate store on a few requests, with numbers for addresses and a window of 1000.
use crucible_analytic.Prelude.{ℕ, List, [], ◌∷◌, codes, arith, ℕ_discrete}
use crucible_analytic.Prelude.Maps.{lookup}
use crucible_analytic.RateStore.Store.{IpState, MemoryRateStore}
use crucible_analytic.RateStore.Requests.{
  Request, IsOrdered, Follows, arrivals, store_of, store_of-Follows,
}

-- The newest first: two requests of address 1 in adjacent windows, and one of address 2.
abbrev requests : List (Request ℕ)
requests =
    record { ip = 1; ja4 = codes "t13d"; at = 2100 }
    ∷ record { ip = 2; ja4 = []; at = 1900 }
    ∷ record { ip = 1; ja4 = codes "t13d"; at = 1500 }
    ∷ []

requests-IsOrdered : IsOrdered 2100 requests
requests-IsOrdered = (omega arith, (omega arith, (omega arith, tt)))

store_of-Follows_example :
    Follows 1000
      (arrivals ℕ_discrete 1 requests)
      (lookup ℕ_discrete 1 (store_of ℕ_discrete 1000 5000 requests).states)
store_of-Follows_example =
    store_of-Follows ℕ_discrete 1000 5000 2100 requests 1 (omega arith) requests-IsOrdered

abbrev idle_state : IpState
idle_state = record {
  ja4 = [];
  counts = record { prev_count = 0; curr_count = 1; window_start = 1000 };
  last_seen = 1500;
}

abbrev idle_store : MemoryRateStore ℕ
idle_store = record { window_size = 1000; idle_ttl = 5000; states = (1, idle_state) ∷ [] }
