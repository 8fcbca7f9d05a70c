-- ===== src/Storage/Examples.antt =====
-- The flusher on concrete input.
use crucible_analytic.Prelude.{
  ℕ, ◌+◌, ◌≡◌, inl, inr, refl, arith, List, [], ◌∷◌, Option, none, some, Bytes, codes, length, map,
  leb, ◌&&◌, ℕ_discrete,
}
use mathlib.Core.Option.{discrete}
use crucible_analytic.Prelude.Maps.{lookup}
use crucible_analytic.ClientIp.Resolver.{Addr, v4}
use crucible_analytic.RateStore.Store.{Snapshot, new_memory_rate_store, snapshot}
use crucible_analytic.RateStore.Requests.{Reports, arrivals}
use crucible_analytic.RateStore.Sweeps
use crucible_analytic.RateStore.Sweeps.{Use, sweeps, requests_of, store_after}
use crucible_analytic.Privacy.{ip_masked, mask_ip}
use crucible_analytic.Privacy.Network.{mask_ip-mask_ip}
use crucible_analytic.Storage.Rows.{RowOptions, geo_of, build_rows}
use crucible_analytic.Storage.Rows.Raw.{build_rows-map}
use crucible_analytic.Storage.Pause.{Pause, new_pause, holds, Applied, apply_all}
use crucible_analytic.Storage.Pause.Span.{began_at, paused_at, holds-apply_all}
use crucible_analytic.Storage.Flusher.{Flusher, Copy, unpaused}
use crucible_analytic.Storage.Flusher.Latest.{unheld, unpaused-store_after}
use crucible_analytic.Storage.Flusher.Accounts.{
  Event, requests, pauses, flushes, counted, happen_all, taken_all, counted-happen_all,
}

abbrev first : Applied
first = record { end = 50; now = 10 }

abbrev second : Applied
second = record { end = 90; now = 60 }

-- The first is prolonged.
abbrev settings : List Applied
settings = second ∷ record { end = 55; now = 40 } ∷ first ∷ []

holds-apply_all_example :
    holds (apply_all settings) 70 ≡ (leb (began_at settings) 70 && paused_at settings 70)
holds-apply_all_example = holds-apply_all settings 70 (omega arith, (omega arith, tt))

abbrev no_hmac : Bytes → Bytes → Bytes
no_hmac key s = []

abbrev options : RowOptions
options = record {
  site_id = codes "s";
  known_bots = [];
  known_bot_asns = [];
  resolver = none;
  ip_mode = ip_masked;
  ip_hash_key = [];
}

abbrev seen : Snapshot
seen = record {
  ja4 = [];
  stats = record {
    prev_window_count = 0;
    curr_window_count = 2;
    estimated_rate = record { num = 2; den = 1 };
  };
  last_seen = 40;
}

-- Every address in the place of its network.
abbrev networks : Option Addr → Option Addr
networks ip = mask_ip ip ip_masked

build_rows-map_example :
    build_rows no_hmac
      (map (λ (ip, snap). (networks ip, snap)) ((some (v4 0x0a141e28), seen) ∷ []))
      50
      options
    ≡ build_rows no_hmac ((some (v4 0x0a141e28), seen) ∷ []) 50 options
unfolding geo_of
build_rows-map_example =
    build_rows-map no_hmac networks ((some (v4 0x0a141e28), seen) ∷ []) 50 options refl
      (λ ip. mask_ip-mask_ip ip ip_masked ip_masked) (λ ip. refl)

-- Two addresses, the first of which was swept away and came again.
abbrev uses : List (Use ℕ)
uses =
    Sweeps.requests (record { ip = 1; ja4 = []; at = 9100 })
    ∷ sweeps 9000
    ∷ Sweeps.requests (record { ip = 2; ja4 = []; at = 8900 })
    ∷ Sweeps.requests (record { ip = 1; ja4 = []; at = 2000 })
    ∷ []

abbrev lunch : Pause
lunch = apply_all (record { end = 9000; now = 8800 } ∷ [])

unpaused-store_after_example :
    Reports 1000 8500 9500 (unheld lunch (arrivals ℕ_discrete 1 (requests_of uses))) (
      lookup ℕ_discrete 1
        (unpaused lunch (snapshot (store_after ℕ_discrete 1000 5000 uses) 8500 9500)))
unpaused-store_after_example =
    unpaused-store_after ℕ_discrete lunch 1000 5000 9100 8500 9500 uses 1 (omega arith)
      (omega arith) (omega arith) (omega arith, (omega arith, (omega arith, (omega arith, tt))))
      (omega arith)

Addr-discrete : Discrete Addr
Addr-discrete = hlevel ℕ_discrete

NetAddr-discrete : Discrete (Option Addr)
NetAddr-discrete = discrete Addr-discrete

abbrev flusher : Flusher
flusher = record {
  store = new_memory_rate_store 1000 5000;
  opts = options;
  pause = new_pause;
  held = 0;
  writer = record { written = 0; failed = 0 };
  last_flush = 0;
}

abbrev copies_all : Copy
copies_all rows = some (length rows)

abbrev fails : Copy
fails rows = none

abbrev events : List Event
events =
    requests (some (v4 1)) [] 10
    ∷ flushes copies_all 20
    ∷ pauses 90 25
    ∷ requests (some (v4 2)) [] 30
    ∷ flushes copies_all 40
    ∷ requests none [] 100
    ∷ flushes fails 110
    ∷ []

counted-happen_all_example :
    counted (happen_all NetAddr-discrete no_hmac flusher events)
    ≡ counted flusher + taken_all NetAddr-discrete no_hmac flusher events
counted-happen_all_example =
    counted-happen_all NetAddr-discrete no_hmac flusher events
      (tt, (λ rows. inr refl, (tt, (tt, (λ rows. inr refl, (tt, (λ rows. inl refl, tt)))))))
