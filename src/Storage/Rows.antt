-- ===== src/Storage/Rows.antt =====
-- internal/storage/row.go: snapshots of the rate store as rows of traffic_snapshots. Go's zero
-- netip.Addr is `none`. The resolver is an argument, `none` for a nil one.
pub mod Raw
use crucible_analytic.Prelude.{ℕ, Bool, List, [], ◌∷◌, Option, none, some, Bytes, if◌then◌else◌}
use crucible_analytic.ClientIp.Resolver.{Addr}
use crucible_analytic.RateStore.Window.{Rate}
use crucible_analytic.RateStore.Store.{Snapshot}
use crucible_analytic.Scoring.{KnownBots, ScoreResult, score}
use crucible_analytic.Privacy.{IpMode, tokenises, mask_ip, token_ip}

-- The fields of asnlookup.Result that a row takes.
pub record Geo : Type 0 where
  pub country : Bytes
  pub asn : ℕ
  pub asn_name : Bytes

pub record RowOptions : Type 0 where
  pub site_id : Bytes
  pub known_bots : KnownBots
  pub known_bot_asns : List ℕ
  pub resolver : Option (Option Addr → Geo)
  pub ip_mode : IpMode
  pub ip_hash_key : Bytes

-- int16 holds every score, which is at most 100.
pub record Row : Type 0 where
  pub time : ℕ
  pub site_id : Bytes
  pub ip : Option Addr
  pub ip_hash : Option Bytes
  pub ja4 : Bytes
  pub prev_window_count : ℕ
  pub curr_window_count : ℕ
  pub request_rate : Rate
  pub bot_score : ℕ
  pub is_known_bot_ja4 : Bool
  pub country : Bytes
  pub asn : ℕ
  pub asn_name : Bytes
  pub is_known_bot_asn : Bool

unfoldable pub geo_of : Option (Option Addr → Geo) → Option Addr → Geo
geo_of none ip = record { country = []; asn = 0; asn_name = [] }
geo_of (some resolve) ip = resolve ip

unfoldable pub masked_for : Option Addr → RowOptions → Option Addr
masked_for ip opts = mask_ip ip opts.ip_mode

module _ (hmac : Bytes → Bytes → Bytes) where
  unfoldable pub token_for : Option Addr → RowOptions → Option Bytes
  token_for ip opts = if tokenises opts.ip_mode then token_ip hmac ip opts.ip_hash_key else none

  unfoldable pub build_row : Option Addr → Snapshot → ℕ → RowOptions → Row
  build_row ip snap flush_time opts =
      let geo = geo_of opts.resolver ip in
      let result =
        score snap.stats.estimated_rate snap.ja4 opts.known_bots geo.asn opts.known_bot_asns in
      record {
        time = flush_time;
        site_id = opts.site_id;
        ip = masked_for ip opts;
        ip_hash = token_for ip opts;
        ja4 = snap.ja4;
        prev_window_count = snap.stats.prev_window_count;
        curr_window_count = snap.stats.curr_window_count;
        request_rate = snap.stats.estimated_rate;
        bot_score = result.score;
        is_known_bot_ja4 = result.is_known_bot_ja4;
        country = geo.country;
        asn = geo.asn;
        asn_name = geo.asn_name;
        is_known_bot_asn = result.is_known_bot_asn;
      }

  unfoldable pub build_rows : List (Option Addr × Snapshot) → ℕ → RowOptions → List Row
  build_rows [] flush_time opts = []
  build_rows ((ip, snap) ∷ snapshots) flush_time opts =
      build_row ip snap flush_time opts ∷ build_rows snapshots flush_time opts
