-- ===== src/Scoring.antt =====
-- internal/scoring: the score of one address, and what it takes to count as a bot.
pub mod Verdict
mod Examples
use crucible_analytic.Prelude.{
  ℕ, ◌+◌, ◌*◌, ◌/◌, Bool, true, false, List, [], ◌∷◌, Option, none, some, Bytes, ltb, ◌==◌,
  if◌then◌else◌, length, any,
}
use crucible_analytic.Prelude.Text.{bytes_eq, is_empty}
use crucible_analytic.RateStore.Window.{Rate}

abbrev pub max_score : ℕ
max_score = 100

abbrev pub bot_cutoff : ℕ
bot_cutoff = 50

abbrev pub max_rate_score : ℕ
max_rate_score = 70

abbrev pub max_ja4_score : ℕ
max_ja4_score = 50

abbrev pub max_asn_score : ℕ
max_asn_score = 20

abbrev pub rate_score_saturation_rps : ℕ
rate_score_saturation_rps = 15

-- Fingerprints with their labels. A nil map is the empty list.
abbrev pub KnownBots : Type 0
KnownBots = List (Bytes × Bytes)

unfoldable pub find_label : Bytes → KnownBots → Option Bytes
find_label ja4 [] = none
find_label ja4 ((k, v) ∷ m) = let rest = find_label ja4 m in if bytes_eq k ja4 then some v else rest

unfoldable pub label : KnownBots → Bytes → Option Bytes
label bots [] = none
label bots (c ∷ ja4) = find_label (c ∷ ja4) bots

abbrev pub is_some : Option Bytes → Bool
is_some none = false
is_some (some v) = true

unfoldable pub known : KnownBots → Bytes → Bool
known bots ja4 = is_some (label bots ja4)

unfoldable pub bots_len : KnownBots → ℕ
bots_len bots = length bots

pub record ScoreResult : Type 0 where
  pub score : ℕ
  pub rate_score : ℕ
  pub ja4_score : ℕ
  pub is_known_bot_ja4 : Bool
  pub asn_score : ℕ
  pub is_known_bot_asn : Bool

-- `int((rps / 15) * 70)` of a rate that is a fraction; the rates of the store are not negative.
unfoldable pub rate_component : Rate → ℕ
rate_component rps =
    let score = rps.num * max_rate_score / (rps.den * rate_score_saturation_rps) in
    if rps.num == 0 then 0 else if ltb max_rate_score score then max_rate_score else score

unfoldable pub is_bot_ja4 : Bytes → KnownBots → Bool
is_bot_ja4 [] bots = false
is_bot_ja4 (c ∷ ja4) bots = any (λ (k, _). bytes_eq k (c ∷ ja4)) bots

unfoldable pub is_bot_asn : ℕ → List ℕ → Bool
is_bot_asn asn bot_asns = if asn == 0 then false else any (λ a. a == asn) bot_asns

unfoldable pub score : Rate → Bytes → KnownBots → ℕ → List ℕ → ScoreResult
score estimated_rps ja4 known_bots asn known_bot_asns =
    let rate_score = rate_component estimated_rps in
    let is_known_bot = is_bot_ja4 ja4 known_bots in
    let ja4_score = if is_known_bot then max_ja4_score else 0 in
    let is_known_bot_asn = is_bot_asn asn known_bot_asns in
    let asn_score = if is_known_bot_asn then max_asn_score else 0 in
    let total = rate_score + ja4_score + asn_score in
    record {
      score = if ltb max_score total then max_score else total;
      rate_score = rate_score;
      ja4_score = ja4_score;
      is_known_bot_ja4 = is_known_bot;
      asn_score = asn_score;
      is_known_bot_asn = is_known_bot_asn;
    }
