-- ===== src/Scoring/Verdict.antt =====
-- The bounds of a score, and which signals reach the cutoff.
use native.Mathlib.Nat.{le-div_iff_mul-le, div-mul-le_self}
use crucible_analytic.Prelude.{
  ℕ, ◌+◌, ◌*◌, ◌/◌, ◌≤◌, ◌<◌, ◌≡◌, ◌⊎◌, ◌↔◌, refl, true, List, [], ◌∷◌, Bytes, arith, min, any,
}
use crucible_analytic.Prelude.Text.{bytes_eq}
use crucible_analytic.RateStore.Window.{Rate}
use crucible_analytic.Scoring.{
  KnownBots, bot_cutoff, rate_component, is_bot_ja4, is_bot_asn, score, is_some, find_label, label,
  known,
}

rate_component-le : (rps : Rate) → rate_component rps ≤ 70
unfolding rate_component
rate_component-le rps = ground arith

module _ (rps : Rate) (ja4 : Bytes) (bots : KnownBots) (asn : ℕ) (bot_asns : List ℕ) where
  -- The three components are bounded by their weights, and the score is their sum cut at 100.
  pub score_bounds :
      let r = score rps ja4 bots asn bot_asns in
      (r.score ≡ min 100 (r.rate_score + r.ja4_score + r.asn_score))
      × (r.rate_score ≤ 70)
      × (r.ja4_score ≤ 50)
      × (r.asn_score ≤ 20)
  unfolding score
  score_bounds = ground (arith, rate_component-le rps)

  -- An address is counted as a bot exactly if its fingerprint is a known bot's, or its rate
  -- component reaches 50, or it reaches 30 and its ASN is on the list.
  bot_cutoff-le-score_iff :
      let r = score rps ja4 bots asn bot_asns in
      (bot_cutoff ≤ r.score) ↔ (
        (is_bot_ja4 ja4 bots ≡ true)
        ⊎ ((50 ≤ rate_component rps)
            ⊎ ((30 ≤ rate_component rps) × (is_bot_asn asn bot_asns ≡ true))))
  unfolding score
  bot_cutoff-le-score_iff = ground arith

-- The rate component falls short of its maximum exactly below 15 requests a second, and it does
-- not fall when the rate rises (rates over one positive denominator).
pub rate_component_lem :
    (n m d : ℕ)
    → 0 < d
    → n ≤ m
    → (rate_component (record { num = n; den = d }) ≤ rate_component (record { num = m; den = d }))
      × ((rate_component (record { num = m; den = d }) ≡ 70) ↔ (15 * d ≤ m))
unfolding rate_component
rate_component_lem n m d pos h =
    let k = d * 15 in
    let mono : n * 70 / k ≤ m * 70 / k =
      (le-div_iff_mul-le {k = k} (omega arith)).1 (omega (arith, div-mul-le_self (n * 70) k)) in
    let full : (70 ≤ m * 70 / k) ↔ (70 * k ≤ m * 70) =
      le-div_iff_mul-le {k = k} {x = 70} {y = m * 70} (omega arith) in
    (ground (arith, mono), (ground (arith, full.0), ground (arith, full.1)))

is_some-find_label :
    (ja4 : Bytes) (m : KnownBots) → is_some (find_label ja4 m) ≡ any (λ (k, _). bytes_eq k ja4) m
unfolding find_label
is_some-find_label ja4 [] = refl
is_some-find_label ja4 ((k, v) ∷ m) = ground (arith, is_some-find_label ja4 m)

-- The bonus and the label agree: a fingerprint is known exactly if it scores.
pub known-is_bot_ja4 : (bots : KnownBots) (ja4 : Bytes) → known bots ja4 ≡ is_bot_ja4 ja4 bots
unfolding known label is_bot_ja4
known-is_bot_ja4 bots [] = refl
known-is_bot_ja4 bots (c ∷ ja4) = is_some-find_label (c ∷ ja4) bots
