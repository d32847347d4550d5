-- ===== src/Strategy/AlphaGate.antt =====
-- src/strategy/alpha_gate.rs, with the scores of src/feeds/funding_arb.rs and src/feeds/alt_data.rs: the
-- gate of alternative data, trend and funding.
use crypto_scalper.Strategy.Kalman
use crypto_scalper.Strategy.Kalman.{KalmanTrend, new_kalman, update_trend}
use crypto_scalper.Prelude.{Bool, List, [], ◌∷◌, if◌then◌else◌, string_eq}
use crypto_scalper.Float.{Float, ◌⊕◌, ◌⊖◌, ◌⊗◌, ◌⊘◌, ◌≤?◌, dec, lit, nought, clamp}

pub data FundingArbSignal : Type 0 where
  receive_funding pay_funding_only_with_strong_trend neutral : FundingArbSignal

pub record AltDataInputs (F : Type 0) : Type 0 where
  pub news_sentiment : F
  pub social_sentiment : F
  pub onchain_flow : F
  pub fear_greed : F

pub record AdvancedAlphaInputs (F : Type 0) : Type 0 where
  pub alt_data : AltDataInputs F
  pub funding_rate : F
  pub trend_score : F
  pub min_abs_score : F

pub data AlphaGateDecision : Type 0 where
  allow reduce block : AlphaGateDecision

module _ {F : Type 0} ⦃f : Float F⦄ where
  unfoldable pub classify_funding : F → F → FundingArbSignal
  classify_funding rate threshold_bps =
      if threshold_bps ≤? rate ⊗ lit 10000
      then receive_funding
      else if rate ⊗ lit 10000 ≤? f.neg threshold_bps
      then pay_funding_only_with_strong_trend
      else neutral

  unfoldable pub unit : F → F
  unit x = clamp x (f.neg (lit 1)) (lit 1)

  unfoldable pub alternative_data_score : AltDataInputs F → F
  alternative_data_score inputs = unit (
      unit inputs.news_sentiment ⊗ dec 3 1
      ⊕ unit inputs.social_sentiment ⊗ dec 25 2
      ⊕ unit inputs.onchain_flow ⊗ dec 25 2
      ⊕ unit ((inputs.fear_greed ⊖ lit 50) ⊘ lit 50) ⊗ dec 2 1)

  unfoldable pub penalty_for : FundingArbSignal → F
  penalty_for receive_funding = f.neg (dec 1 1)
  penalty_for pay_funding_only_with_strong_trend = dec 1 1
  penalty_for neutral = nought

  unfoldable pub gate_score : AdvancedAlphaInputs F → F → F
  gate_score inputs directional =
      alternative_data_score inputs.alt_data ⊗ directional ⊗ dec 45 2
      ⊕ unit (inputs.trend_score ⊘ lit 100) ⊗ directional ⊗ dec 45 2
      ⊕ penalty_for (classify_funding inputs.funding_rate (lit 1)) ⊗ directional

  unfoldable pub advanced_alpha_gate : AdvancedAlphaInputs F → Bool → AlphaGateDecision
  advanced_alpha_gate inputs signal_is_long =
      let score = gate_score inputs (if signal_is_long then lit 1 else f.neg (lit 1)) in
      if inputs.min_abs_score ≤? score
      then allow
      else if score ≤? f.neg inputs.min_abs_score
      then block
      else reduce

  -- The filter over the prices behind the first, with the last price.
  unfoldable pub follow : List F → KalmanTrend F → F → KalmanTrend F × F
  follow [] trend last = (trend, last)
  follow (price ∷ prices) trend last = follow prices (update_trend price trend) price

  unfoldable pub kalman_trend_score : List F → F → F → F
  kalman_trend_score [] process_noise measurement_noise = nought
  kalman_trend_score (first ∷ prices) process_noise measurement_noise =
      let (trend, last) = follow prices (new_kalman first process_noise measurement_noise) first in
      Kalman.trend_score last trend
