-- ===== src/Strategy/Kalman.antt =====
-- src/strategy/kalman.rs: the trend of a price.
use crypto_scalper.Prelude.{if◌then◌else◌, string_eq}
use crypto_scalper.Float.{Float, ◌⊕◌, ◌⊖◌, ◌⊗◌, ◌⊘◌, ◌≤?◌, dec, lit, nought, clamp}

pub record KalmanTrend (F : Type 0) : Type 0 where
  pub estimate : F
  pub velocity : F
  pub covariance : F
  pub process_noise : F
  pub measurement_noise : F

module _ {F : Type 0} ⦃f : Float F⦄ where
  unfoldable pub new_kalman : F → F → F → KalmanTrend F
  new_kalman initial_price process_noise measurement_noise = record {
    estimate = initial_price;
    velocity = nought;
    covariance = lit 1;
    process_noise = f.max process_noise (dec 1 12);
    measurement_noise = f.max measurement_noise (dec 1 12);
  }

  unfoldable pub update_trend : F → KalmanTrend F → KalmanTrend F
  update_trend price k =
      let prior = k.estimate ⊕ k.velocity in
      let prior_cov = k.covariance ⊕ k.process_noise in
      let gain = prior_cov ⊘ (prior_cov ⊕ k.measurement_noise) in
      let updated = prior ⊕ gain ⊗ (price ⊖ prior) in
      record k {
        velocity = updated ⊖ k.estimate;
        estimate = updated;
        covariance = (lit 1 ⊖ gain) ⊗ prior_cov;
      }

  unfoldable pub trend_score : F → KalmanTrend F → F
  trend_score price k =
      if price ≤? nought
      then nought
      else clamp (k.velocity ⊘ price ⊗ lit 10000) (f.neg (lit 100)) (lit 100)
