-- ===== src/Quant/Factors.antt =====
-- src/quant.rs: what the engine makes of its histories: volatility, value at risk, the coefficient of a
-- strategy, the trend and the correlation.
use crypto_scalper.Portfolio.{
  volatility_target_multiplier, historical_cvar, variance, pearson_correlation,
}
use crypto_scalper.Strategy.Kalman.{trend_score, KalmanTrend}
use crypto_scalper.Research.Ic.{ic, IcTracker}
use crypto_scalper.Prelude.{
  drop, ℕ, ◌-◌, String, Bool, false, ◌&&◌, ◌||◌, Option, none, some, List, [], ◌∷◌, ltb, leb,
  if◌then◌else◌, string_eq, length,
}
use crypto_scalper.Float.{Float, ◌⊕◌, ◌⊖◌, ◌⊗◌, ◌⊘◌, ◌<?◌, ◌≤?◌, dec, lit, nought, clamp}
use crypto_scalper.Prelude.Dict.{Dict, lookup}
use crypto_scalper.Prelude.Int.{ℤ, pos, negsuc, ltb_ℤ}
use crypto_scalper.Quant.{QuantConfig, QuantEngine}

module _ {F : Type 0} ⦃f : Float F⦄ where
  -- The newest `n` elements.
  unfoldable pub last_of : ℕ → List F → List F
  last_of n xs = drop (length xs - n) xs

  unfoldable pub vol_multiplier_of : QuantConfig F → Option (List F) → F
  vol_multiplier_of cfg none = lit 1
  vol_multiplier_of cfg (some hist) =
      let window = if ltb cfg.vol_window (length hist) then cfg.vol_window else length hist in
      let realized = f.sqrt (variance (last_of window hist)) ⊗ f.sqrt (lit 105120) in
      if ltb (length hist) 10
      then lit 1
      else volatility_target_multiplier cfg.target_vol_annual realized cfg.max_vol_multiplier

  unfoldable pub vol_target_multiplier : String → QuantEngine F → F
  vol_target_multiplier symbol e = vol_multiplier_of e.cfg (lookup symbol e.returns)

  unfoldable pub exceeds_cap : QuantConfig F → F → F → F → Option F → Bool
  exceeds_cap cfg entry stop_loss equity none = false
  exceeds_cap cfg entry stop_loss equity (some cvar) =
      let trade_risk_pct = f.abs (entry ⊖ stop_loss) ⊘ entry in
      equity ⊗ cfg.max_var_pct <? equity ⊗ trade_risk_pct ⊕ cvar ⊗ equity

  unfoldable pub var_of : QuantConfig F → F → F → F → Option (List F) → Bool
  var_of cfg entry stop_loss equity none = false
  var_of cfg entry stop_loss equity (some hist) =
      leb 20 (length hist)
      && exceeds_cap cfg entry stop_loss equity (historical_cvar hist cfg.var_confidence)

  unfoldable pub var_check : String → F → F → F → QuantEngine F → Bool
  var_check symbol entry stop_loss equity e =
      if equity ≤? nought
      then false
      else var_of e.cfg entry stop_loss equity (lookup symbol e.returns)

  -- `as i8` of a value that is rounded and clamped to the boost.
  unfoldable pub as_i8 : F → ℤ
  as_i8 x =
      let n = f.to_ℤ x in
      if ltb_ℤ (pos 127) n then pos 127 else if ltb_ℤ n (negsuc 127) then negsuc 127 else n

  unfoldable pub boost_of : QuantConfig F → Option F → ℤ
  boost_of cfg none = pos 0
  boost_of cfg (some ic) =
      let limit = f.of_ℕ cfg.ic_max_boost in
      if cfg.ic_min_abs ≤? f.abs ic
      then as_i8 (clamp (f.round (ic ⊗ limit)) (f.neg limit) limit)
      else pos 0

  unfoldable pub ic_of : Option (IcTracker F) → Option F
  ic_of none = none
  ic_of (some k) = ic k

  unfoldable pub ic_adjustment : String → QuantEngine F → ℤ
  ic_adjustment strategy e = boost_of e.cfg (ic_of (lookup strategy e.ic_trackers))

  unfoldable pub direction_of : F → F → Option (KalmanTrend F) → ℤ
  direction_of min_bps price none = pos 0
  direction_of min_bps price (some k) =
      if min_bps <? trend_score price k
      then pos 1
      else if trend_score price k <? f.neg min_bps
      then negsuc 0
      else pos 0

  unfoldable pub kalman_direction : String → F → QuantEngine F → ℤ
  kalman_direction symbol price e =
      direction_of e.cfg.kalman_min_velocity_bps price (lookup symbol e.kalman)

  unfoldable pub is_high : Option F → Bool
  is_high none = false
  is_high (some rho) = dec 7 1 <? f.abs rho

  -- The penalty of one more history, of which the newest sixty returns at most are compared.
  unfoldable pub penalize : String → List F → String → List F → F → F
  penalize symbol hist other other_hist penalty =
      let least =
        if ltb (length other_hist) (length hist) then length other_hist else length hist in
      let n = if ltb least 60 then least else 60 in
      let high = is_high (pearson_correlation (last_of n hist) (last_of n other_hist)) in
      if string_eq.beq other symbol || ltb (length other_hist) 20
      then penalty
      else if high
      then penalty ⊗ dec 85 2
      else penalty

  unfoldable pub penalty_from : String → List F → Dict String (List F) → F → F
  penalty_from symbol hist [] penalty = penalty
  penalty_from symbol hist ((other, other_hist) ∷ m) penalty =
      penalty_from symbol hist m (penalize symbol hist other other_hist penalty)

  unfoldable pub penalty_of : String → Option (List F) → Dict String (List F) → F
  penalty_of symbol none returns = lit 1
  penalty_of symbol (some hist) returns =
      let penalty = penalty_from symbol hist returns (lit 1) in
      if ltb (length hist) 20 then lit 1 else penalty

  unfoldable pub correlation_cluster_penalty : String → Dict String (List F) → F
  correlation_cluster_penalty symbol returns = penalty_of symbol (lookup symbol returns) returns
