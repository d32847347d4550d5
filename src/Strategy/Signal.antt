-- ===== src/Strategy/Signal.antt =====
-- src/strategy/state.rs and src/strategy/regime.rs: the candidate signal of a strategy.
use crypto_scalper.Prelude.{ℕ, String, if◌then◌else◌, string_eq}
use crypto_scalper.Float.{Float, ◌⊖◌, ◌⊘◌, ◌≤?◌, nought}
use crypto_scalper.Text.{Text}
use crypto_scalper.Data.Types.{Side}

pub data StrategyName : Type 0 where
  mean_reversion momentum vwap_scalp ema_ribbon squeeze : StrategyName

pub data Regime : Type 0 where
  trending_bullish trending_bearish ranging volatile squeezing unknown : Regime

unfoldable pub strategy_str : StrategyName → String
strategy_str mean_reversion = "mean_reversion"
strategy_str momentum = "momentum"
strategy_str vwap_scalp = "vwap_scalp"
strategy_str ema_ribbon = "ema_ribbon"
strategy_str squeeze = "squeeze"

unfoldable pub regime_str : Regime → String
regime_str trending_bullish = "TRENDING_BULLISH"
regime_str trending_bearish = "TRENDING_BEARISH"
regime_str ranging = "RANGING"
regime_str volatile = "VOLATILE"
regime_str squeezing = "SQUEEZE"
regime_str unknown = "UNKNOWN"

pub record PreSignal (F : Type 0) : Type 0 where
  pub symbol : String
  pub strategy : StrategyName
  pub side : Side
  pub entry : F
  pub stop_loss : F
  pub take_profit : F
  pub ta_confidence : ℕ  -- u8
  pub reason : Text F

module _ {F : Type 0} ⦃f : Float F⦄ where
  -- `PreSignal::rr`.
  unfoldable pub rr : PreSignal F → F
  rr s =
      let risk = f.abs (s.entry ⊖ s.stop_loss) in
      if risk ≤? nought then nought else f.abs (s.take_profit ⊖ s.entry) ⊘ risk
