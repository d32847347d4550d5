-- ===== src/Strategy/Regime.antt =====
-- src/strategy/regime.rs: the regime of a market.
use crypto_scalper.Agents.RiskAgent.{or_zero}
use crypto_scalper.Strategy.Signal.{
  squeezing, ranging, volatile, trending_bearish, unknown, trending_bullish, Regime,
}
use crypto_scalper.Strategy.State.{SymbolState}
use crypto_scalper.Indicators.Bollinger.{BollingerBand}
use crypto_scalper.Prelude.{Bool, false, ◌&&◌, ◌||◌, Option, none, some, if◌then◌else◌, string_eq}
use crypto_scalper.Float.{Float, ◌<?◌, ◌≤?◌, dec, lit, nought}

module _ {F : Type 0} ⦃f : Float F⦄ where
  unfoldable pub is_squeezed : Option (BollingerBand F) → Option F → Option F → F → Bool
  is_squeezed (some bb) (some upper) (some lower) chop =
      bb.upper <? upper && (lower <? bb.lower && lit 55 <? chop)
  is_squeezed _ _ _ chop = false

  unfoldable pub trend_of : F → F → Regime
  trend_of plus minus = if minus ≤? plus then trending_bullish else trending_bearish

module _ {F T : Type 0} ⦃f : Float F⦄ where
  unfoldable pub regime_at : F → SymbolState F T → Regime
  regime_at adx s =
      let chop = or_zero (lit 50) s.last_choppiness in
      if is_squeezed s.last_bb s.last_keltner_upper s.last_keltner_lower chop
      then squeezing
      else if lit 40 ≤? adx
      then volatile
      else if lit 25 ≤? adx && chop <? dec 382 1
      then trend_of (or_zero nought s.last_di_plus) (or_zero nought s.last_di_minus)
      else if adx <? lit 20 || dec 618 1 <? chop
      then ranging
      else unknown

  unfoldable pub regime_from : Option F → SymbolState F T → Regime
  regime_from none s = unknown
  regime_from (some adx) s = regime_at adx s

  unfoldable pub detect : SymbolState F T → Regime
  detect s = regime_from s.last_adx s
