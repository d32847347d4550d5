-- ===== src/Strategy/MeanReversion.antt =====
-- src/strategy/mean_reversion.rs: trades against a touch of the bands.
use crypto_scalper.Strategy.Confidence.{as_confidence, or_else, within}
use crypto_scalper.Strategy.Signal.{mean_reversion, PreSignal}
use crypto_scalper.Strategy.State.{SymbolState}
use crypto_scalper.Indicators.Bollinger.{BollingerBand}
use crypto_scalper.Prelude.{ℕ, not, ◌&&◌, ◌||◌, Option, none, some, if◌then◌else◌, string_eq}
use crypto_scalper.Float.{Float, ◌⊕◌, ◌⊖◌, ◌⊗◌, ◌⊘◌, ◌<?◌, ◌≤?◌, dec, lit, nought}
use crypto_scalper.Text.{Text}
use crypto_scalper.Data.Types.{Side, long, short, Candle}

module _ {F : Type 0} ⦃f : Float F⦄ where
  unfoldable pub rate_rsi : F → F
  rate_rsi rsi =
      if not (within (lit 20) (lit 80) rsi)
      then lit 62 ⊕ lit 15
      else if not (within (lit 30) (lit 70) rsi)
      then lit 62 ⊕ lit 10
      else lit 62

  unfoldable pub rate_volume : F → F → F
  rate_volume vol_ratio score =
      if lit 2 ≤? vol_ratio
      then score ⊕ lit 12
      else if dec 12 1 ≤? vol_ratio
      then score ⊕ lit 5
      else score

  unfoldable pub rate_trend : F → F → F
  rate_trend adx score =
      if adx <? lit 15 then score ⊕ lit 10 else if adx <? lit 20 then score ⊕ lit 5 else score

  unfoldable pub reversion_score : F → F → F → ℕ
  reversion_score rsi vol_ratio adx =
      as_confidence (rate_trend adx (rate_volume vol_ratio (rate_rsi rsi)))

module _ {F T : Type 0} ⦃f : Float F⦄ where
  -- Side, reason, stop and target of a touch.
  unfoldable pub touch : BollingerBand F → F → F → F → Candle F T → Option (Side × Text F × F × F)
  touch bb rsi atr vol_ratio c =
      if c.low ≤? bb.lower && rsi <? lit 35
      then some (
        long,
        Text.lower_touch rsi vol_ratio,
        f.min (bb.lower ⊖ bb.width ⊗ dec 5 1) (c.close ⊖ atr ⊗ dec 8 1),
        f.min bb.mid (c.close ⊕ atr ⊗ dec 15 1),
      )
      else if bb.upper ≤? c.high && lit 65 <? rsi
      then some (
        short,
        Text.upper_touch rsi vol_ratio,
        f.max (bb.upper ⊕ bb.width ⊗ dec 5 1) (c.close ⊕ atr ⊗ dec 8 1),
        f.max bb.mid (c.close ⊖ atr ⊗ dec 15 1),
      )
      else none

  unfoldable pub reversion_signal :
      SymbolState F T → F → ℕ → Option (Side × Text F × F × F) → Option (PreSignal F)
  reversion_signal s close confidence none = none
  reversion_signal s close confidence (some (side, reason, sl, tp)) = some (record {
    symbol = s.symbol;
    strategy = mean_reversion;
    side = side;
    entry = close;
    stop_loss = sl;
    take_profit = tp;
    ta_confidence = confidence;
    reason = reason;
  })

  unfoldable pub reversion_from :
      Option (BollingerBand F)
      → Option F
      → Option F
      → SymbolState F T
      → Candle F T
      → Option (PreSignal F)
  reversion_from (some bb) (some rsi) (some atr) s c =
      let adx = or_else nought s.last_adx in
      let vol_ratio = c.volume ⊘ s.volume_sma in
      let signal =
        reversion_signal s c.close (reversion_score rsi vol_ratio adx)
          (touch bb rsi atr vol_ratio c) in
      if lit 35 <? adx || (s.volume_sma ≤? nought || vol_ratio <? dec 8 1) then none else signal
  reversion_from _ _ _ s c = none

  unfoldable pub evaluate_mean_reversion : SymbolState F T → Candle F T → Option (PreSignal F)
  evaluate_mean_reversion s c = reversion_from s.last_bb s.last_rsi s.last_atr s c
