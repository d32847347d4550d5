-- ===== src/Strategy/Momentum.antt =====
-- src/strategy/momentum.rs: trades on a breakout.
use crypto_scalper.Strategy.Confidence.{as_confidence, lt_or_missing, is_aligned, or_else, add_if}
use crypto_scalper.Prelude.{
  drop, reverse, take, Bool, ◌&&◌, Option, none, some, List, [], ◌∷◌, ltb, if◌then◌else◌, string_eq,
  length,
}
use crypto_scalper.Strategy.Signal.{momentum, PreSignal}
use crypto_scalper.Strategy.State.{SymbolState}
use crypto_scalper.Float.{Float, ◌⊕◌, ◌⊖◌, ◌⊗◌, ◌⊘◌, ◌<?◌, ◌≤?◌, dec, lit, nought}
use crypto_scalper.Text.{Text}
use crypto_scalper.Data.Types.{Side, long, short, Candle}

module _ {F : Type 0} ⦃f : Float F⦄ where
  unfoldable pub vol_ratio_of : F → F → F
  vol_ratio_of volume volume_sma = if nought <? volume_sma then volume ⊘ volume_sma else nought

  -- Side, reason, stop and target of a breakout.
  unfoldable pub breakout : F → F → F → F → F → F → Bool → Bool → Option (Side × Text F × F × F)
  breakout close highest lowest vol_ratio roc atr aligned_long aligned_short =
      if highest <? close && (dec 2 1 <? roc && aligned_long)
      then some (
        long,
        Text.long_breakout highest vol_ratio roc,
        close ⊖ dec 8 1 ⊗ atr,
        close ⊕ dec 15 1 ⊗ atr,
      )
      else if close <? lowest && (roc <? f.neg (dec 2 1) && aligned_short)
      then some (
        short,
        Text.short_breakout lowest vol_ratio roc,
        close ⊕ dec 8 1 ⊗ atr,
        close ⊖ dec 15 1 ⊗ atr,
      )
      else none

  unfoldable pub rate_breakout_volume : F → F
  rate_breakout_volume vol_ratio =
      if lit 2 ≤? vol_ratio
      then lit 65 ⊕ lit 10
      else if dec 15 1 ≤? vol_ratio
      then lit 65 ⊕ lit 5
      else lit 65

  unfoldable pub momentum_score : Side → F → F → Option F → F
  momentum_score side vol_ratio roc ofi = add_if (lit 1 <? f.abs roc) (lit 5) (
      add_if (dec 5 1 <? f.abs roc) (lit 5)
        (add_if (is_aligned side ofi) (lit 5) (rate_breakout_volume vol_ratio)))

module _ {F T : Type 0} ⦃f : Float F⦄ where
  -- The twenty candles before the newest one.
  unfoldable pub recent_of : List (Candle F T) → List (Candle F T)
  recent_of candles = take 20 (drop 1 (reverse candles))

  unfoldable pub highest_of : List (Candle F T) → F → F
  highest_of [] best = best
  highest_of (c ∷ cs) best = highest_of cs (f.max best c.high)

  unfoldable pub lowest_of : List (Candle F T) → F → F
  lowest_of [] best = best
  lowest_of (c ∷ cs) best = lowest_of cs (f.min best c.low)

  unfoldable pub momentum_signal :
      SymbolState F T → F → F → F → Option (Side × Text F × F × F) → Option (PreSignal F)
  momentum_signal s close vol_ratio roc none = none
  momentum_signal s close vol_ratio roc (some (side, reason, sl, tp)) = some (record {
    symbol = s.symbol;
    strategy = momentum;
    side = side;
    entry = close;
    stop_loss = sl;
    take_profit = tp;
    ta_confidence = as_confidence (momentum_score side vol_ratio roc s.last_ofi);
    reason = reason;
  })

  unfoldable pub momentum_from : Option F → SymbolState F T → Candle F T → Option (PreSignal F)
  momentum_from none s c = none
  momentum_from (some atr) s c =
      let recent = recent_of s.candles in
      let vol_ratio = vol_ratio_of c.volume s.volume_sma in
      let roc = or_else nought s.last_roc in
      let signal = momentum_signal s c.close vol_ratio roc (
        breakout c.close (highest_of recent (f.neg f.infinity)) (lowest_of recent f.infinity)
          vol_ratio roc atr (lt_or_missing s.ema_200.value s.ema_50.value)
          (lt_or_missing s.ema_50.value s.ema_200.value)) in
      if vol_ratio <? dec 12 1 then none else signal

  unfoldable pub evaluate_momentum : SymbolState F T → Candle F T → Option (PreSignal F)
  evaluate_momentum s c =
      let signal = momentum_from s.last_atr s c in
      if ltb (length s.candles) 21 then none else signal
