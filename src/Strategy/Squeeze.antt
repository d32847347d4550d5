-- ===== src/Strategy/Squeeze.antt =====
-- src/strategy/squeeze.rs: trades on the expansion after a squeeze.
use crypto_scalper.Strategy.Confidence.{is_aligned, add_if, or_else, as_confidence}
use crypto_scalper.Strategy.Signal.{PreSignal, StrategyName}
use crypto_scalper.Strategy.State.{SymbolState}
use crypto_scalper.Indicators.Bollinger.{BollingerBand}
use crypto_scalper.Prelude.{Bool, ◌&&◌, Option, none, some, if◌then◌else◌, string_eq}
use crypto_scalper.Float.{Float, ◌⊕◌, ◌⊖◌, ◌⊗◌, ◌<?◌, dec, lit, nought}
use crypto_scalper.Text.{Text}
use crypto_scalper.Data.Types.{Side, long, short, Candle}

module _ {F : Type 0} ⦃f : Float F⦄ where
  -- Side, reason, stop and target of an expansion.
  unfoldable pub expansion : BollingerBand F → F → F → F → Option (Side × Text F × F × F)
  expansion bb atr roc close =
      if dec 1 1 <? roc && bb.mid <? close
      then some
          (long, Text.expand_up roc, f.min bb.mid (close ⊖ dec 5 1 ⊗ atr), close ⊕ dec 12 1 ⊗ atr)
      else if roc <? f.neg (dec 1 1) && close <? bb.mid
      then some (
        short,
        Text.expand_down roc,
        f.max bb.mid (close ⊕ dec 5 1 ⊗ atr),
        close ⊖ dec 12 1 ⊗ atr,
      )
      else none

  unfoldable pub is_beyond : Side → F → BollingerBand F → Bool
  is_beyond long close bb = bb.upper <? close
  is_beyond short close bb = close <? bb.lower

  unfoldable pub squeeze_score : Side → F → F → BollingerBand F → Option F → F
  squeeze_score side roc close bb ofi =
      add_if (is_beyond side close bb) (lit 3)
        (add_if (is_aligned side ofi) (lit 5) (lit 64 ⊕ f.min (f.abs roc) (lit 3) ⊗ lit 4))

module _ {F T : Type 0} ⦃f : Float F⦄ where
  unfoldable pub squeeze_signal :
      SymbolState F T
      → BollingerBand F
      → F
      → F
      → Option (Side × Text F × F × F)
      → Option (PreSignal F)
  squeeze_signal s bb roc close none = none
  squeeze_signal s bb roc close (some (side, reason, sl, tp)) = some (record {
    symbol = s.symbol;
    strategy = StrategyName.squeeze;
    side = side;
    entry = close;
    stop_loss = sl;
    take_profit = tp;
    ta_confidence = as_confidence (squeeze_score side roc close bb s.last_ofi);
    reason = reason;
  })

  unfoldable pub squeeze_from :
      Option (BollingerBand F)
      → Option F
      → Option F
      → Option F
      → SymbolState F T
      → F
      → Option (PreSignal F)
  squeeze_from (some bb) (some upper) (some lower) (some atr) s close =
      let roc = or_else nought s.last_roc in
      let signal = squeeze_signal s bb roc close (expansion bb atr roc close) in
      if bb.upper <? upper && lower <? bb.lower then none else signal
  squeeze_from _ _ _ _ s close = none

  unfoldable pub evaluate_squeeze : SymbolState F T → Candle F T → Option (PreSignal F)
  evaluate_squeeze s c =
      squeeze_from s.last_bb s.last_keltner_upper s.last_keltner_lower s.last_atr s c.close
