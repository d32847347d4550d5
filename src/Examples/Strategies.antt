-- ===== src/Examples/Strategies.antt =====
-- The indicators and the strategies of src/indicators and src/strategy on concrete inputs.
use crypto_scalper.Strategy.Confidence.{add_if, as_confidence, is_aligned, or_else, within}
use crypto_scalper.Strategy.VwapScalp.{
  dist_pct_of, evaluate_vwap_scalp, exits_of, rate_distance, side_of, vwap_from, vwap_score,
  vwap_signal,
}
use crypto_scalper.Agents.RiskAgent.{or_zero}
use crypto_scalper.Strategy.Regime.{is_squeezed, regime_at, regime_from, detect}
use crypto_scalper.Indicators.Keltner.{new_keltner}
use crypto_scalper.Strategy.VwapScalp.Targets.{long_target_inverted}
use crypto_scalper.Strategy.Selection.{squeeze_silent, select_strategies, evaluate_strategy}
use crypto_scalper.Indicators.Ema.{compute_ema-reference, new_ema, reference, compute_ema}
use crypto_scalper.Strategy.State.{new_state, SymbolState}
use crypto_scalper.Indicators.Keltner.Warmup.{warmup_iff, last_band}
use crypto_scalper.Prelude.{ℕ, ◌≡◌, refl, true, none, some, [], ◌∷◌, leb, string_eq, is_some, All}
use crypto_scalper.Text.{Text}
use crypto_scalper.Data.Types.{long, Candle}
use crypto_scalper.Examples.Inputs.{usd, long_at_100}
use crypto_scalper.Execution.Position.{
  Position, PositionExitReason, default_config, check_long, exit,
}
use crypto_scalper.Strategy.Signal.{PreSignal, vwap_scalp, squeeze, momentum}
use crypto_scalper.Float.Fixed.{fixed_float, Fixed, Fixed-IsOrdered}
use crypto_scalper.Time.{seconds_time}

abbrev candle_at : Fixed → Candle Fixed ℕ
candle_at close = record {
  open_time = 0;
  close_time = 60;
  «open» = close;
  high = close;
  low = close;
  close = close;
  volume = usd 1;
}

warmup_iff_example :
    is_some (
      last_band
        (candle_at (usd 1) ∷ candle_at (usd 2) ∷ candle_at (usd 3) ∷ [])
        (new_keltner 2 (usd 1))
        none)
    ≡ leb 3 3
warmup_iff_example =
    warmup_iff 1 (usd 1) (candle_at (usd 1) ∷ candle_at (usd 2) ∷ candle_at (usd 3) ∷ [])

compute_ema-reference_example :
    compute_ema (usd 1 ∷ usd 2 ∷ usd 4 ∷ []) 2
    ≡ reference (new_ema {F = Fixed} 2).alpha 2 (usd 1 ∷ usd 2 ∷ usd 4 ∷ [])
compute_ema-reference_example = compute_ema-reference (usd 1 ∷ usd 2 ∷ usd 4 ∷ []) 1

-- Bands from 99 to 101 within a channel from 98 to 102, in a sideways market.
abbrev squeezed : SymbolState Fixed ℕ
squeezed = record (new_state "BTCUSDT") {
  last_adx = some (usd 15);
  last_choppiness = some (usd 60);
  last_bb = some (record { lower = usd 99; mid = usd 100; upper = usd 101; width = usd 2 });
  last_keltner_lower = some (usd 98);
  last_keltner_upper = some (usd 102);
  last_atr = some (usd 1);
}

squeeze_silent_example :
    All
      (λ n. evaluate_strategy n squeezed (candle_at (usd 100)) ≡ none)
      (select_strategies (squeeze ∷ momentum ∷ []) (detect squeezed))
unfolding detect regime_from regime_at is_squeezed or_zero
squeeze_silent_example =
    squeeze_silent squeezed (candle_at (usd 100)) (squeeze ∷ momentum ∷ []) refl

-- A price of 100.20 above an average price of 100.
abbrev above_vwap : SymbolState Fixed ℕ
above_vwap = record (new_state "BTCUSDT") { last_vwap = some (usd 100); last_atr = some (usd 1) }

abbrev price_above : Fixed
price_above = fixed_float.dec 1002 1

abbrev long_above : PreSignal Fixed
long_above = record {
  symbol = "BTCUSDT";
  strategy = vwap_scalp;
  side = long;
  entry = price_above;
  stop_loss = fixed_float.dec 998 1;
  take_profit = usd 100;
  ta_confidence = 67;
  reason = Text.near_vwap (usd 100) (usd 0) (fixed_float.dec 2 1);
}

abbrev entered_above : Position Fixed ℕ
entered_above = record long_at_100 {
  entry_price = price_above;
  stop_loss = fixed_float.dec 998 1;
  take_profit = usd 100;
}

long_target_inverted_example :
    (fixed_float.lt long_above.take_profit long_above.entry ≡ true)
    × (check_long default_config (fixed_float.dec 4 1) long_above.entry entered_above
        ≡ exit entered_above PositionExitReason.take_profit)
unfolding evaluate_vwap_scalp vwap_from vwap_signal side_of within dist_pct_of or_else new_state
    exits_of as_confidence vwap_score add_if is_aligned rate_distance
long_target_inverted_example =
    long_target_inverted Fixed-IsOrdered above_vwap (candle_at price_above) long_above (usd 100)
      default_config (fixed_float.dec 4 1) entered_above refl refl refl refl refl refl refl
