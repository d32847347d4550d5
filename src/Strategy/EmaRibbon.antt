-- ===== src/Strategy/EmaRibbon.antt =====
-- src/strategy/ema_ribbon.rs: trades on a pullback within a ribbon of averages.
use crypto_scalper.Strategy.Confidence.{as_confidence, or_else, lt_or_missing, add_if}
use crypto_scalper.Strategy.Signal.{ema_ribbon, PreSignal}
use crypto_scalper.Strategy.State.{SymbolState}
use crypto_scalper.Prelude.{ℕ, Bool, ◌&&◌, Option, none, some, if◌then◌else◌, string_eq, is_some}
use crypto_scalper.Float.{Float, ◌⊕◌, ◌⊖◌, ◌⊗◌, ◌<?◌, ◌≤?◌, dec, lit}
use crypto_scalper.Text.{Text}
use crypto_scalper.Data.Types.{long, short, Candle}

module _ {F : Type 0} ⦃f : Float F⦄ where
  unfoldable pub ribbon_score : Bool → Bool → F
  ribbon_score both inner = add_if inner (lit 5) (add_if both (lit 5) (lit 66))

  -- What the strategy reads: two averages that are there, two that may be missing, RSI and ATR.
  unfoldable pub is_bullish : F → F → Option F → Option F → F → Bool
  is_bullish e8 e21 e50 e200 close =
      e21 <? e8 && (lt_or_missing e50 (some e21) && lt_or_missing e200 (some close))

  unfoldable pub is_bearish : F → F → Option F → Option F → F → Bool
  is_bearish e8 e21 e50 e200 close =
      e8 <? e21 && (lt_or_missing (some e21) e50 && lt_or_missing (some close) e200)

module _ {F T : Type 0} ⦃f : Float F⦄ where
  unfoldable pub is_long_pullback : F → F → Candle F T → Bool
  is_long_pullback e21 rsi c =
      c.low ≤? e21 ⊗ dec 1003 3 && (e21 <? c.close && (lit 35 <? rsi && rsi <? lit 70))

  unfoldable pub is_short_pullback : F → F → Candle F T → Bool
  is_short_pullback e21 rsi c =
      e21 ⊗ dec 997 3 ≤? c.high && (c.close <? e21 && (lit 30 <? rsi && rsi <? lit 65))

  unfoldable pub ribbon_confidence : SymbolState F T → Bool → ℕ
  ribbon_confidence s inner =
      as_confidence {F = F} (ribbon_score (is_some s.ema_50.value && is_some s.ema_200.value) inner)

  unfoldable pub long_signal : SymbolState F T → Candle F T → F → F → F → PreSignal F
  long_signal s c e21 rsi atr = record {
    symbol = s.symbol;
    strategy = ema_ribbon;
    side = long;
    entry = c.close;
    stop_loss = f.min (or_else e21 s.ema_50.value) c.low ⊖ dec 5 1 ⊗ atr;
    take_profit = c.close ⊕ dec 15 1 ⊗ atr;
    ta_confidence = as_confidence {F = F} (
        ribbon_score (is_some s.ema_50.value && is_some s.ema_200.value)
          (lit 45 <? rsi && rsi <? lit 60));
    reason = Text.ribbon_bull e21 rsi;
  }

  unfoldable pub short_signal : SymbolState F T → Candle F T → F → F → F → PreSignal F
  short_signal s c e21 rsi atr = record {
    symbol = s.symbol;
    strategy = ema_ribbon;
    side = short;
    entry = c.close;
    stop_loss = f.max (or_else e21 s.ema_50.value) c.high ⊕ dec 5 1 ⊗ atr;
    take_profit = c.close ⊖ dec 15 1 ⊗ atr;
    ta_confidence = as_confidence {F = F} (
        ribbon_score (is_some s.ema_50.value && is_some s.ema_200.value)
          (lit 40 <? rsi && rsi <? lit 55));
    reason = Text.ribbon_bear e21 rsi;
  }

  unfoldable pub ribbon_from :
      Option F → Option F → Option F → SymbolState F T → Candle F T → Option (PreSignal F)
  ribbon_from (some e8) (some e21) (some atr) s c =
      let rsi = or_else (lit 50) s.last_rsi in
      let e50 = s.ema_50.value in
      let e200 = s.ema_200.value in
      if is_bullish e8 e21 e50 e200 c.close && is_long_pullback e21 rsi c
      then some (long_signal s c e21 rsi atr)
      else if is_bearish e8 e21 e50 e200 c.close && is_short_pullback e21 rsi c
      then some (short_signal s c e21 rsi atr)
      else none
  ribbon_from _ _ _ s c = none

  unfoldable pub evaluate_ema_ribbon : SymbolState F T → Candle F T → Option (PreSignal F)
  evaluate_ema_ribbon s c = ribbon_from s.ema_8.value s.ema_21.value s.last_atr s c
