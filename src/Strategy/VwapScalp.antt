-- ===== src/Strategy/VwapScalp.antt =====
-- src/strategy/vwap_scalp.rs: trades around the volume-weighted average price.
pub mod Targets
use crypto_scalper.Strategy.Confidence.{as_confidence, is_aligned, or_else, add_if, within}
use crypto_scalper.Strategy.Signal.{vwap_scalp, PreSignal}
use crypto_scalper.Strategy.State.{SymbolState}
use crypto_scalper.Prelude.{◌&&◌, Option, none, some, if◌then◌else◌, string_eq}
use crypto_scalper.Float.{Float, ◌⊕◌, ◌⊖◌, ◌⊗◌, ◌⊘◌, ◌<?◌, ◌≤?◌, dec, lit, nought}
use crypto_scalper.Text.{Text}
use crypto_scalper.Data.Types.{Side, long, short, Candle}

module _ {F : Type 0} ⦃f : Float F⦄ where
  unfoldable pub dist_pct_of : F → F → F
  dist_pct_of close vwap = (close ⊖ vwap) ⊘ f.max vwap (dec 1 9) ⊗ lit 100

  unfoldable pub side_of : F → F → Option Side
  side_of dist_pct slope =
      if within (f.neg (lit 1)) (dec 3 1) dist_pct && f.neg (dec 1 3) ≤? slope
      then some long
      else if within (f.neg (dec 3 1)) (lit 1) dist_pct && slope ≤? dec 1 3
      then some short
      else none

  -- Stop and target.
  unfoldable pub exits_of : Side → F → F → F → F × F
  exits_of long close vwap atr = (close ⊖ dec 4 1 ⊗ atr, f.min vwap (close ⊕ atr ⊗ dec 12 1))
  exits_of short close vwap atr = (close ⊕ dec 4 1 ⊗ atr, f.max vwap (close ⊖ atr ⊗ dec 12 1))

  unfoldable pub rate_distance : F → F → F
  rate_distance dist_pct score =
      if f.abs dist_pct <? dec 15 2
      then score ⊕ lit 10
      else if f.abs dist_pct <? dec 3 1
      then score ⊕ lit 5
      else score

  unfoldable pub vwap_score : Side → F → F → Option F → F
  vwap_score side dist_pct slope ofi =
      add_if (is_aligned side ofi) (lit 5)
        (rate_distance dist_pct (add_if (dec 3 4 <? f.abs slope) (lit 8) (lit 62)))

module _ {F T : Type 0} ⦃f : Float F⦄ where
  unfoldable pub vwap_signal : SymbolState F T → F → F → F → F → Option Side → Option (PreSignal F)
  vwap_signal s close vwap atr slope none = none
  vwap_signal s close vwap atr slope (some side) =
      let (sl, tp) = exits_of side close vwap atr in
      let dist_pct = dist_pct_of close vwap in
      some (record {
        symbol = s.symbol;
        strategy = vwap_scalp;
        side = side;
        entry = close;
        stop_loss = sl;
        take_profit = tp;
        ta_confidence = as_confidence (vwap_score side dist_pct slope s.last_ofi);
        reason = Text.near_vwap vwap slope dist_pct;
      })

  unfoldable pub vwap_from :
      Option F → Option F → SymbolState F T → Candle F T → Option (PreSignal F)
  vwap_from (some vwap) (some atr) s c =
      let slope = or_else nought s.last_vwap_slope in
      vwap_signal s c.close vwap atr slope (side_of (dist_pct_of c.close vwap) slope)
  vwap_from _ _ s c = none

  unfoldable pub evaluate_vwap_scalp : SymbolState F T → Candle F T → Option (PreSignal F)
  evaluate_vwap_scalp s c = vwap_from s.last_vwap s.last_atr s c
