-- ===== src/Strategy/VwapScalp/Targets.antt =====
-- Where the target of src/strategy/vwap_scalp.rs lies, and what src/execution/position.rs makes of it.
use crypto_scalper.Time.{Time}
use crypto_scalper.Execution.Position.{
  PositionExitReason, exit, Position, check_long, PositionConfig,
}
use crypto_scalper.Strategy.VwapScalp.{exits_of, vwap_signal, vwap_from, evaluate_vwap_scalp}
use crypto_scalper.Strategy.Signal.{PreSignal}
use crypto_scalper.Strategy.State.{SymbolState}
use crypto_scalper.Prelude.{◌≡◌, sym, ap, ◌∙◌, false, Option, none, some, arith, string_eq}
use crypto_scalper.Float.{Float, ◌⊕◌, ◌⊗◌, ◌≤?◌, ◌≺◌, ◌≼◌, dec, nought}
use crypto_scalper.Float.Laws.{IsOrdered}
use crypto_scalper.Data.Types.{Side, long, short, Candle}

module _ {F : Type 0} ⦃f : Float F⦄ (laws : IsOrdered F) where
  lt_of_le_lt : (x y z : F) → x ≼ y → y ≺ z → x ≺ z
  lt_of_le_lt x y z h k =
      let (hx, hy) = laws.numbers_of_le x y h in
      let (hy', hz) = laws.numbers_of_le y z (laws.le_of_lt y z k) in
      ground
        (arith, laws.lt-eq-not-le x z hx hz, laws.lt-eq-not-le y z hy hz, laws.le_trans z x y, k, h)

module _ {F T : Type 0} ⦃f : Float F⦄ where
  -- The target of a long signal is not above the average price.
  long-target :
      (s : SymbolState F T) (close vwap atr slope : F) (side : Option Side) (p : PreSignal F)
      → vwap_signal s close vwap atr slope side ≡ some p
      → p.side ≡ long
      → (p.entry ≡ close) × (p.take_profit ≡ f.min vwap (close ⊕ atr ⊗ dec 12 1))
  unfolding vwap_signal exits_of
  long-target s close vwap atr slope none p e l = absurd (ground arith)
  long-target s close vwap atr slope (some long) p e l = ground arith
  long-target s close vwap atr slope (some short) p e l = absurd (ground arith)

  signal-target :
      (s : SymbolState F T) (c : Candle F T) (p : PreSignal F) (vwap : F) (atr : Option F)
      → vwap_from (some vwap) atr s c ≡ some p
      → p.side ≡ long
      → (p.entry ≡ c.close) × ((a : F) × (p.take_profit ≡ f.min vwap (c.close ⊕ a ⊗ dec 12 1)))
  unfolding vwap_from
  signal-target s c p vwap none e l = absurd (ground arith)
  signal-target s c p vwap (some atr) e l =
      let t = long-target s c.close vwap atr _ _ p e l in (t.0, (atr, t.1))

module _ {F T : Type 0} ⦃f : Float F⦄ ⦃t : Time T⦄ where
  early_exit :
      (cfg : PositionConfig F) (r price : F) (q : Position F T)
      → (price ≤? q.stop_loss) ≡ false
      → nought ≺ q.take_profit
      → q.take_profit ≼ price
      → check_long cfg r price q ≡ exit q PositionExitReason.take_profit
  unfolding check_long
  early_exit cfg r price q h k l = ground arith

module _ {F T : Type 0} ⦃f : Float F⦄ ⦃t : Time T⦄ (laws : IsOrdered F) where
  -- A long signal that is given above the average price has its target below its own entry; a position
  -- with that target, its stop below the entry, is closed as a profit at the very price at which it was
  -- entered.
  pub long_target_inverted :
      (s : SymbolState F T) (c : Candle F T) (p : PreSignal F) (vwap : F) (cfg : PositionConfig F)
      (r : F) (q : Position F T)
      → s.last_vwap ≡ some vwap
      → vwap ≺ c.close
      → evaluate_vwap_scalp s c ≡ some p
      → p.side ≡ long
      → q.take_profit ≡ p.take_profit
      → nought ≺ p.take_profit
      → (p.entry ≤? q.stop_loss) ≡ false
      → (p.take_profit ≺ p.entry)
        × (check_long cfg r p.entry q ≡ exit q PositionExitReason.take_profit)
  unfolding evaluate_vwap_scalp
  long_target_inverted s c p vwap cfg r q h k e l same positive open_stop =
      let t =
        signal-target s c p vwap s.last_atr (ap (λ v. vwap_from v s.last_atr s c) (sym h) ∙ e) l in
      let numbers = laws.numbers_of_le vwap c.close (laws.le_of_lt vwap c.close k) in
      let low = lt_of_le_lt laws _ vwap c.close (laws.min-le_left vwap _ numbers.0) k in
      let below : p.take_profit ≺ p.entry = rw (t.0, t.1.1) low in
      (
        below,
        early_exit cfg r p.entry q open_stop (rw same positive)
            (rw same (laws.le_of_lt p.take_profit p.entry below)),
      )
