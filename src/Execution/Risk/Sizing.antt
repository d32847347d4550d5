-- ===== src/Execution/Risk/Sizing.antt =====
-- Position sizes of src/execution/risk.rs: the caps, and the effect of the survival multiplier.
use crypto_scalper.Prelude.{◌≡◌, inl, inr, Bool-cases, arith}
use crypto_scalper.Float.{Float, ◌≼◌, ◌≺◌, ◌⊖◌, ◌⊗◌, ◌⊘◌, ◌≤?◌, nought, lit, IsFinite}
use crypto_scalper.Float.Laws.{IsOrdered, IsRounded}
use crypto_scalper.Float.Order.{nought-IsNumber, max-le, lt_of_not_le}
use crypto_scalper.Execution.Risk.{
  RiskManager, leverage_cap, notional_cap, risk_size, capped_size, calculate_size,
}

module _ {F : Type 0} ⦃f : Float F⦄ (laws : IsOrdered F) where
  capped_size_bounds :
      (i : RiskManager F) (entry risk_per_unit : F)
      → nought ≼ leverage_cap i entry
      → nought ≼ notional_cap i entry
      → let size = capped_size i entry risk_per_unit in
        (nought ≼ size) × (size ≼ leverage_cap i entry) × (size ≼ notional_cap i entry)
  unfolding capped_size
  capped_size_bounds i entry risk_per_unit hl hn =
      let raw = risk_size i risk_per_unit in
      let lev = leverage_cap i entry in
      let cap = notional_cap i entry in
      let lev_number = (laws.numbers_of_le _ _ hl).1 in
      let cap_number = (laws.numbers_of_le _ _ hn).1 in
      let first = laws.min-le_right raw lev lev_number in
      let below_lev =
        laws.le_trans _ _ _ (laws.min-le_left (f.min raw lev) cap (laws.numbers_of_le _ _ first).0)
          first in
      let below_cap = laws.min-le_right (f.min raw lev) cap cap_number in
      (
        laws.le-max_right _ nought (nought-IsNumber laws),
        max-le laws _ _ below_lev hl,
        max-le laws _ _ below_cap hn,
      )

  -- Where both caps are not negative, the base size that `calculate_size` gives, before the risk
  -- agent multiplies it, is not negative and exceeds neither the leverage cap nor the notional cap,
  -- whatever the distance of the stop.
  pub calculate_size_bounds :
      (i : RiskManager F) (entry stop_loss : F)
      → nought ≼ leverage_cap i entry
      → nought ≼ notional_cap i entry
      → let size = calculate_size i entry stop_loss in
        (nought ≼ size) × (size ≼ leverage_cap i entry) × (size ≼ notional_cap i entry)
  unfolding calculate_size
  calculate_size_bounds i entry stop_loss hl hn =
      ground
        (arith, capped_size_bounds i entry (f.abs (entry ⊖ stop_loss)) hl hn, nought-IsNumber laws)

  module _ (rounded : IsRounded F) where
    risk_size_zero :
        (i : RiskManager F) (risk_per_unit : F)
        → i.size_multiplier ≡ nought
        → IsFinite (i.equity ⊗ i.limits.risk_per_trade_pct ⊘ lit 100)
        → nought ≺ risk_per_unit
        → IsFinite risk_per_unit
        → risk_size i risk_per_unit ≼ nought
    unfolding risk_size
    risk_size_zero i risk_per_unit z e p q =
        rw z (rounded.div_nonpos _ risk_per_unit (rounded.mul_zero _ e) p q)

    -- With the survival multiplier at zero no entry gets a positive size: the size is at most zero
    -- for every entry and every stop at a finite distance.
    calculate_size_frozen :
        (i : RiskManager F) (entry stop_loss : F)
        → i.size_multiplier ≡ nought
        → IsFinite (i.equity ⊗ i.limits.risk_per_trade_pct ⊘ lit 100)
        → IsFinite (f.abs (entry ⊖ stop_loss))
        → calculate_size i entry stop_loss ≼ nought
    unfolding calculate_size capped_size
    calculate_size_frozen i entry stop_loss z e q =
        let d = f.abs (entry ⊖ stop_loss) in
        elim (Bool-cases (d ≤? nought)) [
          | inl flat ↦ rw flat (nought-IsNumber laws)
          | inr apart ↦
              let raw =
                risk_size_zero i d z e
                  (lt_of_not_le laws d nought (laws.finite_number d q) (nought-IsNumber laws) apart)
                  q in
              let number = (laws.numbers_of_le _ _ raw).0 in
              let lev = laws.min-le_left (risk_size i d) (leverage_cap i entry) number in
              let cap =
                laws.min-le_left (f.min (risk_size i d) (leverage_cap i entry))
                  (notional_cap i entry) (laws.numbers_of_le _ _ lev).0 in
              rw apart (
                max-le laws _ nought (laws.le_trans _ _ _ cap (laws.le_trans _ _ _ lev raw))
                  (nought-IsNumber laws))
        ]
