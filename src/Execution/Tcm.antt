-- ===== src/Execution/Tcm.antt =====
-- src/execution/tcm.rs: the transaction cost model.
use crypto_scalper.Prelude.{Bool, false, ◌||◌, if◌then◌else◌}
use crypto_scalper.Float.{Float, ◌⊕◌, ◌⊗◌, ◌⊘◌, ◌≤?◌, nought, lit}

pub record TransactionCostModel (F : Type 0) : Type 0 where
  pub taker_fee_bps : F
  pub maker_fee_bps : F
  pub avg_slippage_bps : F
  pub impact_bps : F  -- the field `market_impact_bps`

module _ {F : Type 0} ⦃f : Float F⦄ where
  unfoldable pub market_impact_bps : TransactionCostModel F → F → F → F
  market_impact_bps t size_usd daily_volume_usd =
      if size_usd ≤? nought || daily_volume_usd ≤? nought || t.impact_bps ≤? nought
      then nought
      else t.impact_bps ⊗ f.sqrt (size_usd ⊘ daily_volume_usd)

  unfoldable pub total_cost_bps : TransactionCostModel F → F → F → Bool → F
  total_cost_bps t size_usd daily_volume_usd is_maker =
      (if is_maker then t.maker_fee_bps else t.taker_fee_bps)
      ⊕ t.avg_slippage_bps
      ⊕ market_impact_bps t size_usd daily_volume_usd

  unfoldable pub round_trip_cost_bps : TransactionCostModel F → F → F → F
  round_trip_cost_bps t size_usd daily_volume_usd =
      lit 2 ⊗ total_cost_bps t size_usd daily_volume_usd false
