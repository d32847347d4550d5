-- ===== src/Execution/Quality.antt =====
-- src/execution/quality.rs: the cost of executions against the price of the decision.
use crypto_scalper.Prelude.{
  ℕ, zero, suc, ◌+◌, String, Option, none, some, List, [], ◌∷◌, ◌++◌, map, if◌then◌else◌, string_eq,
}
use crypto_scalper.Float.{Float, ◌⊕◌, ◌⊖◌, ◌⊗◌, ◌⊘◌, ◌≤?◌, lit, nought}
use crypto_scalper.Data.Types.{Side, long, short}

pub record TradeQualityRecord (F : Type 0) : Type 0 where
  pub symbol : String
  pub decision_price : F
  pub arrival_price : F
  pub fill_price : F
  pub side : Side
  pub size : F

-- `ExecutionQuality`: the recorded trades, the last one at the end.
abbrev pub ExecutionQuality : Type 0 → Type 0
ExecutionQuality F = List (TradeQualityRecord F)

unfoldable pub record_trade :
    {F : Type 0} → TradeQualityRecord F → ExecutionQuality F → ExecutionQuality F
record_trade trade trades = trades ++ trade ∷ []

module _ {F : Type 0} ⦃f : Float F⦄ where
  unfoldable pub direction : Side → F
  direction long = lit 1
  direction short = f.neg (lit 1)

  unfoldable pub directional_bps : F → F → Side → F
  directional_bps from to side =
      if from ≤? nought then nought else (to ⊖ from) ⊘ from ⊗ direction side ⊗ lit 10000

  unfoldable pub implementation_shortfall_bps : TradeQualityRecord F → F
  implementation_shortfall_bps r = directional_bps r.decision_price r.fill_price r.side

  unfoldable pub delay_cost_bps : TradeQualityRecord F → F
  delay_cost_bps r = directional_bps r.decision_price r.arrival_price r.side

  unfoldable pub market_impact_bps : TradeQualityRecord F → F
  market_impact_bps r = directional_bps r.arrival_price r.fill_price r.side

  -- The loop of `average`: the sum and the count of the finite values.
  unfoldable pub average_from : List F → F → ℕ → F × ℕ
  average_from [] sum count = (sum, count)
  average_from (value ∷ values) sum count =
      let finite = f.is_finite value in
      average_from values (if finite then sum ⊕ value else sum)
        (if finite then count + 1 else count)

  unfoldable pub mean_of : F × ℕ → Option F
  mean_of (sum, zero) = none
  mean_of (sum, suc n) = some (sum ⊘ f.of_ℕ (suc n))

  unfoldable pub average : List F → Option F
  average values = mean_of (average_from values nought 0)

  unfoldable pub avg_shortfall_bps : ExecutionQuality F → Option F
  avg_shortfall_bps trades = average (map implementation_shortfall_bps trades)

  unfoldable pub avg_market_impact_bps : ExecutionQuality F → Option F
  avg_market_impact_bps trades = average (map market_impact_bps trades)
