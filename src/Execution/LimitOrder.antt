-- ===== src/Execution/LimitOrder.antt =====
-- src/execution/limit_order.rs: the price and the style of an entry order.
use crypto_scalper.Prelude.{◌&&◌, ◌||◌, Option, none, some, if◌then◌else◌, string_eq}
use crypto_scalper.Float.{Float, ◌⊕◌, ◌⊗◌, ◌⊘◌, ◌<?◌, ◌≤?◌, dec, lit, nought, clamp}
use crypto_scalper.Data.Types.{Side, long, short}

pub data LimitOrderStyle : Type 0 where
  post_only join_best cross_spread : LimitOrderStyle

pub record LimitOrderPlan (F : Type 0) : Type 0 where
  pub price : F
  pub style : LimitOrderStyle
  pub expected_fill_probability : F

module _ {F : Type 0} ⦃f : Float F⦄ where
  unfoldable pub fill_probability : F → F → F → F
  fill_probability queue_ahead_qty expected_trade_qty horizon_secs =
      if queue_ahead_qty ≤? nought
      then lit 1
      else if expected_trade_qty ≤? nought || horizon_secs ≤? nought
      then nought
      else clamp (expected_trade_qty ⊗ horizon_secs ⊘ queue_ahead_qty) nought (lit 1)

  -- The guards of the match for each side, in order; `prob` is the fill probability.
  unfoldable pub plan_long : F → F → F → F → LimitOrderPlan F
  plan_long best_bid best_ask fair_price prob =
      if best_ask <? fair_price
      then record { price = best_ask; style = cross_spread; expected_fill_probability = lit 1 }
      else if (best_bid ⊕ best_ask) ⊘ lit 2 ≤? fair_price && dec 5 1 ≤? prob
      then record { price = best_bid; style = join_best; expected_fill_probability = prob }
      else record { price = best_bid; style = post_only; expected_fill_probability = prob }

  unfoldable pub plan_short : F → F → F → F → LimitOrderPlan F
  plan_short best_bid best_ask fair_price prob =
      if fair_price <? best_bid
      then record { price = best_bid; style = cross_spread; expected_fill_probability = lit 1 }
      else if fair_price ≤? (best_bid ⊕ best_ask) ⊘ lit 2 && dec 5 1 ≤? prob
      then record { price = best_ask; style = join_best; expected_fill_probability = prob }
      else record { price = best_ask; style = post_only; expected_fill_probability = prob }

  unfoldable pub plan_side : Side → F → F → F → F → LimitOrderPlan F
  plan_side long = plan_long
  plan_side short = plan_short

  unfoldable pub plan_limit_order : Side → F → F → F → F → F → F → Option (LimitOrderPlan F)
  plan_limit_order side best_bid best_ask fair_price queue_ahead per_sec horizon_secs =
      if best_bid ≤? nought || (best_ask ≤? best_bid || fair_price ≤? nought)
      then none
      else some (
          plan_side side best_bid best_ask fair_price
            (fill_probability queue_ahead per_sec horizon_secs))
