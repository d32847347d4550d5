-- ===== src/Examples/RiskManager.antt =====
-- The risk manager of src/execution/risk.rs at the inputs of its unit tests.
use crypto_scalper.Execution.Risk.Validity.{run-IsValid, IsValid}
use crypto_scalper.Execution.Risk.Gate.{
  can_open_position_iff, validate_signal_iff, IsSound, IsWithinLimits,
}
use crypto_scalper.Execution.Risk.Sizing.{calculate_size_bounds}
use crypto_scalper.Examples.Inputs.{usd, loss, default_limits, manager, costs}
use crypto_scalper.Prelude.{List, none, ◌≡◌, ◌↔◌, ◌⊎◌, refl, true, some, [], ◌∷◌, ok, err}
use crypto_scalper.Prelude.Int.{pos}
use crypto_scalper.Float.{◌≼◌}
use crypto_scalper.Float.Fixed.{Fixed-IsOrdered, Fixed, fixed_float}
use crypto_scalper.Text.{Text}
use crypto_scalper.Execution.Tcm.{market_impact_bps, total_cost_bps, round_trip_cost_bps}
use crypto_scalper.Execution.Risk.{
  set_equity_to, RiskCall, apply, daily_loss_of, drawdown_of, book_pnl, net_edge_bps,
  trip_on_drawdown, edge_gate, risk_size, capped_size, trip_on_daily_loss, spread_too_wide,
  RiskManager, lift_freeze, opened, closed, new, snapshot, on_position_closed, can_open_position,
  calculate_size, validate_signal, leverage_cap, notional_cap,
}
use crypto_scalper.Execution.Risk.Circuit.{run-refuses, run, closed-trips_iff}

abbrev after_loss : RiskManager Fixed
after_loss = on_position_closed (loss 40) manager

-- `circuit_trips_on_daily_loss`: 4% lost, 3% allowed.
trips_on_daily_loss : (after_loss.tripped ≡ true) × (can_open_position manager ≡ ok tt)
unfolding on_position_closed trip_on_daily_loss trip_on_drawdown book_pnl drawdown_of daily_loss_of
    new can_open_position
trips_on_daily_loss = (refl, refl)

-- `size_calculation`, at an equity of 1000.
sizes : calculate_size manager (usd 100) (usd 99) ≡ usd 10
unfolding calculate_size capped_size risk_size leverage_cap notional_cap new
sizes = refl

-- `rejects_bad_reward_risk_and_wide_spread`.
validates :
    (validate_signal manager
        (usd 100)
        (usd 99)
        (fixed_float.dec 1005 1)
        (some (fixed_float.dec 1 2))
        costs
      ≡ err (Text.reward_risk_low (fixed_float.dec 5 1) (fixed_float.dec 12 1)))
    × (validate_signal manager
          (usd 100)
          (usd 99)
          (fixed_float.dec 1015 1)
          (some (fixed_float.dec 4 2))
          costs
        ≡ err (Text.spread_wide (fixed_float.dec 4 2) (fixed_float.dec 3 2)))
    × (validate_signal manager
          (usd 100)
          (usd 99)
          (fixed_float.dec 1015 1)
          (some (fixed_float.dec 1 2))
          costs
        ≡ ok tt)
unfolding validate_signal spread_too_wide edge_gate net_edge_bps capped_size risk_size leverage_cap
    notional_cap round_trip_cost_bps total_cost_bps market_impact_bps new
validates = (refl, refl, refl)

closed-trips_iff_example : (after_loss.tripped ≡ true) ↔ (
    (manager.tripped ≡ true)
    ⊎ (usd 10 ≼ (snapshot after_loss).drawdown_pct)
    ⊎ (usd 3 ≼ (snapshot after_loss).daily_loss_pct))
unfolding new
closed-trips_iff_example = closed-trips_iff manager (loss 40)

abbrev afternoon : List (RiskCall Fixed)
afternoon = closed (usd 50) ∷ lift_freeze ∷ opened ∷ set_equity_to (usd 2000) ∷ []

run-refuses_example :
    can_open_position (run afternoon after_loss)
    ≡ err (Text.circuit_tripped (Text.daily_loss (some (pos 4166666600))))
unfolding on_position_closed trip_on_daily_loss trip_on_drawdown book_pnl drawdown_of daily_loss_of
    new
run-refuses_example =
    run-refuses afternoon after_loss (Text.daily_loss (some (pos 4166666600)))
      (λ e. cc, (λ e. cc, (λ e. cc, (λ e. cc, tt)))) refl refl

can_open_position_iff_example :
    (can_open_position manager ≡ ok tt) ↔ IsWithinLimits default_limits (snapshot manager)
unfolding new
can_open_position_iff_example = can_open_position_iff Fixed-IsOrdered manager refl refl refl

validate_signal_iff_example :
    (validate_signal manager (usd 100) (usd 99) (usd 102) none costs ≡ ok tt)
    ↔ IsSound manager (usd 100) (usd 99) (usd 102) none costs
validate_signal_iff_example = validate_signal_iff manager (usd 100) (usd 99) (usd 102) none costs

calculate_size_bounds_example :
    let size = calculate_size manager (usd 100) (usd 99) in
    (usd 0 ≼ size)
    × (size ≼ leverage_cap manager (usd 100))
    × (size ≼ notional_cap manager (usd 100))
unfolding leverage_cap notional_cap new
calculate_size_bounds_example =
    calculate_size_bounds Fixed-IsOrdered manager (usd 100) (usd 99) refl refl

abbrev stopped : RiskManager Fixed
stopped = record manager { size_multiplier = usd 0 }

run-IsValid_example : IsValid (run afternoon manager)
unfolding new on_position_closed trip_on_daily_loss trip_on_drawdown book_pnl apply
run-IsValid_example =
    run-IsValid Fixed-IsOrdered default_limits (usd 1000) afternoon refl
      (refl, (tt, (tt, (refl, tt))))
