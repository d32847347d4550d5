-- ===== src/Examples/Inputs.antt =====
-- Shared inputs: amounts, limits, a risk manager, a position.
use crypto_scalper.Prelude.{ℕ, ◌*◌, false, some, string_eq}
use crypto_scalper.Prelude.Int.{pos}
use crypto_scalper.Data.Types.{long}
use crypto_scalper.Float.Fixed.{Fixed, fixed_float}
use crypto_scalper.Execution.Risk.{RiskLimits, RiskManager, new}
use crypto_scalper.Execution.Tcm.{TransactionCostModel}
use crypto_scalper.Execution.Position.{Position}

abbrev pub usd : ℕ → Fixed
usd n = some (pos (n * 1000000000))

abbrev pub loss : ℕ → Fixed
loss n = fixed_float.neg (usd n)

abbrev pub default_limits : RiskLimits Fixed
default_limits = record {
  risk_per_trade_pct = usd 1;
  max_open_positions = 3;
  max_daily_loss_pct = usd 3;
  max_drawdown_pct = usd 10;
  max_leverage = 5;
  max_spread_pct = fixed_float.dec 3 2;
  min_reward_risk = fixed_float.dec 12 1;
  max_position_notional_pct = usd 100;
  min_net_edge_bps = usd 1;
  assumed_daily_volume_usd = usd 1000000000;
}

abbrev pub manager : RiskManager Fixed
manager = new default_limits (usd 1000)

abbrev pub costs : TransactionCostModel Fixed
costs = record {
  taker_fee_bps = usd 4;
  maker_fee_bps = loss 1;
  avg_slippage_bps = usd 2;
  impact_bps = usd 1;
}

-- 100 for 1, with a stop at 99 and a target at 103, opened at second 1000.
abbrev pub long_at_100 : Position Fixed ℕ
long_at_100 = record {
  client_id = "a";
  symbol = "BTCUSDT";
  side = long;
  size = usd 1;
  entry_price = usd 100;
  stop_loss = usd 99;
  take_profit = usd 103;
  opened_at = 1000;
  trailing_activated = false;
  peak_price = usd 100;
  trough_price = usd 100;
  atr_at_entry = usd 1;
  partial_taken = false;
  breakeven_activated = false;
}
