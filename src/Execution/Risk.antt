-- ===== src/Execution/Risk.antt =====
-- src/execution/risk.rs: the risk manager. `Arc<Mutex<Inner>>` is the record `RiskManager`: each
-- method holds the lock for its whole body, so a method is one step from state to state.
pub mod Gate
pub mod Circuit
pub mod Sizing
pub mod Validity
use crypto_scalper.Prelude.{
  ℕ, ◌+◌, ◌-◌, ◌%◌, ◌^◌, Bool, true, false, not, ◌&&◌, ◌||◌, ltb, leb, if◌then◌else◌, Option, none,
  some, Result, ok, err,
}
use crypto_scalper.Float.{Float, ◌⊕◌, ◌⊖◌, ◌⊗◌, ◌⊘◌, ◌<?◌, ◌≤?◌, dec, lit, nought, clamp}
use crypto_scalper.Text.{Text, text_or_default}
use crypto_scalper.Execution.Tcm.{TransactionCostModel, round_trip_cost_bps}

pub record RiskLimits (F : Type 0) : Type 0 where
  pub risk_per_trade_pct : F
  pub max_open_positions : ℕ  -- u32
  pub max_daily_loss_pct : F
  pub max_drawdown_pct : F
  pub max_leverage : ℕ  -- u32
  pub max_spread_pct : F
  pub min_reward_risk : F
  pub max_position_notional_pct : F
  pub min_net_edge_bps : F
  pub assumed_daily_volume_usd : F

-- `Inner`.
pub record RiskManager (F : Type 0) : Type 0 where
  pub limits : RiskLimits F
  pub equity : F
  pub peak_equity : F
  pub open_positions : ℕ  -- u32
  pub realized_pnl_today : F
  pub tripped : Bool
  pub trip_reason : Option (Text F)
  pub frozen : Bool
  pub freeze_reason : Option (Text F)
  pub size_multiplier : F
  pub initial_equity : F

pub record RiskSnapshot (F : Type 0) : Type 0 where
  pub equity : F
  pub peak_equity : F
  pub open_positions : ℕ
  pub realized_pnl_today : F
  pub daily_loss_pct : F
  pub drawdown_pct : F
  pub tripped : Bool
  pub trip_reason : Option (Text F)
  pub frozen : Bool
  pub freeze_reason : Option (Text F)

module _ {F : Type 0} ⦃f : Float F⦄ where
  unfoldable pub new : RiskLimits F → F → RiskManager F
  new limits equity = record {
    limits = limits;
    equity = equity;
    peak_equity = equity;
    open_positions = 0;
    realized_pnl_today = nought;
    tripped = false;
    trip_reason = none;
    frozen = false;
    freeze_reason = none;
    size_multiplier = lit 1;
    initial_equity = equity;
  }

  unfoldable pub set_equity : F → RiskManager F → RiskManager F
  set_equity equity i = record i {
    equity = equity;
    peak_equity = if i.peak_equity <? equity then equity else i.peak_equity;
  }

  unfoldable pub set_size_multiplier : F → RiskManager F → RiskManager F
  set_size_multiplier m i = record i { size_multiplier = clamp m nought (lit 2) }

  unfoldable pub freeze : Text F → RiskManager F → RiskManager F
  freeze reason i = record i { frozen = true; freeze_reason = some reason }

  unfoldable pub unfreeze : RiskManager F → RiskManager F
  unfreeze i = record i { frozen = false; freeze_reason = none }

  unfoldable pub is_blocked : RiskManager F → Bool
  is_blocked i = i.tripped || i.frozen

  -- The drawdown from the peak in percent, as `snapshot`, `can_open_position` and
  -- `on_position_closed` compute it.
  unfoldable pub drawdown_of : RiskManager F → F
  drawdown_of i =
      if nought <? i.peak_equity
      then f.max ((i.peak_equity ⊖ i.equity) ⊘ i.peak_equity ⊗ lit 100) nought
      else nought

  -- The loss of the day in percent, as `snapshot` and `on_position_closed` compute it.
  unfoldable pub daily_loss_of : RiskManager F → F
  daily_loss_of i =
      if nought <? i.equity && i.realized_pnl_today <? nought
      then f.neg i.realized_pnl_today ⊘ i.equity ⊗ lit 100
      else nought

  unfoldable pub snapshot : RiskManager F → RiskSnapshot F
  snapshot i = record {
    equity = i.equity;
    peak_equity = i.peak_equity;
    open_positions = i.open_positions;
    realized_pnl_today = i.realized_pnl_today;
    daily_loss_pct = daily_loss_of i;
    drawdown_pct = drawdown_of i;
    tripped = i.tripped;
    trip_reason = i.trip_reason;
    frozen = i.frozen;
    freeze_reason = i.freeze_reason;
  }

  unfoldable pub can_open_position : RiskManager F → Result (Unit {0}) (Text F)
  can_open_position i =
      if i.tripped
      then err (Text.circuit_tripped (text_or_default i.trip_reason))
      else if i.frozen
      then err (Text.frozen_by (text_or_default i.freeze_reason))
      else if leb i.limits.max_open_positions i.open_positions
      then err (Text.open_positions_at i.open_positions i.limits.max_open_positions)
      else if i.limits.max_drawdown_pct ≤? drawdown_of i
      then err (Text.drawdown_at_limit (drawdown_of i))
      else if i.realized_pnl_today <? nought
          && i.limits.max_daily_loss_pct ≤? f.neg i.realized_pnl_today ⊘ i.equity ⊗ lit 100
      then err Text.daily_loss_reached
      else ok tt

  -- The three caps of a size, and their combination: `validate_signal` and `calculate_size` both
  -- compute it from the distance of the stop.
  unfoldable pub risk_size : RiskManager F → F → F
  risk_size i risk_per_unit =
      i.equity ⊗ i.limits.risk_per_trade_pct ⊘ lit 100 ⊗ i.size_multiplier ⊘ risk_per_unit

  unfoldable pub leverage_cap : RiskManager F → F → F
  leverage_cap i entry = i.equity ⊗ f.of_ℕ i.limits.max_leverage ⊘ f.max entry (dec 1 9)

  unfoldable pub notional_cap : RiskManager F → F → F
  notional_cap i entry =
      i.equity ⊗ i.limits.max_position_notional_pct ⊘ lit 100 ⊘ f.max entry (dec 1 9)

  unfoldable pub capped_size : RiskManager F → F → F → F
  capped_size i entry risk_per_unit =
      f.max
        (f.min (f.min (risk_size i risk_per_unit) (leverage_cap i entry)) (notional_cap i entry))
        nought

  unfoldable pub net_edge_bps : RiskManager F → F → F → F → TransactionCostModel F → F
  net_edge_bps i entry risk_per_unit reward_per_unit tcm =
      reward_per_unit ⊘ entry ⊗ lit 10000
      ⊖ round_trip_cost_bps tcm (capped_size i entry risk_per_unit ⊗ entry)
          i.limits.assumed_daily_volume_usd

  -- The spread test, which a missing quote passes.
  unfoldable pub spread_too_wide : RiskManager F → Option F → Option F
  spread_too_wide i none = none
  spread_too_wide i (some spread) = if i.limits.max_spread_pct <? spread then some spread else none

  -- The last gate, which a limit that is not positive turns off.
  unfoldable pub edge_gate :
      RiskManager F → F → F → F → TransactionCostModel F → Result (Unit {0}) (Text F)
  edge_gate i entry risk_per_unit reward_per_unit tcm =
      let net = net_edge_bps i entry risk_per_unit reward_per_unit tcm in
      if nought <? i.limits.min_net_edge_bps && net <? i.limits.min_net_edge_bps
      then err (Text.net_edge_low net i.limits.min_net_edge_bps)
      else ok tt

  unfoldable pub validate_signal :
      RiskManager F → F → F → F → Option F → TransactionCostModel F → Result (Unit {0}) (Text F)
  validate_signal i entry stop_loss take_profit spread_pct tcm =
      let risk_per_unit = f.abs (entry ⊖ stop_loss) in
      let reward_per_unit = f.abs (take_profit ⊖ entry) in
      let rr = reward_per_unit ⊘ risk_per_unit in
      if entry ≤? nought || risk_per_unit ≤? nought
      then err Text.invalid_distance
      else if rr <? i.limits.min_reward_risk
      then err (Text.reward_risk_low rr i.limits.min_reward_risk)
      else elim (spread_too_wide i spread_pct) [
        | some spread ↦ err (Text.spread_wide spread i.limits.max_spread_pct)
        | none ↦ edge_gate i entry risk_per_unit reward_per_unit tcm
      ]

  unfoldable pub calculate_size : RiskManager F → F → F → F
  calculate_size i entry stop_loss =
      let risk_per_unit = f.abs (entry ⊖ stop_loss) in
      if risk_per_unit ≤? nought then nought else capped_size i entry risk_per_unit

  -- `+= 1` on a `u32` wraps in a release build.
  unfoldable pub on_position_opened : RiskManager F → RiskManager F
  on_position_opened i = record i { open_positions = (i.open_positions + 1) % 2 ^ 32 }

  -- The first half of `on_position_closed`: the counters and the peak.
  unfoldable pub book_pnl : F → RiskManager F → RiskManager F
  book_pnl realized_pnl i =
      let equity = i.equity ⊕ realized_pnl in
      record i {
        open_positions = if ltb 0 i.open_positions then i.open_positions - 1 else i.open_positions;
        realized_pnl_today = i.realized_pnl_today ⊕ realized_pnl;
        equity = equity;
        peak_equity = if i.peak_equity <? equity then equity else i.peak_equity;
      }

  unfoldable pub trip_on_drawdown : RiskManager F → RiskManager F
  trip_on_drawdown i =
      if i.limits.max_drawdown_pct ≤? drawdown_of i && not i.tripped
      then record i { tripped = true; trip_reason = some (Text.max_drawdown (drawdown_of i)) }
      else i

  unfoldable pub trip_on_daily_loss : RiskManager F → RiskManager F
  trip_on_daily_loss i =
      if i.limits.max_daily_loss_pct ≤? daily_loss_of i && not i.tripped
      then record i { tripped = true; trip_reason = some (Text.daily_loss (daily_loss_of i)) }
      else i

  unfoldable pub on_position_closed : F → RiskManager F → RiskManager F
  on_position_closed realized_pnl i =
      trip_on_daily_loss (trip_on_drawdown (book_pnl realized_pnl i))

  unfoldable pub reset_daily : RiskManager F → RiskManager F
  reset_daily i = record i { realized_pnl_today = nought; tripped = false; trip_reason = none }

-- The calls that change the state.
pub data RiskCall (F : Type 0) : Type 0 where
  set_equity_to : F → RiskCall F
  set_multiplier_to : F → RiskCall F
  freeze_for : Text F → RiskCall F
  lift_freeze : RiskCall F
  opened : RiskCall F
  closed : F → RiskCall F
  new_day : RiskCall F

module _ {F : Type 0} ⦃f : Float F⦄ where
  unfoldable pub apply : RiskCall F → RiskManager F → RiskManager F
  apply (set_equity_to e) i = set_equity e i
  apply (set_multiplier_to m) i = set_size_multiplier m i
  apply (freeze_for r) i = freeze r i
  apply lift_freeze i = unfreeze i
  apply opened i = on_position_opened i
  apply (closed pnl) i = on_position_closed pnl i
  apply new_day i = reset_daily i
