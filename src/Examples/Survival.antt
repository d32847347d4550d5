-- ===== src/Examples/Survival.antt =====
-- The survival agent of src/agents/survival.rs at its default configuration.
use crypto_scalper.Prelude.{
  ℕ, ◌≤◌, ◌≡◌, refl, ◌↔◌, true, false, none, some, [], ◌∷◌, arith, string_eq,
}
use crypto_scalper.Float.{◌≤?◌}
use crypto_scalper.Text.{Text}
use crypto_scalper.Float.Fixed.{Fixed, fixed_float, Fixed-IsOrdered, Fixed-IsRounded}
use crypto_scalper.Time.{seconds_time, seconds-IsTimeline}
use crypto_scalper.Examples.Inputs.{usd, loss, manager}
use crypto_scalper.Execution.Risk.{snapshot, new, is_blocked, freeze}
use crypto_scalper.Agents.Messages.{healthy, dead, SurvivalState, flat_all}
use crypto_scalper.Agents.Survival.Memory.{SurvivalCfg, SurvivalInner}
use crypto_scalper.Agents.Survival.Score.{is_cooling, is_ratchet_locked}
use crypto_scalper.Agents.Survival.State.{recompute, apply_state}
use crypto_scalper.Agents.Survival.State.Modes.{
  trades, trades_iff, ratchet_never_locks, apply_state-frozen, operator_freeze_lost,
}
use crypto_scalper.Agents.Survival.Agent.{
  World, command, survival_updated, Clock, is_recent, handle, position_closed,
}
use crypto_scalper.Agents.Survival.Agent.Safety.{streak_blocks, death_flattens}

abbrev default_cfg : SurvivalCfg Fixed
default_cfg = record {
  enabled = true;
  death_line_pct = fixed_float.dec 7 1;
  loss_streak_short = 3;
  loss_streak_short_cooldown_min = 30;
  loss_streak_long = 5;
  loss_streak_long_window_min = 60;
  loss_streak_long_cooldown_min = 240;
  daily_loss_count = 10;
  auto_flat_drawdown_pct = usd 8;
  refresh_secs = 15;
  equity_refresh_secs = 60;
  vol_spike_mult = usd 2;
  news_panic_threshold = fixed_float.neg (fixed_float.dec 6 1);
  news_euphoria_threshold = fixed_float.dec 8 1;
  daily_pnl_ratchet_pct = usd 2;
}

-- Two losses in a row, four in the last hour.
abbrev memory : SurvivalInner Fixed ℕ
memory = record {
  consecutive_losses = 2;
  last_loss_at = some 9000;
  recent_closes = (8000, loss 1) ∷ (8200, loss 1) ∷ (8800, loss 2) ∷ (9000, loss 3) ∷ [];
  cooldown_until = some 9100;
  cooldown_reason = none;
  last_flat_at = none;
  current_day = 0;
  daily_loss_count = 4;
  daily_pnl = loss 7;
  daily_peak_equity = usd 1000;
  news_score = usd 0;
  funding_rate = usd 0;
  last_state = none;
  pnl_history = loss 1 ∷ loss 1 ∷ loss 2 ∷ loss 3 ∷ [];
}

trades_iff_example :
    let s = (recompute default_cfg 9600 (usd 1000) (snapshot manager) memory).1 in
    (trades s.mode ≡ true)
    ↔ (((usd 1000 ≤? usd 700) ≡ false) × (is_cooling 9600 memory ≡ false) × (25 ≤ s.score))
unfolding snapshot new
trades_iff_example =
    trades_iff Fixed-IsOrdered Fixed-IsRounded default_cfg 9600 (usd 1000) (snapshot manager) memory
      refl refl refl

ratchet_never_locks_example : is_ratchet_locked default_cfg (usd 30) (usd 1000) ≡ false
ratchet_never_locks_example =
    ratchet_never_locks Fixed-IsOrdered Fixed-IsRounded default_cfg (usd 30) (usd 1000) refl refl
      refl

-- A state as `recompute` publishes it after a quiet day.
abbrev calm : SurvivalState Fixed ℕ
calm = record {
  score = 100;
  mode = healthy;
  equity_usd = usd 1000;
  initial_equity_usd = usd 1000;
  death_line_usd = usd 700;
  peak_equity_usd = usd 1000;
  realized_pnl_today = usd 0;
  realized_pnl_pct_today = usd 0;
  drawdown_pct = usd 0;
  open_positions = 0;
  consecutive_losses = 0;
  last_loss_at = none;
  size_multiplier = usd 1;
  reasons = [];
  ts = 9600;
}

apply_state-frozen_example :
    ((apply_state calm manager).frozen ≡ false)
    × ((apply_state calm manager).freeze_reason ≡ none)
    × ((apply_state calm manager).tripped ≡ manager.tripped)
unfolding new
apply_state-frozen_example = apply_state-frozen calm manager

operator_freeze_lost_example :
    ((apply_state calm (freeze (Text.plain "operator command") manager)).frozen ≡ false)
    × ((apply_state calm (freeze (Text.plain "operator command") manager)).freeze_reason ≡ none)
    × (is_blocked (apply_state calm (freeze (Text.plain "operator command") manager)) ≡ false)
unfolding new
operator_freeze_lost_example =
    operator_freeze_lost calm manager (Text.plain "operator command") refl

abbrev clock : Clock ℕ
clock = record { booking = 9600; computing = 9600; publishing = 9601 }

abbrev world : World Fixed ℕ
world = record { inner = memory; risk = manager }

streak_blocks_example :
    is_blocked (handle default_cfg (usd 1000) clock (position_closed (loss 5)) world).0.risk ≡ true
streak_blocks_example =
    streak_blocks seconds-IsTimeline default_cfg (usd 1000) clock (loss 5) world refl (omega arith)
      (omega arith) refl

abbrev ruined : World Fixed ℕ
ruined = record { inner = memory; risk = record manager { equity = usd 600 } }

death_flattens_example :
    let (v, out) = handle default_cfg (usd 1000) clock (position_closed (loss 400)) ruined in
    (s : SurvivalState Fixed ℕ) × (out
      ≡ command (flat_all (Text.plain "death-line breached — bot will freeze"))
        ∷ survival_updated s
        ∷ [])
    × (s.mode ≡ dead)
    × (v.inner.last_flat_at ≡ some 9601)
    × (v.risk.frozen ≡ true)
unfolding is_recent new
death_flattens_example = death_flattens default_cfg (usd 1000) clock (loss 400) ruined refl refl
