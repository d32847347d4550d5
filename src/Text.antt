-- ===== src/Text.antt =====
-- The texts that the program builds with `format!` or takes as string literals. A constructor stands
-- for one format string and holds its arguments; the program never takes such a text apart.
use crypto_scalper.Prelude.{ℕ, String, List, Option, none, some}
use crypto_scalper.Prelude.Int.{ℤ}

pub data Text (F : Type 0) : Type 0 where
  empty : Text F
  plain : String → Text F
  -- execution/risk.rs
  circuit_tripped : Text F → Text F
  frozen_by : Text F → Text F
  open_positions_at : ℕ → ℕ → Text F
  drawdown_at_limit : F → Text F
  daily_loss_reached : Text F
  invalid_distance : Text F
  reward_risk_low : F → F → Text F
  spread_wide : F → F → Text F
  net_edge_low : F → F → Text F
  max_drawdown : F → Text F
  daily_loss : F → Text F
  -- agents/survival.rs
  losses_in_a_row : ℕ → ℕ → Text F
  losses_in_window : ℕ → ℕ → ℕ → Text F
  losses_today : ℕ → Text F
  drawdown : F → Text F
  daily_loss_of : F → Text F
  consecutive_losses : ℕ → Text F
  cooldown_left : Text F → ℤ → Text F
  news_panic : F → F → Text F
  news_euphoria : F → F → Text F
  at_death_line : F → F → Text F
  above_death_line : F → Text F
  ratchet_locked : F → F → Text F
  monte_carlo : F → F → Text F
  survival_mode : String → ℕ → Text F
  auto_flat : F → F → Text F
  -- agents/risk.rs
  survival : String → Text F
  ta_below : ℕ → ℕ → Text F
  funding : F → Text F
  var_cap : Text F → Text F
  -- agents/watchdog.rs
  stale_agents : List (String × ℤ) → Text F
  -- llm/engine.rs
  ta_confidence : ℕ → Text F
  llm_offline : ℕ → Text F
  -- agents/manager.rs
  survival_score : String → ℕ → Text F
  -- learning/lessons.rs
  hour_drawdown : F → ℕ → Text F
  streak_paused : ℤ → String → String → Text F
  derated : F → String → ℕ → Text F
  boosted : F → F → String → ℕ → Text F
  blacklisted : F → String → String → ℕ → Text F
  overconfident : F → ℕ → Text F
  symbol_loses : String → F → ℕ → F → Text F
  -- quant.rs
  kelly : F → F → F → F → Text F
  kelly_cold : ℕ → ℕ → Text F
  vol_mult : F → Text F
  ic_adj : ℤ → Text F
  corr_penalty : F → Text F
  -- strategy
  lower_touch : F → F → Text F
  upper_touch : F → F → Text F
  long_breakout : F → F → F → Text F
  short_breakout : F → F → F → Text F
  near_vwap : F → F → F → Text F
  ribbon_bull : F → F → Text F
  ribbon_bear : F → F → Text F
  expand_up : F → Text F
  expand_down : F → Text F
  joined : Text F → Text F → Text F  -- with " | " between

-- `Option<String>::unwrap_or_default`.
abbrev pub text_or_default : {F : Type 0} → Option (Text F) → Text F
text_or_default none = empty
text_or_default (some t) = t
