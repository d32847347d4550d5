-- ===== src/Agents/Survival/State.antt =====
-- src/agents/survival.rs: the survival state, `recompute` and `apply_state`.
pub mod Modes
use crypto_scalper.Execution.Risk.{RiskManager, unfreeze, set_size_multiplier, RiskSnapshot}
use crypto_scalper.Execution.Risk
use crypto_scalper.Text.{Text}
use crypto_scalper.Agents.Messages.{
  mode_str, SurvivalMode, healthy, cautious, defensive, frozen, dead, SurvivalState,
}
use crypto_scalper.Prelude.{ℕ, Bool, ◌||◌, some, ltb, if◌then◌else◌, string_eq}
use crypto_scalper.Prelude.Int.{clamp_ℤ}
use crypto_scalper.Float.{Float, ◌⊗◌, ◌<?◌, ◌≤?◌, dec, lit, nought}
use crypto_scalper.Time.{Time}
use crypto_scalper.Agents.Survival.Memory.{SurvivalCfg, SurvivalInner}
use crypto_scalper.Agents.Survival.Score.{tally, is_cooling, is_ratchet_locked, realized_pct_of}

unfoldable pub mode_of : Bool → Bool → Bool → ℕ → SurvivalMode
mode_of at_death_line in_cooldown ratchet_locked score =
    if at_death_line
    then dead
    else if in_cooldown || ratchet_locked || ltb score 25
    then frozen
    else if ltb score 50
    then defensive
    else if ltb score 80
    then cautious
    else healthy

module _ {F : Type 0} ⦃f : Float F⦄ where
  unfoldable pub multiplier_of : SurvivalMode → F
  multiplier_of healthy = lit 1
  multiplier_of cautious = dec 6 1
  multiplier_of defensive = dec 3 1
  multiplier_of frozen = nought
  multiplier_of dead = nought

module _ {F T : Type 0} ⦃f : Float F⦄ ⦃t : Time T⦄ where
  unfoldable pub state_of :
      SurvivalCfg F → T → F → RiskSnapshot F → SurvivalInner F T → SurvivalState F T
  state_of cfg now initial_equity snap g =
      let death_line = initial_equity ⊗ cfg.death_line_pct in
      let total = tally cfg now initial_equity snap g in
      let score = clamp_ℤ 0 100 total.score in
      let mode =
        mode_of (snap.equity ≤? death_line) (is_cooling now g)
          (is_ratchet_locked cfg snap.realized_pnl_today initial_equity) score in
      record {
        score = score;
        mode = mode;
        equity_usd = snap.equity;
        initial_equity_usd = initial_equity;
        death_line_usd = death_line;
        peak_equity_usd = snap.peak_equity;
        realized_pnl_today = snap.realized_pnl_today;
        realized_pnl_pct_today = realized_pct_of snap.realized_pnl_today initial_equity;
        drawdown_pct = snap.drawdown_pct;
        open_positions = snap.open_positions;
        consecutive_losses = g.consecutive_losses;
        last_loss_at = g.last_loss_at;
        size_multiplier = multiplier_of mode;
        reasons = total.reasons;
        ts = now;
      }

  unfoldable pub refresh_peak : F → SurvivalInner F T → SurvivalInner F T
  refresh_peak equity g = record g {
    daily_peak_equity = if g.daily_peak_equity <? equity then equity else g.daily_peak_equity;
  }

  -- The new memory and the state that is published.
  unfoldable pub recompute :
      SurvivalCfg F
      → T
      → F
      → RiskSnapshot F
      → SurvivalInner F T
      → SurvivalInner F T × SurvivalState F T
  recompute cfg now initial_equity snap g =
      let h = refresh_peak snap.equity g in
      let state = state_of cfg now initial_equity snap h in
      (record h { last_state = some state }, state)

module _ {F : Type 0} ⦃f : Float F⦄ where
  -- The branch of `apply_state` for a mode that trades.
  unfoldable pub lift : RiskManager F → RiskManager F
  lift risk = if risk.frozen then unfreeze risk else risk

  unfoldable pub apply_mode : SurvivalMode → ℕ → RiskManager F → RiskManager F
  apply_mode frozen score risk = Risk.freeze (Text.survival_mode (mode_str frozen) score) risk
  apply_mode dead score risk = Risk.freeze (Text.survival_mode (mode_str dead) score) risk
  apply_mode _ score risk = lift risk

module _ {F T : Type 0} ⦃f : Float F⦄ where
  unfoldable pub apply_state : SurvivalState F T → RiskManager F → RiskManager F
  apply_state state risk =
      apply_mode state.mode state.score (set_size_multiplier state.size_multiplier risk)
