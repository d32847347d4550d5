-- ===== src/Agents/Survival/Agent/Safety.antt =====
-- What the survival agent of src/agents/survival.rs guarantees across its memory, its state and the
-- risk manager.
use crypto_scalper.Prelude.{
  refl, ◌∙◌, ℕ, ◌+◌, ◌^◌, ◌≤◌, ◌<◌, ◌≡◌, ◌≢◌, inl, inr, Bool, true, false, some, [], ◌∷◌, arith,
  Option-cases, string_eq,
}
use crypto_scalper.Prelude.Int.{pos, ltb_ℤ}
use crypto_scalper.Float.{Float, ◌⊗◌, ◌≺◌, ◌≼◌, nought}
use crypto_scalper.Time.{Time, IsTimeline}
use crypto_scalper.Text.{Text}
use crypto_scalper.Execution.Risk.{RiskSnapshot, snapshot, is_blocked}
use crypto_scalper.Agents.Messages.{dead, SurvivalState, flat_all}
use crypto_scalper.Agents.Survival.Memory.{
  SurvivalCfg, SurvivalInner, on_position_closed, roll_over, book_close, count_loss,
  extend_cooldown, short_cooldown, long_cooldown, daily_cooldown,
}
use crypto_scalper.Agents.Survival.Memory.Cooldown.{IsCoveredBy, streak_starts_cooldown}
use crypto_scalper.Agents.Survival.Score.{is_cooling}
use crypto_scalper.Agents.Survival.State.{recompute, mode_of, state_of, refresh_peak}
use crypto_scalper.Agents.Survival.State.Modes.{
  is_cooling-refresh_peak, trades, apply_state-frozen, dead_iff,
}
use crypto_scalper.Agents.Survival.Agent.{
  World, command, survival_updated, Clock, is_recent, maybe_publish_flat_all, flat_reason,
  flatten_if, handle_close, handle, position_closed,
}

idle_when_cooling : (a b c : Bool) (score : ℕ) → b ≡ true → trades (mode_of a b c score) ≡ false
unfolding mode_of
idle_when_cooling a b c score h = ground arith

module _ {F T : Type 0} ⦃f : Float F⦄ ⦃t : Time T⦄ where
  idle_state :
      (cfg : SurvivalCfg F) (now : T) (initial : F) (snap : RiskSnapshot F) (g : SurvivalInner F T)
      → is_cooling now g ≡ true
      → trades (recompute cfg now initial snap g).1.mode ≡ false
  unfolding recompute state_of
  idle_state cfg now initial snap g h =
      idle_when_cooling _ (is_cooling now (refresh_peak snap.equity g)) _ _
        (is_cooling-refresh_peak now snap.equity g ∙ h)

  handle_close-blocks :
      (cfg : SurvivalCfg F) (initial : F) (clock : Clock T) (pnl : F) (w : World F T)
      → is_cooling clock.computing (on_position_closed cfg clock.booking pnl w.inner) ≡ true
      → is_blocked (handle cfg initial clock (position_closed pnl) w).0.risk ≡ true
  unfolding handle handle_close is_blocked
  handle_close-blocks cfg initial clock pnl w h =
      let g = on_position_closed cfg clock.booking pnl w.inner in
      let s = (recompute cfg clock.computing initial (snapshot w.risk) g).1 in
      ground (
        arith,
        idle_state cfg clock.computing initial (snapshot w.risk) g h,
        (apply_state-frozen s w.risk).0,
      )

  module _ (line : IsTimeline T) where
    covered-is_cooling :
        (until now : T) (g : SurvivalInner F T)
        → IsCoveredBy until g.cooldown_until
        → t.after until now ≡ true
        → is_cooling now g ≡ true
    unfolding is_cooling
    covered-is_cooling until now g c h = elim (Option-cases g.cooldown_until) [
      | inl e ↦ absurd (rw e at c)
      | inr (d, e) ↦ ground (arith, line.after_split until now d)
    ]

    -- When the loss that completes a losing streak is handled, and the configured pause from the
    -- booking has not passed when the state is computed, the risk manager blocks entries afterwards.
    pub streak_blocks :
        (cfg : SurvivalCfg F) (initial : F) (clock : Clock T) (pnl : F) (w : World F T)
        → pnl ≺ nought
        → w.inner.consecutive_losses + 1 < 2 ^ 32
        → cfg.loss_streak_short ≤ w.inner.consecutive_losses + 1
        → t.after (t.add_minutes clock.booking cfg.loss_streak_short_cooldown_min) clock.computing
          ≡ true
        → is_blocked (handle cfg initial clock (position_closed pnl) w).0.risk ≡ true
    streak_blocks cfg initial clock pnl w loss small limit early =
        handle_close-blocks cfg initial clock pnl w (
          covered-is_cooling _ clock.computing _
            (streak_starts_cooldown line cfg clock.booking pnl w.inner loss small limit) early)

  -- Two flat-alls less than a minute apart: if the first call published one, the second publishes
  -- nothing and changes nothing.
  flat_throttled :
      (now later : T) (first second : Text F) (g : SurvivalInner F T)
      → let (h, out) = maybe_publish_flat_all now first g in
        out ≢ []
        → ltb_ℤ (t.num_seconds later now) (pos 60) ≡ true
        → maybe_publish_flat_all later second h ≡ (h, [])
  unfolding maybe_publish_flat_all is_recent
  flat_throttled now later first second g published soon = ground arith

  -- The time of the last flat-all, which booking a trade leaves alone.
  extend_cooldown-last_flat_at :
      (until : T) (reason : Text F) (g : SurvivalInner F T)
      → (extend_cooldown until reason g).last_flat_at ≡ g.last_flat_at
  unfolding extend_cooldown
  extend_cooldown-last_flat_at until reason g = ground arith

  short_cooldown-last_flat_at :
      (cfg : SurvivalCfg F) (now : T) (g : SurvivalInner F T)
      → (short_cooldown cfg now g).last_flat_at ≡ g.last_flat_at
  unfolding short_cooldown extend_cooldown
  short_cooldown-last_flat_at cfg now g = ground arith

  long_cooldown-last_flat_at :
      (cfg : SurvivalCfg F) (now : T) (g : SurvivalInner F T)
      → (long_cooldown cfg now g).last_flat_at ≡ g.last_flat_at
  unfolding long_cooldown extend_cooldown
  long_cooldown-last_flat_at cfg now g = ground arith

  daily_cooldown-last_flat_at :
      (cfg : SurvivalCfg F) (now : T) (g : SurvivalInner F T)
      → (daily_cooldown cfg now g).last_flat_at ≡ g.last_flat_at
  unfolding daily_cooldown extend_cooldown
  daily_cooldown-last_flat_at cfg now g = ground arith

  on_position_closed-last_flat_at :
      (cfg : SurvivalCfg F) (now : T) (pnl : F) (g : SurvivalInner F T)
      → (on_position_closed cfg now pnl g).last_flat_at ≡ g.last_flat_at
  unfolding on_position_closed count_loss book_close roll_over
  on_position_closed-last_flat_at cfg now pnl g =
      let b = count_loss now (book_close now pnl (roll_over now g)) in
      ground (
        arith,
        daily_cooldown-last_flat_at cfg now (long_cooldown cfg now (short_cooldown cfg now b)),
        long_cooldown-last_flat_at cfg now (short_cooldown cfg now b),
        short_cooldown-last_flat_at cfg now b,
      )

  recompute-last_flat_at :
      (cfg : SurvivalCfg F) (now : T) (initial : F) (snap : RiskSnapshot F) (g : SurvivalInner F T)
      → (recompute cfg now initial snap g).0.last_flat_at ≡ g.last_flat_at
  unfolding recompute refresh_peak
  recompute-last_flat_at cfg now initial snap g = refl

  -- When a closed position leaves the equity at or below the death line, and the last flat-all is not
  -- less than a minute old, the handler publishes a flat-all and then a dead state, remembers the
  -- time, and leaves the risk manager frozen.
  pub death_flattens :
      (cfg : SurvivalCfg F) (initial : F) (clock : Clock T) (pnl : F) (w : World F T)
      → w.risk.equity ≼ initial ⊗ cfg.death_line_pct
      → is_recent clock.publishing w.inner.last_flat_at ≡ false
      → let (v, out) = handle cfg initial clock (position_closed pnl) w in
        (s : SurvivalState F T) × (out
          ≡ command (flat_all (Text.plain "death-line breached — bot will freeze"))
            ∷ survival_updated s
            ∷ [])
        × (s.mode ≡ dead)
        × (v.inner.last_flat_at ≡ some clock.publishing)
        × (v.risk.frozen ≡ true)
  unfolding handle handle_close flat_reason flatten_if maybe_publish_flat_all snapshot
  death_flattens cfg initial clock pnl w low old =
      let g = on_position_closed cfg clock.booking pnl w.inner in
      let snap = snapshot w.risk in
      let s = (recompute cfg clock.computing initial snap g).1 in
      let dying : s.mode ≡ dead = (dead_iff cfg clock.computing initial snap g).1 low in
      let idle : is_recent clock.publishing
            (recompute cfg clock.computing initial snap g).0.last_flat_at
          ≡ false =
        rw
          (
            recompute-last_flat_at cfg clock.computing initial snap g,
            on_position_closed-last_flat_at cfg clock.booking pnl w.inner,
          )
          old in
      (s, ground arith, dying, ground arith, ground (arith, (apply_state-frozen s w.risk).0))
