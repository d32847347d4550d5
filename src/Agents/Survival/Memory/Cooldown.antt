-- ===== src/Agents/Survival/Memory/Cooldown.antt =====
-- The cooldowns of src/agents/survival.rs: a loss never shortens one, and a streak starts one.
use crypto_scalper.Prelude.{
  if◌then◌else◌, ◌+◌, ◌<◌, ◌≤◌, ◌^◌, leb, ◌^◌, ◌<◌, ◌+◌, leb, Bool, ◌≤◌, true, false, Option-cases,
  inl, inr, ◌≡◌, inl, inr, false, Option, none, some, arith, Option-cases, string_eq,
}
use crypto_scalper.Float.{◌<?◌, nought, ◌≺◌, Float}
use crypto_scalper.Time.{Time, IsTimeline}
use crypto_scalper.Text.{Text}
use crypto_scalper.Agents.Survival.Memory.{
  count_loss, losses_in_window, book_close, roll_over, long_cooldown, daily_cooldown,
  on_position_closed, SurvivalCfg, SurvivalInner, ends_before, extend_cooldown, short_cooldown,
}

-- A cooldown that lasts at least until the instant.
abbrev pub IsCoveredBy : {T : Type 0} ⦃t : Time T⦄ → T → Option T → Type 0
IsCoveredBy until none = ⊥
IsCoveredBy ⦃t⦄ until (some c) = t.after until c ≡ false

module _ {F T : Type 0} ⦃f : Float F⦄ ⦃t : Time T⦄ (line : IsTimeline T) where
  extend_cooldown-starts :
      (until : T) (reason : Text F) (g : SurvivalInner F T)
      → IsCoveredBy until (extend_cooldown until reason g).cooldown_until
  unfolding extend_cooldown ends_before
  extend_cooldown-starts until reason g = ground (arith, line.after_irrefl until)

  extend_cooldown-covers :
      (until other : T) (reason : Text F) (g : SurvivalInner F T)
      → IsCoveredBy until g.cooldown_until
      → IsCoveredBy until (extend_cooldown other reason g).cooldown_until
  unfolding extend_cooldown ends_before
  extend_cooldown-covers until other reason g h = elim (Option-cases g.cooldown_until) [
    | inl e ↦ absurd (rw e at h)
    | inr (c, e) ↦ ground (arith, line.after_trans until other c)
  ]

  -- An operation that never shortens a cooldown.
  abbrev Keeps : (SurvivalInner F T → SurvivalInner F T) → Type 0
  Keeps step =
      (until : T) (g : SurvivalInner F T)
      → IsCoveredBy until g.cooldown_until
      → IsCoveredBy until (step g).cooldown_until

  if-covers :
      (b : Bool) (until : T) (new old : SurvivalInner F T)
      → IsCoveredBy until new.cooldown_until
      → IsCoveredBy until old.cooldown_until
      → IsCoveredBy until (if b then new else old).cooldown_until
  if-covers true until new old h k = h
  if-covers false until new old h k = k

  short_cooldown-Keeps : (cfg : SurvivalCfg F) (now : T) → Keeps (short_cooldown cfg now)
  unfolding short_cooldown
  short_cooldown-Keeps cfg now until g h =
      if-covers _ until _ g (extend_cooldown-covers until _ _ g h) h

  long_cooldown-Keeps : (cfg : SurvivalCfg F) (now : T) → Keeps (long_cooldown cfg now)
  unfolding long_cooldown
  long_cooldown-Keeps cfg now until g h =
      if-covers _ until _ g (extend_cooldown-covers until _ _ g h) h

  daily_cooldown-Keeps : (cfg : SurvivalCfg F) (now : T) → Keeps (daily_cooldown cfg now)
  unfolding daily_cooldown
  daily_cooldown-Keeps cfg now until g h =
      if-covers _ until _ g (extend_cooldown-covers until _ _ g h) h

  roll_over-Keeps : (now : T) → Keeps (roll_over now)
  unfolding roll_over
  roll_over-Keeps now until g h = if-covers _ until g _ h h

  -- Booking a closed trade, with a win or a loss, never shortens a cooldown that is set.
  on_position_closed-keeps :
      (cfg : SurvivalCfg F) (now : T) (pnl : F) (until : T) (g : SurvivalInner F T)
      → IsCoveredBy until g.cooldown_until
      → IsCoveredBy until (on_position_closed cfg now pnl g).cooldown_until
  unfolding on_position_closed book_close count_loss
  on_position_closed-keeps cfg now pnl until g h =
      let booked = roll_over-Keeps now until g h in
      if-covers (pnl <? nought) until _ _
        (daily_cooldown-Keeps cfg now until _
          (long_cooldown-Keeps cfg now until _ (short_cooldown-Keeps cfg now until _ booked)))
        booked

  short_cooldown-starts :
      (cfg : SurvivalCfg F) (now : T) (g : SurvivalInner F T)
      → cfg.loss_streak_short ≤ g.consecutive_losses
      → IsCoveredBy
          (t.add_minutes now cfg.loss_streak_short_cooldown_min)
          (short_cooldown cfg now g).cooldown_until
  unfolding short_cooldown
  short_cooldown-starts cfg now g h =
      let passes : leb cfg.loss_streak_short g.consecutive_losses ≡ true = ground arith in
      rw passes (extend_cooldown-starts _ _ g)

  long_cooldown-starts :
      (cfg : SurvivalCfg F) (now : T) (g : SurvivalInner F T)
      → cfg.loss_streak_long ≤ losses_in_window cfg now g
      → IsCoveredBy
          (t.add_minutes now cfg.loss_streak_long_cooldown_min)
          (long_cooldown cfg now g).cooldown_until
  unfolding long_cooldown
  long_cooldown-starts cfg now g h =
      let passes : leb cfg.loss_streak_long (losses_in_window cfg now g) ≡ true = ground arith in
      rw passes (extend_cooldown-starts _ _ g)

  counted :
      (cfg : SurvivalCfg F) (now : T) (pnl : F) (g : SurvivalInner F T)
      → g.consecutive_losses + 1 < 2 ^ 32
      → cfg.loss_streak_short ≤ g.consecutive_losses + 1
      → cfg.loss_streak_short
        ≤ (count_loss now (book_close now pnl (roll_over now g))).consecutive_losses
  unfolding count_loss book_close roll_over
  counted cfg now pnl g small limit = ground arith

  -- A loss that brings the streak to its limit starts a cooldown that lasts at least the configured
  -- minutes from now; the streak before it is a counter below the largest `u32`.
  pub streak_starts_cooldown :
      (cfg : SurvivalCfg F) (now : T) (pnl : F) (g : SurvivalInner F T)
      → pnl ≺ nought
      → g.consecutive_losses + 1 < 2 ^ 32
      → cfg.loss_streak_short ≤ g.consecutive_losses + 1
      → IsCoveredBy
          (t.add_minutes now cfg.loss_streak_short_cooldown_min)
          (on_position_closed cfg now pnl g).cooldown_until
  unfolding on_position_closed
  streak_starts_cooldown cfg now pnl g loss small limit =
      let until = t.add_minutes now cfg.loss_streak_short_cooldown_min in
      let h = count_loss now (book_close now pnl (roll_over now g)) in
      rw loss (
        daily_cooldown-Keeps cfg now until _ (
          long_cooldown-Keeps cfg now until _
            (short_cooldown-starts cfg now h (counted cfg now pnl g small limit))))

  recent_closes-short_cooldown :
      (cfg : SurvivalCfg F) (now : T) (g : SurvivalInner F T)
      → (short_cooldown cfg now g).recent_closes ≡ g.recent_closes
  unfolding short_cooldown extend_cooldown
  recent_closes-short_cooldown cfg now g = ground arith

  losses_in_window-short_cooldown :
      (cfg : SurvivalCfg F) (now : T) (g : SurvivalInner F T)
      → losses_in_window cfg now (short_cooldown cfg now g) ≡ losses_in_window cfg now g
  unfolding losses_in_window
  losses_in_window-short_cooldown cfg now g = rw (recent_closes-short_cooldown cfg now g)

  -- A loss after which the trades inside the long window hold their limit of losses starts a cooldown
  -- that lasts at least the configured minutes from now.
  window_starts_cooldown :
      (cfg : SurvivalCfg F) (now : T) (pnl : F) (g : SurvivalInner F T)
      → pnl ≺ nought
      → cfg.loss_streak_long
        ≤ losses_in_window cfg now (count_loss now (book_close now pnl (roll_over now g)))
      → IsCoveredBy
          (t.add_minutes now cfg.loss_streak_long_cooldown_min)
          (on_position_closed cfg now pnl g).cooldown_until
  unfolding on_position_closed
  window_starts_cooldown cfg now pnl g loss limit =
      let until = t.add_minutes now cfg.loss_streak_long_cooldown_min in
      let h = count_loss now (book_close now pnl (roll_over now g)) in
      rw loss (
        daily_cooldown-Keeps cfg now until _ (
          long_cooldown-starts cfg now (short_cooldown cfg now h)
            (rw (losses_in_window-short_cooldown cfg now h) limit)))
