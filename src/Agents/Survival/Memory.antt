-- ===== src/Agents/Survival/Memory.antt =====
-- src/agents/survival.rs: the memory of closed trades, and the cooldowns that losses start.
-- `SurvivalInner` is behind a lock that each function holds for its whole body.
pub mod Cooldown
use crypto_scalper.Prelude.{
  ℕ, zero, suc, ◌+◌, ◌-◌, ◌*◌, ◌/◌, ◌%◌, ◌^◌, ◌≤◌, ◌<◌, String, ◌≡◌, refl, sym, ap, ◌∙◌, ◌≢◌, ◌↔◌,
  ◌⊎◌, inl, inr, Bool, true, false, not, ◌&&◌, ◌||◌, Option, none, some, List, [], ◌∷◌, ◌++◌, map,
  arith, ltb, leb, ◌==◌, if◌then◌else◌, Bool-cases, Option-cases, Result, ok, err, Eq, string_eq,
  is_some, length, get_elem?, set, take_while, drop_while, take, length-append, filter, All,
  All-append,
}
use crypto_scalper.Prelude.Int.{
  ℤ, pos, negsuc, pos_part, neg_part, ◌+ℤ◌, ◌-ℤ◌, ◌≤ℤ◌, ◌<ℤ◌, ltb_ℤ, leb_ℤ, min_ℤ, clamp_ℤ,
}
use crypto_scalper.Prelude.Dict.{
  Dict, lookup, insert, remove, lookup-insert, lookup-remove, lookup-insert_self, beq_refl,
  IsDistinct, insert-IsDistinct,
}
use crypto_scalper.Float.{
  Float, ◌⊕◌, ◌⊖◌, ◌⊗◌, ◌⊘◌, ◌<?◌, ◌≤?◌, ◌≺◌, ◌≼◌, dec, lit, nought, clamp, IsNumber, IsFinite,
}
use crypto_scalper.Float.Laws.{IsOrdered, IsRounded}
use crypto_scalper.Time.{Time, IsTimeline}
use crypto_scalper.Text.{Text, text_or_default}
use crypto_scalper.Data.Types.{Side, long, short, Candle, Trade}
use mathlib.Core.List.{reverse}
use crypto_scalper.Agents.Messages.{SurvivalState}

-- `SurvivalCfg` of src/config.rs.
pub record SurvivalCfg (F : Type 0) : Type 0 where
  pub enabled : Bool
  pub death_line_pct : F
  pub loss_streak_short : ℕ
  pub loss_streak_short_cooldown_min : ℕ
  pub loss_streak_long : ℕ
  pub loss_streak_long_window_min : ℕ
  pub loss_streak_long_cooldown_min : ℕ
  pub daily_loss_count : ℕ
  pub auto_flat_drawdown_pct : F
  pub refresh_secs : ℕ
  pub equity_refresh_secs : ℕ
  pub vol_spike_mult : F
  pub news_panic_threshold : F
  pub news_euphoria_threshold : F
  pub daily_pnl_ratchet_pct : F

pub record SurvivalInner (F T : Type 0) : Type 0 where
  pub consecutive_losses : ℕ  -- u32
  pub last_loss_at : Option T
  pub recent_closes : List (T × F)
  pub cooldown_until : Option T
  pub cooldown_reason : Option (Text F)
  pub last_flat_at : Option T
  pub current_day : ℕ
  pub daily_loss_count : ℕ  -- u32
  pub daily_pnl : F
  pub daily_peak_equity : F
  pub news_score : F
  pub funding_rate : F
  pub last_state : Option (SurvivalState F T)
  pub pnl_history : List F

abbrev pub u32 : ℕ → ℕ
u32 n = n % 2 ^ 32

-- `Vec::remove(0)` when the history is longer than 200.
abbrev pub cap_history : {F : Type 0} → List F → List F
cap_history [] = []
cap_history (x ∷ xs) = if ltb 200 (length (x ∷ xs)) then xs else x ∷ xs

-- `cooldown_until.map(|t| t < until).unwrap_or(true)`.
unfoldable pub ends_before : {T : Type 0} ⦃t : Time T⦄ → Option T → T → Bool
ends_before none until = true
ends_before ⦃t⦄ (some c) until = t.after until c

module _ {F T : Type 0} ⦃f : Float F⦄ ⦃t : Time T⦄ where
  unfoldable pub roll_over : T → SurvivalInner F T → SurvivalInner F T
  roll_over now g =
      if t.date_naive now == g.current_day
      then g
      else record g { current_day = t.date_naive now; daily_loss_count = 0; daily_pnl = nought }

  unfoldable pub book_close : T → F → SurvivalInner F T → SurvivalInner F T
  book_close now pnl g = record g {
    daily_pnl = g.daily_pnl ⊕ pnl;
    recent_closes =
        drop_while (λ c. t.elapsed_gt_hours now c.0 24) (g.recent_closes ++ ((now, pnl) ∷ []));
    pnl_history = cap_history (g.pnl_history ++ (pnl ∷ []));
  }

  unfoldable pub count_loss : T → SurvivalInner F T → SurvivalInner F T
  count_loss now g = record g {
    consecutive_losses = u32 (g.consecutive_losses + 1);
    last_loss_at = some now;
    daily_loss_count = u32 (g.daily_loss_count + 1);
  }

  unfoldable pub extend_cooldown : T → Text F → SurvivalInner F T → SurvivalInner F T
  extend_cooldown until reason g =
      if ends_before g.cooldown_until until
      then record g { cooldown_until = some until; cooldown_reason = some reason }
      else g

  unfoldable pub short_cooldown : SurvivalCfg F → T → SurvivalInner F T → SurvivalInner F T
  short_cooldown cfg now g =
      if leb cfg.loss_streak_short g.consecutive_losses
      then extend_cooldown (t.add_minutes now cfg.loss_streak_short_cooldown_min)
          (Text.losses_in_a_row g.consecutive_losses cfg.loss_streak_short_cooldown_min) g
      else g

  unfoldable pub losses_in_window : SurvivalCfg F → T → SurvivalInner F T → ℕ
  losses_in_window cfg now g = u32 (
      length (
        filter (λ c. c.1 <? nought)
          (take_while (λ c. t.elapsed_le_minutes now c.0 cfg.loss_streak_long_window_min)
            (reverse g.recent_closes))))

  unfoldable pub long_cooldown : SurvivalCfg F → T → SurvivalInner F T → SurvivalInner F T
  long_cooldown cfg now g =
      let losses = losses_in_window cfg now g in
      if leb cfg.loss_streak_long losses
      then extend_cooldown (t.add_minutes now cfg.loss_streak_long_cooldown_min)
          (Text.losses_in_window losses cfg.loss_streak_long_window_min
            (cfg.loss_streak_long_cooldown_min / 60))
          g
      else g

  unfoldable pub daily_cooldown : SurvivalCfg F → T → SurvivalInner F T → SurvivalInner F T
  daily_cooldown cfg now g =
      if leb cfg.daily_loss_count g.daily_loss_count
      then extend_cooldown (t.add_hours now 24) (Text.losses_today g.daily_loss_count) g
      else g

  unfoldable pub on_position_closed : SurvivalCfg F → T → F → SurvivalInner F T → SurvivalInner F T
  on_position_closed cfg now pnl g =
      let b = book_close now pnl (roll_over now g) in
      if pnl <? nought
      then daily_cooldown cfg now
          (long_cooldown cfg now (short_cooldown cfg now (count_loss now b)))
      else record b { consecutive_losses = 0 }
