-- ===== src/Agents/Survival/State/Modes.antt =====
-- When the survival state of src/agents/survival.rs lets the bot trade.
use crypto_scalper.Prelude.{
  Option, none, some, true, false, if◌then◌else◌, refl, ℕ, ◌≤◌, ◌<◌, ◌≡◌, ◌↔◌, Bool, not, arith,
  string_eq,
}
use crypto_scalper.Prelude.Int.{ℤ, pos, negsuc, clamp_ℤ}
use crypto_scalper.Float.{Float, ◌⊗◌, ◌⊘◌, ◌≤?◌, ◌≺◌, ◌≼◌, dec, lit, nought, IsNumber, IsFinite}
use crypto_scalper.Float.Laws.{IsOrdered, IsRounded}
use crypto_scalper.Time.{Time}
use crypto_scalper.Text.{Text}
use crypto_scalper.Float.Order.{nought-IsNumber, le_of_not_lt, not_lt_of_le, not_le_of_lt}
use crypto_scalper.Execution.Risk.{
  RiskManager, RiskSnapshot, set_size_multiplier, freeze, unfreeze, is_blocked,
}
use crypto_scalper.Agents.Messages.{
  mode_str, SurvivalMode, healthy, cautious, defensive, frozen, dead, SurvivalState,
}
use crypto_scalper.Agents.Survival.Memory.{SurvivalCfg, SurvivalInner}
use crypto_scalper.Agents.Survival.Score.{tally, is_cooling, is_ratchet_locked, realized_pct_of}
use crypto_scalper.Agents.Survival.State.{
  mode_of, multiplier_of, state_of, lift, apply_mode, apply_state, recompute, refresh_peak,
}

-- The modes in which new entries are allowed.
abbrev pub trades : SurvivalMode → Bool
trades healthy = true
trades cautious = true
trades defensive = true
trades frozen = false
trades dead = false

clamp_le : (x : ℤ) → clamp_ℤ 0 100 x ≤ 100
clamp_le (pos n) = ground arith
clamp_le (negsuc n) = omega arith

graded_mode :
    (a b c : Bool) (score : ℕ)
    → (mode_of a b c score ≡ healthy → 80 ≤ score)
      × (mode_of a b c score ≡ cautious → (50 ≤ score) × (score < 80))
      × (mode_of a b c score ≡ defensive → (25 ≤ score) × (score < 50))
unfolding mode_of
graded_mode a b c score =
    (λ h. ground arith, λ h. (ground arith, ground arith), λ h. (ground arith, ground arith))

trades-mode_of :
    (a b c : Bool) (score : ℕ)
    → c ≡ false
    → (trades (mode_of a b c score) ≡ true) ↔ ((a ≡ false) × (b ≡ false) × (25 ≤ score))
unfolding mode_of
trades-mode_of a b c score h = ground arith

module _ {F : Type 0} ⦃f : Float F⦄ where
  apply_mode-frozen :
      (m : SurvivalMode) (score : ℕ) (risk : RiskManager F)
      → ((apply_mode m score risk).frozen ≡ not (trades m))
        × ((apply_mode m score risk).tripped ≡ risk.tripped)
  unfolding apply_mode lift freeze unfreeze
  apply_mode-frozen m score risk = ground arith

  -- The reason for a freeze that stands in a risk manager of this flag and reason after a state of
  -- this mode and score.
  abbrev pub reason_left : SurvivalMode → ℕ → Bool → Option (Text F) → Option (Text F)
  reason_left m score was_frozen reason =
      if trades m
      then if was_frozen then none else reason
      else some (Text.survival_mode (mode_str m) score)

  apply_mode-freeze_reason :
      (m : SurvivalMode) (score : ℕ) (risk : RiskManager F)
      → (apply_mode m score risk).freeze_reason ≡ reason_left m score risk.frozen risk.freeze_reason
  unfolding apply_mode lift freeze unfreeze
  apply_mode-freeze_reason m score risk = ground arith

module _ {F T : Type 0} ⦃f : Float F⦄ ⦃t : Time T⦄ where
  -- The state is dead exactly when the equity is at or below the death line.
  pub dead_iff :
      (cfg : SurvivalCfg F) (now : T) (initial : F) (snap : RiskSnapshot F) (g : SurvivalInner F T)
      → ((recompute cfg now initial snap g).1.mode ≡ dead)
        ↔ (snap.equity ≼ initial ⊗ cfg.death_line_pct)
  unfolding recompute state_of mode_of
  dead_iff cfg now initial snap g = ground arith

  -- The score is at most 100, and the mode and the multiplier agree with it.
  pub record IsGraded (s : SurvivalState F T) : Type 0 where
    pub at_most : s.score ≤ 100
    pub healthy_high : s.mode ≡ healthy → 80 ≤ s.score
    pub cautious_between : s.mode ≡ cautious → (50 ≤ s.score) × (s.score < 80)
    pub defensive_between : s.mode ≡ defensive → (25 ≤ s.score) × (s.score < 50)
    pub multiplier : s.size_multiplier ≡ multiplier_of s.mode

  -- Whatever the memory and the snapshot, the published score is at most 100, the modes healthy,
  -- cautious and defensive stand only for scores from 80, from 50 below 80 and from 25 below 50,
  -- and the multiplier is that of the mode.
  recompute-IsGraded :
      (cfg : SurvivalCfg F) (now : T) (initial : F) (snap : RiskSnapshot F) (g : SurvivalInner F T)
      → IsGraded (recompute cfg now initial snap g).1
  unfolding recompute state_of
  recompute-IsGraded cfg now initial snap g =
      let h = refresh_peak snap.equity g in
      let score = clamp_ℤ 0 100 (tally cfg now initial snap h).score in
      let (high, between, low) =
        graded_mode (snap.equity ≤? initial ⊗ cfg.death_line_pct) (is_cooling now h)
          (is_ratchet_locked cfg snap.realized_pnl_today initial) score in
      record {
        at_most = clamp_le (tally cfg now initial snap h).score;
        healthy_high = high;
        cautious_between = between;
        defensive_between = low;
        multiplier = refl;
      }

  pub is_cooling-refresh_peak :
      (now : T) (equity : F) (g : SurvivalInner F T)
      → is_cooling now (refresh_peak equity g) ≡ is_cooling now g
  unfolding is_cooling refresh_peak
  is_cooling-refresh_peak now equity g = refl

  -- Applying a state unfreezes or freezes the risk manager by the mode alone: afterwards it is frozen
  -- exactly when the mode does not trade. The reason for an earlier freeze is replaced by that of the
  -- mode, or dropped where the mode trades and the manager was frozen. The circuit is left as it is.
  pub apply_state-frozen :
      (s : SurvivalState F T) (risk : RiskManager F)
      → let after = apply_state s risk in
        (after.frozen ≡ not (trades s.mode))
        × (after.freeze_reason ≡ reason_left s.mode s.score risk.frozen risk.freeze_reason)
        × (after.tripped ≡ risk.tripped)
  unfolding apply_state set_size_multiplier
  apply_state-frozen s risk =
      let (by_mode, circuit) = apply_mode-frozen s.mode s.score _ in
      (by_mode, apply_mode-freeze_reason s.mode s.score _, circuit)

  -- In particular a freeze by the operator is lifted by the next state that trades: the manager is
  -- not frozen, no reason is left, and unless the circuit is tripped entries are no longer blocked.
  pub operator_freeze_lost :
      (s : SurvivalState F T) (risk : RiskManager F) (reason : Text F)
      → trades s.mode ≡ true
      → let after = apply_state s (freeze reason risk) in
        (after.frozen ≡ false) × (after.freeze_reason ≡ none) × (is_blocked after ≡ risk.tripped)
  unfolding is_blocked freeze
  operator_freeze_lost s risk reason h =
      let applied =
        apply_state-frozen s (record risk { frozen = true; freeze_reason = some reason }) in
      (
        ground (arith, applied.0, h),
        ground (arith, applied.1, h),
        ground (arith, applied.0, applied.2, h),
      )

module _ {F : Type 0} ⦃f : Float F⦄ (laws : IsOrdered F) (rounded : IsRounded F) where
  -- The profit ratchet never locks: with a positive threshold there is no profit of the day that is a
  -- number, and no finite initial equity, at which the lock holds.
  pub ratchet_never_locks :
      (cfg : SurvivalCfg F) (realized initial : F)
      → nought ≺ cfg.daily_pnl_ratchet_pct
      → IsNumber realized
      → IsFinite initial
      → is_ratchet_locked cfg realized initial ≡ false
  unfolding is_ratchet_locked realized_pct_of
  ratchet_never_locks cfg realized initial p n fin =
      let zero_number = nought-IsNumber laws in
      let pct = realized ⊘ initial ⊗ lit 100 in
      ground (
        arith,
        not_le_of_lt laws nought cfg.daily_pnl_ratchet_pct p,
        rounded.half-le realized,
        not_lt_of_le laws (realized ⊗ dec 5 1) realized,
        laws.lt-eq-not-le realized nought n zero_number,
        le_of_not_lt laws realized nought n zero_number,
        laws.le_of_lt realized nought,
        rounded.div_nonpos realized initial,
        rounded.mul_nonpos (realized ⊘ initial) (lit 100),
        rounded.dec_finite 100 0 (omega arith),
        rounded.lit_positive 100 (omega arith),
        laws.le_trans cfg.daily_pnl_ratchet_pct pct nought,
        fin,
      )

module _ {F T : Type 0} ⦃f : Float F⦄ ⦃t : Time T⦄ (laws : IsOrdered F)
    (rounded : IsRounded F) where
  -- With a positive ratchet threshold, a profit of the day that is a number and a finite initial
  -- equity, the published state trades exactly when the equity is not at or below the death line, no
  -- cooldown is running and the score is at least 25: the profit ratchet has no part in it.
  pub trades_iff :
      (cfg : SurvivalCfg F) (now : T) (initial : F) (snap : RiskSnapshot F) (g : SurvivalInner F T)
      → nought ≺ cfg.daily_pnl_ratchet_pct
      → IsNumber snap.realized_pnl_today
      → IsFinite initial
      → let s = (recompute cfg now initial snap g).1 in
        (trades s.mode ≡ true) ↔ (
          ((snap.equity ≤? initial ⊗ cfg.death_line_pct) ≡ false)
          × (is_cooling now g ≡ false)
          × (25 ≤ s.score))
  unfolding recompute state_of
  trades_iff cfg now initial snap g p n fin = rw (← is_cooling-refresh_peak now snap.equity g) (
      trades-mode_of (snap.equity ≤? initial ⊗ cfg.death_line_pct)
        (is_cooling now (refresh_peak snap.equity g)) _ _
        (ratchet_never_locks laws rounded cfg snap.realized_pnl_today initial p n fin))
