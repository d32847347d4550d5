-- ===== src/Agents/Survival/Score.antt =====
-- src/agents/survival.rs: the survival score and its reasons, one function for each rule.
use crypto_scalper.Prelude.{
  ℕ, ◌-◌, ◌*◌, ◌^◌, Bool, false, ◌&&◌, Option, none, some, List, [], ◌∷◌, ◌++◌, ltb, leb,
  if◌then◌else◌, string_eq, length,
}
use crypto_scalper.Prelude.Int.{ℤ, pos, negsuc, ◌-ℤ◌, min_ℤ}
use crypto_scalper.Float.{Float, ◌⊖◌, ◌⊗◌, ◌⊘◌, ◌<?◌, ◌≤?◌, dec, lit, nought}
use crypto_scalper.Time.{Time}
use crypto_scalper.Text.{Text}
use crypto_scalper.Execution.Risk.{RiskSnapshot}
use crypto_scalper.Backtest.MonteCarlo.{MonteCarloDrawdown, drawdown_confidence_intervals}
use crypto_scalper.Agents.Survival.Memory.{SurvivalCfg, SurvivalInner, u32}

-- `x as i32` of a `u32`, and of a product that wraps.
abbrev pub as_i32 : ℕ → ℤ
as_i32 n = let m = u32 n in if ltb m (2 ^ 31) then pos m else negsuc (2 ^ 32 - m - 1)

-- The score while it is computed, with the reasons pushed so far.
pub record Tally (F : Type 0) : Type 0 where
  pub score : ℤ
  pub reasons : List (Text F)

abbrev pub charge : {F : Type 0} → ℤ → List (Text F) → Tally F → Tally F
charge penalty texts s = record { score = s.score -ℤ penalty; reasons = s.reasons ++ texts }

abbrev max_zero : ℤ → ℤ
max_zero (pos n) = pos n
max_zero (negsuc n) = pos 0

-- `cooldown_reason.unwrap_or("cooldown")`.
abbrev reason_of : {F : Type 0} → Option (Text F) → Text F
reason_of none = Text.plain "cooldown"
reason_of (some r) = r

module _ {F : Type 0} ⦃f : Float F⦄ where
  unfoldable pub charge_drawdown : SurvivalCfg F → F → Tally F → Tally F
  charge_drawdown cfg drawdown s =
      if nought <? drawdown
      then charge
          (f.to_ℤ (f.min (drawdown ⊘ f.max cfg.auto_flat_drawdown_pct (lit 1) ⊗ lit 60) (lit 60)))
          (if lit 1 ≤? drawdown then Text.drawdown drawdown ∷ [] else []) s
      else s

  unfoldable pub daily_loss_pct_of : RiskSnapshot F → F
  daily_loss_pct_of snap =
      if nought <? snap.equity && snap.realized_pnl_today <? nought
      then f.neg snap.realized_pnl_today ⊘ snap.equity ⊗ lit 100
      else nought

  unfoldable pub charge_daily_loss : F → Tally F → Tally F
  charge_daily_loss daily_loss_pct s =
      if nought <? daily_loss_pct
      then charge (f.to_ℤ (f.min (daily_loss_pct ⊗ lit 6) (lit 40)))
          (Text.daily_loss_of daily_loss_pct ∷ []) s
      else s

  unfoldable pub charge_streak : ℕ → Tally F → Tally F
  charge_streak losses s =
      if leb 2 losses
      then charge (min_ℤ (as_i32 ((losses - 1) * 8)) (pos 30)) (Text.consecutive_losses losses ∷ [])
          s
      else s

  unfoldable pub charge_news : SurvivalCfg F → F → Tally F → Tally F
  charge_news cfg news s =
      if news ≤? cfg.news_panic_threshold
      then charge (pos 25) (Text.news_panic news cfg.news_panic_threshold ∷ []) s
      else if cfg.news_euphoria_threshold ≤? news
      then charge (pos 10) (Text.news_euphoria news cfg.news_euphoria_threshold ∷ []) s
      else s

  unfoldable pub floor_distance_pct : F → F → F → F
  floor_distance_pct equity initial_equity death_line =
      if nought <? equity && nought <? initial_equity
      then f.max ((equity ⊖ death_line) ⊘ initial_equity ⊗ lit 100) nought
      else nought

  unfoldable pub charge_floor : F → F → F → Tally F → Tally F
  charge_floor equity initial_equity death_line s =
      let distance = floor_distance_pct equity initial_equity death_line in
      if equity ≤? death_line
      then record {
        score = pos 0;
        reasons = s.reasons ++ (Text.at_death_line equity death_line ∷ []);
      }
      else if distance <? lit 5
      then charge (pos 30) (Text.above_death_line distance ∷ []) s
      else if distance <? lit 10
      then charge (pos 15) [] s
      else s

  unfoldable pub realized_pct_of : F → F → F
  realized_pct_of realized initial_equity =
      if nought <? initial_equity then realized ⊘ initial_equity ⊗ lit 100 else nought

  unfoldable pub is_ratchet_locked : SurvivalCfg F → F → F → Bool
  is_ratchet_locked cfg realized initial_equity =
      cfg.daily_pnl_ratchet_pct ≤? realized_pct_of realized initial_equity
      && realized <? realized ⊗ dec 5 1

  unfoldable pub note_ratchet : Bool → F → Tally F → Tally F
  note_ratchet locked realized s =
      if locked
      then charge (pos 0) (Text.ratchet_locked realized (realized ⊗ dec 5 1) ∷ []) s
      else s

  unfoldable pub charge_estimate : SurvivalCfg F → Option (MonteCarloDrawdown F) → Tally F → Tally F
  charge_estimate cfg none s = s
  charge_estimate cfg (some mc) s =
      if cfg.auto_flat_drawdown_pct <? mc.p95
      then charge (f.to_ℤ (f.min ((mc.p95 ⊖ cfg.auto_flat_drawdown_pct) ⊗ lit 5) (lit 20)))
          (Text.monte_carlo mc.p95 mc.p50 ∷ []) s
      else s

  unfoldable pub charge_monte_carlo : SurvivalCfg F → List F → Tally F → Tally F
  charge_monte_carlo cfg history s =
      if leb 20 (length history)
      then charge_estimate cfg (drawdown_confidence_intervals history 100) s
      else s

module _ {F T : Type 0} ⦃f : Float F⦄ ⦃t : Time T⦄ where
  unfoldable pub is_cooling : T → SurvivalInner F T → Bool
  is_cooling now g = elim g.cooldown_until [ none ↦ false | some until ↦ t.after until now ]

  -- The reason is pushed before the score is cut to 20.
  unfoldable pub charge_cooldown : T → SurvivalInner F T → Tally F → Tally F
  charge_cooldown now g s = elim g.cooldown_until [
    | none ↦ s
    | some until ↦
        if t.after until now
        then record {
          score = min_ℤ s.score (pos 20);
          reasons =
              s.reasons
              ++ (Text.cooldown_left (reason_of g.cooldown_reason)
                    (max_zero (t.num_minutes until now))
                  ∷ []);
        }
        else s
  ]

  -- The score before it is clamped, and its reasons.
  unfoldable pub tally : SurvivalCfg F → T → F → RiskSnapshot F → SurvivalInner F T → Tally F
  tally cfg now initial_equity snap g =
      let death_line = initial_equity ⊗ cfg.death_line_pct in
      let s0 : Tally F = record { score = pos 100; reasons = [] } in
      let s1 = charge_drawdown cfg snap.drawdown_pct s0 in
      let s2 = charge_daily_loss (daily_loss_pct_of snap) s1 in
      let s3 = charge_streak g.consecutive_losses s2 in
      let s4 = charge_cooldown now g s3 in
      let s5 = charge_news cfg g.news_score s4 in
      let s6 = charge_floor snap.equity initial_equity death_line s5 in
      let locked = is_ratchet_locked cfg snap.realized_pnl_today initial_equity in
      let s7 = note_ratchet locked snap.realized_pnl_today s6 in
      charge_monte_carlo cfg g.pnl_history s7
