-- ===== src/Agents/Survival/Agent.antt =====
-- src/agents/survival.rs: the three tasks of `spawn` as one handler over the events that they wait
-- for. A handler returns the new world and what it publishes on the bus, in order. The timers are set
-- only when the agent is enabled and their period is positive.
pub mod Safety
use crypto_scalper.Prelude.{
  ℕ, zero, suc, ◌+◌, ◌-◌, ◌*◌, ◌/◌, ◌%◌, ◌^◌, ◌≤◌, ◌<◌, String, ◌≡◌, refl, sym, ap, ◌∙◌, ◌≢◌, ◌↔◌,
  ◌⊎◌, inl, inr, Bool, true, false, not, ◌&&◌, ◌||◌, Option, none, some, List, [], ◌∷◌, ◌++◌, map,
  arith, ltb, leb, ◌==◌, if◌then◌else◌, Bool-cases, Option-cases, Result, ok, err, Eq, string_eq,
  is_some, length, get_elem?, set, take_while, drop_while, take, length-append, filter, All,
  All-append,
}
use crypto_scalper.Prelude.Int.{
  ℤ, pos, negsuc, pos_part, neg_part, ◌+ℤ◌, ◌-ℤ◌, ◌≤ℤ◌, ◌<ℤ◌, ltb_ℤ, leb_ℤ, min_ℤ, clamp_ℤ,
}
use crypto_scalper.Prelude.Dict.{
  Dict, lookup, insert, remove, lookup-insert, lookup-remove, lookup-insert_self, beq_refl,
  IsDistinct, insert-IsDistinct,
}
use crypto_scalper.Float.{
  Float, ◌⊕◌, ◌⊖◌, ◌⊗◌, ◌⊘◌, ◌<?◌, ◌≤?◌, ◌≺◌, ◌≼◌, dec, lit, nought, clamp, IsNumber, IsFinite,
}
use crypto_scalper.Float.Laws.{IsOrdered, IsRounded}
use crypto_scalper.Time.{Time, IsTimeline}
use crypto_scalper.Text.{Text, text_or_default}
use crypto_scalper.Data.Types.{Side, long, short, Candle, Trade}
use crypto_scalper.Execution.Risk
use crypto_scalper.Execution.Risk.{RiskManager, snapshot}
use crypto_scalper.Agents.Messages.{
  SurvivalMode, healthy, cautious, defensive, frozen, dead, SurvivalState, ControlCommand, flat_all,
  unfreeze, reset_daily,
}
use crypto_scalper.Agents.Survival.Memory.{SurvivalCfg, SurvivalInner, on_position_closed}
use crypto_scalper.Agents.Survival.State.{recompute, apply_state}

pub record World (F T : Type 0) : Type 0 where
  pub inner : SurvivalInner F T
  pub risk : RiskManager F

pub data Published (F T : Type 0) : Type 0 where
  survival_updated : SurvivalState F T → Published F T
  command : ControlCommand F → Published F T
  heartbeat : T → Published F T
  equity_reconciled : F → T → Published F T

-- What wakes a task: an event of the bus, or a timer.
pub data Wake (F : Type 0) : Type 0 where
  position_closed : F → Wake F
  feeds_snapshot : Option F → Option F → Wake F  -- news score, funding rate
  equity_seen : F → Wake F
  commanded : ControlCommand F → Wake F
  refresh_due : Wake F
  equity_fetched : Result F (Unit {0}) → Wake F
  other_event : Wake F

-- The clock when a handler reads it: while booking, while computing the state, while publishing.
pub record Clock (T : Type 0) : Type 0 where
  pub booking : T
  pub computing : T
  pub publishing : T

module _ {T : Type 0} ⦃t : Time T⦄ where
  -- The last flat-all is less than 60 seconds old.
  unfoldable pub is_recent : T → Option T → Bool
  is_recent now none = false
  is_recent now (some last) = ltb_ℤ (t.num_seconds now last) (pos 60)

unfoldable pub or_keep {ℓ} : {A : Type ℓ} → Option A → A → A
or_keep none old = old
or_keep (some new) old = new

module _ {F T : Type 0} ⦃f : Float F⦄ ⦃t : Time T⦄ where
  unfoldable pub maybe_publish_flat_all :
      T → Text F → SurvivalInner F T → SurvivalInner F T × List (Published F T)
  maybe_publish_flat_all now reason g =
      if is_recent now g.last_flat_at
      then (g, [])
      else (record g { last_flat_at = some now }, command (flat_all reason) ∷ [])

  -- Death, or a drawdown at the limit, asks for a flat-all.
  unfoldable pub flat_reason : SurvivalCfg F → SurvivalState F T → Option (Text F)
  flat_reason cfg state = elim state.mode [
    | dead ↦ some (Text.plain "death-line breached — bot will freeze")
    | _ ↦
        if cfg.auto_flat_drawdown_pct ≤? state.drawdown_pct
        then some (Text.auto_flat state.drawdown_pct cfg.auto_flat_drawdown_pct)
        else none
  ]

  unfoldable pub flatten_if :
      T → Option (Text F) → SurvivalInner F T → SurvivalInner F T × List (Published F T)
  flatten_if now none g = (g, [])
  flatten_if now (some reason) g = maybe_publish_flat_all now reason g

  unfoldable pub handle_close :
      SurvivalCfg F → F → Clock T → F → World F T → World F T × List (Published F T)
  handle_close cfg initial clock pnl w =
      let g = on_position_closed cfg clock.booking pnl w.inner in
      let (h, state) = recompute cfg clock.computing initial (snapshot w.risk) g in
      let (k, commands) = flatten_if clock.publishing (flat_reason cfg state) h in
      (
        record { inner = k; risk = apply_state state w.risk },
        commands ++ (survival_updated state ∷ []),
      )

  unfoldable pub handle_refresh :
      SurvivalCfg F → F → Clock T → World F T → World F T × List (Published F T)
  handle_refresh cfg initial clock w =
      let (h, state) = recompute cfg clock.computing initial (snapshot w.risk) w.inner in
      (
        record { inner = h; risk = apply_state state w.risk },
        survival_updated state ∷ heartbeat clock.publishing ∷ [],
      )

  unfoldable pub handle_command : Clock T → ControlCommand F → World F T → World F T
  handle_command clock reset_daily w = record w {
    inner = record (w.inner) {
      daily_loss_count = 0;
      daily_pnl = nought;
      daily_peak_equity = w.risk.equity;
      current_day = t.date_naive clock.booking;
      cooldown_until = none;
      cooldown_reason = none;
    };
  }
  handle_command clock unfreeze w = record {
    inner = record (w.inner) { cooldown_until = none; cooldown_reason = none };
    risk = Risk.unfreeze w.risk;
  }
  handle_command clock _ w = w

  -- Paper trading answers 0 to the balance query, which is skipped like a failed query.
  unfoldable pub handle_equity :
      Clock T → Result F (Unit {0}) → World F T → World F T × List (Published F T)
  handle_equity clock (ok equity) w =
      if nought <? equity
      then (
        record w { risk = Risk.set_equity equity w.risk },
        equity_reconciled equity clock.publishing ∷ [],
      )
      else (w, [])
  handle_equity clock (err e) w = (w, [])

  unfoldable pub handle :
      SurvivalCfg F → F → Clock T → Wake F → World F T → World F T × List (Published F T)
  handle cfg initial clock (position_closed pnl) w = handle_close cfg initial clock pnl w
  handle cfg initial clock (feeds_snapshot news funding) w = (
    record w {
      inner = record (w.inner) {
        news_score = or_keep news w.inner.news_score;
        funding_rate = or_keep funding w.inner.funding_rate;
      };
    },
    [],
  )
  handle cfg initial clock (equity_seen equity) w = (
    record w {
      inner = record (w.inner) {
        daily_peak_equity =
            if w.inner.daily_peak_equity <? equity then equity else w.inner.daily_peak_equity;
      };
    },
    [],
  )
  handle cfg initial clock (commanded c) w = (handle_command clock c w, [])
  handle cfg initial clock refresh_due w = handle_refresh cfg initial clock w
  handle cfg initial clock (equity_fetched r) w = handle_equity clock r w
  handle cfg initial clock other_event w = (w, [])
