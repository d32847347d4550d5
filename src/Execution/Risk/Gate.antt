-- ===== src/Execution/Risk/Gate.antt =====
-- The entry gates of src/execution/risk.rs: what an accepted request and an accepted signal satisfy.
use crypto_scalper.Prelude.{◌≡◌, ◌↔◌, ◌<◌, false, Option, some, none, ok, arith}
use crypto_scalper.Float.{Float, ◌≺◌, ◌<?◌, ◌≤?◌, ◌⊖◌, ◌⊘◌, nought, IsNumber}
use crypto_scalper.Float.Laws.{IsOrdered}
use crypto_scalper.Execution.Tcm.{TransactionCostModel}
use crypto_scalper.Execution.Risk.{
  RiskManager, RiskSnapshot, RiskLimits, daily_loss_of, snapshot, can_open_position, net_edge_bps,
  spread_too_wide, edge_gate, validate_signal,
}

module _ {F : Type 0} ⦃f : Float F⦄ where
  -- What a snapshot shows when trading is allowed.
  pub record IsWithinLimits (l : RiskLimits F) (s : RiskSnapshot F) : Type 0 where
    pub not_tripped : s.tripped ≡ false
    pub not_frozen : s.frozen ≡ false
    pub room : s.open_positions < l.max_open_positions
    pub drawdown_below : (l.max_drawdown_pct ≤? s.drawdown_pct) ≡ false
    pub loss_below : (l.max_daily_loss_pct ≤? s.daily_loss_pct) ≡ false

  -- With positive equity and a positive loss limit, a position may be opened exactly when the
  -- snapshot of the manager is within all limits and shows neither a trip nor a freeze.
  pub can_open_position_iff :
      (laws : IsOrdered F) (i : RiskManager F)
      → nought ≺ i.equity
      → nought ≺ i.limits.max_daily_loss_pct
      → IsNumber i.limits.max_daily_loss_pct
      → (can_open_position i ≡ ok tt) ↔ IsWithinLimits i.limits (snapshot i)
  unfolding can_open_position snapshot daily_loss_of
  can_open_position_iff laws i e l n = ground (
    arith,
    laws.lt-eq-not-le nought i.limits.max_daily_loss_pct (laws.dec_mono 0 0 0 0 (omega arith)) n,
  )

  -- What an accepted signal satisfies.
  pub record IsSound (i : RiskManager F) (entry stop_loss take_profit : F) (spread_pct : Option F)
      (tcm : TransactionCostModel F) : Type 0 where
    pub entry_positive : (entry ≤? nought) ≡ false
    pub stop_apart : (f.abs (entry ⊖ stop_loss) ≤? nought) ≡ false
    pub reward_enough :
        (f.abs (take_profit ⊖ entry) ⊘ f.abs (entry ⊖ stop_loss) <? i.limits.min_reward_risk)
        ≡ false
    pub spread_narrow : (s : F) → spread_pct ≡ some s → (i.limits.max_spread_pct <? s) ≡ false
    pub edge_enough :
        nought ≺ i.limits.min_net_edge_bps
        → (net_edge_bps i entry (f.abs (entry ⊖ stop_loss)) (f.abs (take_profit ⊖ entry)) tcm
            <? i.limits.min_net_edge_bps)
          ≡ false

  spread_narrow_of :
      (i : RiskManager F) (spread_pct : Option F)
      → spread_too_wide i spread_pct ≡ none
      → (s : F) → spread_pct ≡ some s
      → (i.limits.max_spread_pct <? s) ≡ false
  unfolding spread_too_wide
  spread_narrow_of i spread_pct h s e = ground arith

  edge_of :
      (i : RiskManager F) (entry risk_per_unit reward_per_unit : F) (tcm : TransactionCostModel F)
      → edge_gate i entry risk_per_unit reward_per_unit tcm ≡ ok tt
      → nought ≺ i.limits.min_net_edge_bps
      → (net_edge_bps i entry risk_per_unit reward_per_unit tcm <? i.limits.min_net_edge_bps)
        ≡ false
  unfolding edge_gate
  edge_of i entry risk_per_unit reward_per_unit tcm h p = ground arith

  none_of_narrow :
      (i : RiskManager F) (spread_pct : Option F)
      → ((s : F) → spread_pct ≡ some s → (i.limits.max_spread_pct <? s) ≡ false)
      → spread_too_wide i spread_pct ≡ none
  unfolding spread_too_wide
  none_of_narrow i none h = ground arith
  none_of_narrow i (some s) h = ground (arith, h s)

  validate_signal-IsSound :
      (i : RiskManager F) (entry stop_loss take_profit : F) (spread_pct : Option F)
      (tcm : TransactionCostModel F)
      → validate_signal i entry stop_loss take_profit spread_pct tcm ≡ ok tt
      → IsSound i entry stop_loss take_profit spread_pct tcm
  unfolding validate_signal
  validate_signal-IsSound i entry stop_loss take_profit spread_pct tcm h = record {
    entry_positive = ground arith;
    stop_apart = ground arith;
    reward_enough = ground arith;
    spread_narrow = spread_narrow_of i spread_pct (ground arith);
    edge_enough = edge_of i entry _ _ tcm (ground arith);
  }

  IsSound-validate_signal :
      (i : RiskManager F) (entry stop_loss take_profit : F) (spread_pct : Option F)
      (tcm : TransactionCostModel F)
      → IsSound i entry stop_loss take_profit spread_pct tcm
      → validate_signal i entry stop_loss take_profit spread_pct tcm ≡ ok tt
  unfolding validate_signal edge_gate
  IsSound-validate_signal i entry stop_loss take_profit spread_pct tcm s =
      ground (arith, none_of_narrow i spread_pct s.spread_narrow, s.edge_enough)

  -- A signal is accepted exactly when its entry is not at or below zero, its stop is apart from the
  -- entry, its reward divided by its risk is not below the limit, a known spread is not above the
  -- limit and, where a positive net edge is asked for, the edge after costs is not below it.
  pub validate_signal_iff :
      (i : RiskManager F) (entry stop_loss take_profit : F) (spread_pct : Option F)
      (tcm : TransactionCostModel F)
      → (validate_signal i entry stop_loss take_profit spread_pct tcm ≡ ok tt)
        ↔ IsSound i entry stop_loss take_profit spread_pct tcm
  validate_signal_iff i entry stop_loss take_profit spread_pct tcm = (
    validate_signal-IsSound i entry stop_loss take_profit spread_pct tcm,
    IsSound-validate_signal i entry stop_loss take_profit spread_pct tcm,
  )
