-- ===== src/Agents/Manager.antt =====
-- src/agents/manager.rs: the review of the brain's decision. The answer of the manager's model is an
-- argument: the parsed reply, or an error.
pub mod Review
use crypto_scalper.Strategy.Signal.{regime_str, strategy_str}
use crypto_scalper.Agents.RiskAgent.{refuses, or_zero}
use crypto_scalper.Prelude.{
  ℕ, String, Bool, true, false, not, ◌&&◌, ◌||◌, Option, none, some, List, [], ◌∷◌, leb,
  if◌then◌else◌, Result, ok, err, string_eq,
}
use crypto_scalper.Float.{Float, ◌<?◌, dec, lit, nought, clamp}
use crypto_scalper.Text.{Text}
use crypto_scalper.Data.Types.{Side}
use crypto_scalper.Agents.Brain.{Decision, BrainOutcome, go, no_go, wait}
use crypto_scalper.Agents.Messages.{mode_str, SurvivalMode, SurvivalState, healthy}

pub data ManagerAction (F : Type 0) : Type 0 where
  approve : ManagerAction F
  veto : Text F → ManagerAction F
  adjust : F → F → F → Text F → ManagerAction F  -- size multiplier, sl and tp offset in bps

pub record ManagerProposal (F : Type 0) : Type 0 where
  pub symbol : String
  pub side : Side
  pub strategy : String
  pub regime : String
  pub entry : F
  pub stop_loss : F
  pub take_profit : F
  pub size : F
  pub ta_confidence : ℕ
  pub llm_confidence : ℕ

pub record ManagerVerdict (F : Type 0) : Type 0 where
  pub proposal : ManagerProposal F
  pub action : ManagerAction F
  pub latency_ms : ℕ
  pub offline_fallback : Bool
  pub brain_outcome : BrainOutcome F

-- What the review reads of the configuration.
pub record ManagerAgentConfig : Type 0 where
  pub enabled : Bool
  pub api_key_is_empty : Bool
  pub fast_approve_min_conf : ℕ
  pub fail_closed_without_llm : Bool
  pub fail_open_on_error : Bool

-- The reply as it is deserialized.
pub data ManagerActionDe (F : Type 0) : Type 0 where
  approve_de : Text F → ManagerActionDe F
  veto_de : Text F → ManagerActionDe F
  adjust_de : Option F → Option F → Option F → Text F → ManagerActionDe F

unfoldable pub is_go : Decision → Bool
is_go go = true
is_go no_go = false
is_go wait = false

unfoldable pub is_healthy : SurvivalMode → Bool
is_healthy healthy = true
is_healthy _ = false

unfoldable pub is_empty : {A : Type 0} → List A → Bool
is_empty [] = true
is_empty (x ∷ xs) = false

module _ {F : Type 0} ⦃f : Float F⦄ where
  unfoldable pub action_of : ManagerActionDe F → ManagerAction F
  action_of (approve_de reason) = approve
  action_of (veto_de reason) = veto reason
  action_of (adjust_de size sl tp reason) =
      adjust (clamp (or_zero (lit 1) size) (dec 1 1) (dec 15 1))
        (clamp (or_zero nought sl) (f.neg (lit 50)) (lit 50))
        (clamp (or_zero nought tp) (f.neg (lit 50)) (lit 50)) reason

  -- `.filter(|&p| p > 0.0).unwrap_or(signal.entry)`.
  unfoldable pub entry_of : F → Option F → F
  entry_of entry none = entry
  entry_of entry (some p) = if nought <? p then p else entry

  unfoldable pub build_proposal : BrainOutcome F → ManagerProposal F
  build_proposal brain = record {
    symbol = brain.signal.symbol;
    side = brain.signal.side;
    strategy = strategy_str brain.signal.strategy;
    regime = regime_str brain.regime;
    entry = entry_of brain.signal.entry brain.decision.entry_price;
    stop_loss = brain.signal.stop_loss;
    take_profit = brain.signal.take_profit;
    size = brain.risk.size;
    ta_confidence = brain.signal.ta_confidence;
    llm_confidence = brain.decision.confidence;
  }

unfoldable pub manager_off_action : {F : Type 0} → Bool → Bool → ManagerAction F
manager_off_action brain_offline_fallback fail_closed_without_llm =
    if fail_closed_without_llm && brain_offline_fallback
    then veto (Text.plain "all LLMs unavailable; failing closed")
    else approve

unfoldable pub after_call :
    {F : Type 0} → ManagerAgentConfig → Result (ManagerAction F) (Text F) → ManagerAction F
after_call cfg (ok a) = a
after_call cfg (err e) =
    if cfg.fail_open_on_error && not cfg.fail_closed_without_llm
    then approve
    else veto (Text.plain "manager LLM unavailable; failing closed")

-- `!cfg.enabled || cfg.api_key.is_empty()`.
unfoldable pub manager_off : ManagerAgentConfig → Bool
manager_off cfg = not cfg.enabled || cfg.api_key_is_empty

module _ {F T : Type 0} where
  -- The text of the veto where the last survival state is frozen or dead.
  unfoldable pub survival_veto : Option (SurvivalState F T) → Option (Text F)
  survival_veto none = none
  survival_veto (some s) =
      if refuses s.mode then some (Text.survival_score (mode_str s.mode) s.score) else none

  unfoldable pub is_well : Option (SurvivalState F T) → Bool
  is_well none = true
  is_well (some s) = is_healthy s.mode

  unfoldable pub fast_approve :
      ManagerAgentConfig → Option (SurvivalState F T) → BrainOutcome F → Bool
  fast_approve cfg survival brain =
      leb cfg.fast_approve_min_conf brain.decision.confidence
      && (is_empty brain.risk.matched_lessons && is_well survival)

  unfoldable pub choose :
      ManagerAgentConfig
      → Option (SurvivalState F T)
      → BrainOutcome F
      → Result (ManagerAction F) (Text F)
      → ManagerAction F
  choose cfg survival brain reply =
      if manager_off cfg
      then manager_off_action brain.offline_fallback cfg.fail_closed_without_llm
      else if fast_approve cfg survival brain
      then approve
      else after_call cfg reply

module _ {F T : Type 0} ⦃f : Float F⦄ where
  unfoldable pub verdict_after :
      Option (Text F)
      → ManagerAgentConfig
      → Option (SurvivalState F T)
      → BrainOutcome F
      → Result (ManagerAction F) (Text F)
      → ℕ
      → ManagerVerdict F
  verdict_after (some reason) cfg survival brain reply latency = record {
    proposal = build_proposal brain;
    action = veto reason;
    latency_ms = 0;
    offline_fallback = true;
    brain_outcome = brain;
  }
  verdict_after none cfg survival brain reply latency = record {
    proposal = build_proposal brain;
    action = choose cfg survival brain reply;
    latency_ms = latency;
    offline_fallback = manager_off cfg;
    brain_outcome = brain;
  }

  -- The handler of an outcome of the brain, under the last survival state.
  unfoldable pub review :
      ManagerAgentConfig
      → Option (SurvivalState F T)
      → BrainOutcome F
      → Result (ManagerAction F) (Text F)
      → ℕ
      → Option (ManagerVerdict F)
  review cfg survival brain reply latency =
      if is_go brain.decision.decision
      then some (verdict_after (survival_veto survival) cfg survival brain reply latency)
      else none

-- `matches!(action, ManagerAction::Veto { .. })`.
unfoldable pub is_veto : {F : Type 0} → ManagerAction F → Bool
is_veto (veto reason) = true
is_veto _ = false
