-- ===== src/Agents/RiskAgent/Events.antt =====
-- src/agents/risk.rs: the messages of the risk agent and its reaction to an event.
use crypto_scalper.Learning.Policy.{evaluate, PolicyVerdict}
use crypto_scalper.Learning.Lessons.{Lesson}
use crypto_scalper.Execution.Risk.{RiskManager}
use crypto_scalper.Strategy.Signal.{regime_str, strategy_str, Regime, PreSignal}
use crypto_scalper.Agents.Messages.{SurvivalState}
use crypto_scalper.Prelude.{
  String, ◌&&◌, Option, none, some, List, [], if◌then◌else◌, Result, ok, err, string_eq,
}
use crypto_scalper.Prelude.Dict.{lookup, insert}
use crypto_scalper.Float.{Float, ◌⊕◌, ◌⊖◌, ◌⊗◌, ◌⊘◌, ◌<?◌, ◌≤?◌, lit, nought}
use crypto_scalper.Time.{Time}
use crypto_scalper.Text.{Text}
use crypto_scalper.Agents.RiskAgent.{
  llm_floor, or_zero, clear, survival_refusal, ta_threshold, RiskVerdictMsg, Quant, RiskAgentConfig,
  RiskAgent, allowed, blocked,
}

module _ {F : Type 0} ⦃f : Float F⦄ where
  unfoldable pub cleared_msg :
      RiskAgentConfig F
      → PreSignal F
      → Regime
      → PolicyVerdict F
      → Result F (Text F)
      → RiskVerdictMsg F
  cleared_msg cfg signal regime v (ok size) = record {
    signal = signal;
    regime = regime;
    outcome = allowed;
    size = size;
    size_multiplier = v.size_multiplier;
    effective_ta_threshold = ta_threshold cfg v;
    effective_llm_floor = llm_floor cfg v;
    matched_lessons = v.matched_lessons;
    reason = none;
  }
  cleared_msg cfg signal regime v (err e) = record {
    signal = signal;
    regime = regime;
    outcome = blocked;
    size = nought;
    size_multiplier = v.size_multiplier;
    effective_ta_threshold = ta_threshold cfg v;
    effective_llm_floor = llm_floor cfg v;
    matched_lessons = v.matched_lessons;
    reason = some e;
  }

  unfoldable pub survival_msg : RiskAgentConfig F → PreSignal F → Regime → Text F → RiskVerdictMsg F
  survival_msg cfg signal regime e = record {
    signal = signal;
    regime = regime;
    outcome = blocked;
    size = nought;
    size_multiplier = nought;
    effective_ta_threshold = cfg.base_min_ta_threshold;
    effective_llm_floor = cfg.base_min_llm_floor;
    matched_lessons = [];
    reason = some e;
  }

  unfoldable pub policy_msg :
      RiskAgentConfig F → PreSignal F → Regime → PolicyVerdict F → RiskVerdictMsg F
  policy_msg cfg signal regime v = record {
    signal = signal;
    regime = regime;
    outcome = blocked;
    size = nought;
    size_multiplier = nought;
    effective_ta_threshold = ta_threshold cfg v;
    effective_llm_floor = llm_floor cfg v;
    matched_lessons = v.matched_lessons;
    reason = some (Text.plain "learning policy blocked");
  }

-- The bus events that the agent reads.
pub data RiskEvent (F T : Type 0) : Type 0 where
  survival_updated : SurvivalState F T → RiskEvent F T
  feeds_snapshot : String → Option F → RiskEvent F T  -- the funding rate, where there is one
  book_ticker : String → F → F → RiskEvent F T  -- best bid, best ask
  pre_signal : PreSignal F → Regime → RiskEvent F T
  other : RiskEvent F T

module _ {F T : Type 0} ⦃f : Float F⦄ ⦃t : Time T⦄ where
  unfoldable pub after_policy :
      RiskAgentConfig F
      → Quant F
      → RiskManager F
      → RiskAgent F T
      → PreSignal F
      → Regime
      → PolicyVerdict F
      → RiskVerdictMsg F
  after_policy cfg quant risk agent signal regime v =
      if v.allowed
      then cleared_msg cfg signal regime v (
          clear cfg quant risk (lookup signal.symbol agent.spreads)
            (or_zero nought (lookup signal.symbol agent.funding)) signal v)
      else policy_msg cfg signal regime v

  -- The handler of a candidate, from the answer of the survival gate on.
  unfoldable pub after_survival :
      Option (Text F)
      → RiskAgentConfig F
      → Quant F
      → T
      → List (Lesson F T)
      → RiskManager F
      → RiskAgent F T
      → PreSignal F
      → Regime
      → RiskVerdictMsg F
  after_survival (some e) cfg quant now lessons risk agent signal regime =
      survival_msg cfg signal regime e
  after_survival none cfg quant now lessons risk agent signal regime =
      after_policy cfg quant risk agent signal regime
        (evaluate now (strategy_str signal.strategy) (regime_str regime) signal.symbol lessons)

  unfoldable pub judge :
      RiskAgentConfig F
      → Quant F
      → T
      → List (Lesson F T)
      → RiskManager F
      → RiskAgent F T
      → PreSignal F
      → Regime
      → RiskVerdictMsg F
  judge cfg quant now lessons risk agent =
      after_survival (survival_refusal agent.survival) cfg quant now lessons risk agent

  unfoldable pub quote : String → F → F → RiskAgent F T → RiskAgent F T
  quote symbol best_bid best_ask agent =
      let mid = (best_bid ⊕ best_ask) ⊘ lit 2 in
      if (nought <? mid) && (best_bid ≤? best_ask)
      then record agent {
        spreads = insert symbol ((best_ask ⊖ best_bid) ⊘ mid ⊗ lit 100) agent.spreads;
      }
      else agent

  -- The agent after an event, and the verdict it publishes.
  unfoldable pub on_event :
      RiskAgentConfig F
      → Quant F
      → T
      → List (Lesson F T)
      → RiskManager F
      → RiskEvent F T
      → RiskAgent F T
      → RiskAgent F T × Option (RiskVerdictMsg F)
  on_event cfg quant now lessons risk (survival_updated s) agent =
      (record agent { survival = some s }, none)
  on_event cfg quant now lessons risk (feeds_snapshot symbol none) agent = (agent, none)
  on_event cfg quant now lessons risk (feeds_snapshot symbol (some rate)) agent =
      (record agent { funding = insert symbol rate agent.funding }, none)
  on_event cfg quant now lessons risk (book_ticker symbol best_bid best_ask) agent =
      (quote symbol best_bid best_ask agent, none)
  on_event cfg quant now lessons risk (pre_signal signal regime) agent =
      (agent, some (judge cfg quant now lessons risk agent signal regime))
  on_event cfg quant now lessons risk other agent = (agent, none)
