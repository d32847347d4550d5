-- ===== src/Agents/Brain.antt =====
-- src/llm/engine.rs and src/agents/brain.rs: the decision on a candidate that passed the risk agent.
-- The answer of the HTTP API is an argument: `none` after the timeout.
use crypto_scalper.Strategy.Signal.{Regime, PreSignal}
use crypto_scalper.Prelude.{
  ℕ, String, Bool, true, false, ◌&&◌, Option, none, some, leb, if◌then◌else◌, Result, ok, string_eq,
}
use crypto_scalper.Text.{Text}
use crypto_scalper.Data.Types.{Side, long, short}
use crypto_scalper.Agents.RiskAgent.{RiskVerdictMsg, RiskOutcome, allowed, blocked}

pub data Decision : Type 0 where
  go no_go wait : Decision

pub record DecisionReasoning (F : Type 0) : Type 0 where
  pub summary : Text F
  pub ta_analysis : Text F
  pub sentiment_analysis : Text F
  pub fundamental_analysis : Text F
  pub risk_factors : Text F
  pub invalidation : Text F

pub record ContextScore : Type 0 where
  pub ta_score : ℕ
  pub sentiment_score : ℕ
  pub fundamental_score : ℕ
  pub risk_score : ℕ
  pub composite_score : ℕ

pub record TradeDecision (F : Type 0) : Type 0 where
  pub decision : Decision
  pub direction : String
  pub confidence : ℕ  -- u8
  pub entry_price : Option F
  pub sl_adjustment : Option F
  pub tp_adjustment : Option F
  pub reasoning : DecisionReasoning F
  pub market_context_score : ContextScore

pub record LlmCallResult (F : Type 0) : Type 0 where
  pub decision : TradeDecision F
  pub latency_ms : ℕ
  pub offline_fallback : Bool

pub record BrainOutcome (F : Type 0) : Type 0 where
  pub signal : PreSignal F
  pub regime : Regime
  pub risk : RiskVerdictMsg F
  pub decision : TradeDecision F
  pub latency_ms : ℕ
  pub offline_fallback : Bool

-- What `analyze` reads of the `MarketContext`, apart from the text of the prompt.
pub record MarketContext : Type 0 where
  pub pre_signal_direction : String
  pub ta_confidence : ℕ

-- What the API answers to a prompt within the timeout.
abbrev pub ApiAnswer : Type 0 → Type 0
ApiAnswer F = Option (Result (TradeDecision F) (Text F))

unfoldable pub side_str : Side → String
side_str long = "LONG"
side_str short = "SHORT"

unfoldable pub fallback_decision : {F : Type 0} → MarketContext → ℕ → TradeDecision F
fallback_decision ctx threshold =
    let is_go = leb threshold ctx.ta_confidence in
    record {
      decision = if is_go then go else no_go;
      direction = if is_go then ctx.pre_signal_direction else "NONE";
      confidence = ctx.ta_confidence;
      entry_price = none;
      sl_adjustment = none;
      tp_adjustment = none;
      reasoning = record {
        summary = Text.plain "LLM unavailable — TA-only fallback mode";
        ta_analysis = Text.ta_confidence ctx.ta_confidence;
        sentiment_analysis = Text.plain "N/A (LLM offline)";
        fundamental_analysis = Text.plain "N/A (LLM offline)";
        risk_factors = Text.llm_offline threshold;
        invalidation = Text.plain "Any TA signal reversal";
      };
      market_context_score = record {
        ta_score = ctx.ta_confidence;
        sentiment_score = 0;
        fundamental_score = 0;
        risk_score = 50;
        composite_score = ctx.ta_confidence;
      };
    }

-- The match on the answer of `call_api`, after `latency` milliseconds.
unfoldable pub answered : {F : Type 0} → ℕ → ℕ → MarketContext → ApiAnswer F → LlmCallResult F
answered threshold latency ctx (some (ok d)) = record {
  decision = d;
  latency_ms = latency;
  offline_fallback = false;
}
answered threshold latency ctx _ = record {
  decision = fallback_decision ctx threshold;
  latency_ms = latency;
  offline_fallback = true;
}

-- `analyze`, which always returns `Ok`.
unfoldable pub analyze : {F : Type 0} → Bool → ℕ → ℕ → MarketContext → ApiAnswer F → LlmCallResult F
analyze key_is_empty threshold latency ctx answer =
    if key_is_empty
    then record {
      decision = fallback_decision ctx threshold;
      latency_ms = 0;
      offline_fallback = true;
    }
    else answered threshold latency ctx answer

unfoldable pub context_of : {F : Type 0} → PreSignal F → MarketContext
context_of signal = record {
  pre_signal_direction = side_str signal.side;
  ta_confidence = signal.ta_confidence;
}

unfoldable pub is_allowed : RiskOutcome → Bool
is_allowed allowed = true
is_allowed blocked = false

-- The handler of a risk verdict; `known` tells whether there is a state of the symbol.
unfoldable pub on_risk_verdict :
    {F : Type 0} → Bool → ℕ → ℕ → Bool → ApiAnswer F → RiskVerdictMsg F → Option (BrainOutcome F)
on_risk_verdict key_is_empty threshold latency known answer risk =
    let llm = analyze key_is_empty threshold latency (context_of risk.signal) answer in
    if is_allowed risk.outcome && known
    then some (record {
      signal = risk.signal;
      regime = risk.regime;
      risk = risk;
      decision = llm.decision;
      latency_ms = llm.latency_ms;
      offline_fallback = llm.offline_fallback;
    })
    else none
