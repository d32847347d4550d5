-- ===== src/Examples/RiskAgent.antt =====
-- The risk agent of src/agents/risk.rs and the lessons of src/learning on one candidate.
use crypto_scalper.Execution.Tcm.{market_impact_bps, total_cost_bps, round_trip_cost_bps}
use crypto_scalper.Execution.Risk.{
  calculate_size, drawdown_of, new, notional_cap, leverage_cap, risk_size, capped_size,
  net_edge_bps, edge_gate, spread_too_wide, validate_signal, can_open_position,
}
use crypto_scalper.Prelude.{
  ℕ, ◌≡◌, refl, ◌↔◌, true, none, some, List, [], ◌∷◌, arith, string_eq, All,
}
use crypto_scalper.Prelude.Int.{pos}
use crypto_scalper.Prelude.Dict.{lookup}
use crypto_scalper.Text.{Text}
use crypto_scalper.Data.Types.{long}
use crypto_scalper.Time.{seconds_time}
use crypto_scalper.Float.Fixed.{Fixed, fixed_float}
use crypto_scalper.Agents.RiskAgent.Verdicts.{judge-allowed_iff, IsAdmitted}
use crypto_scalper.Examples.Inputs.{costs, usd, manager}
use crypto_scalper.Learning.Policy.{
  raise_floor, add_i16, consider, default_verdict, evaluate_from, evaluate,
}
use crypto_scalper.Learning.Policy.Verdict.{evaluate-allowed_iff, IsPermissive}
use crypto_scalper.Agents.RiskAgent.Messages.{judge-IsWellFormed, IsWellFormed}
use crypto_scalper.Agents.RiskAgent.Events.{cleared_msg, after_policy, after_survival, judge}
use crypto_scalper.Learning.Lessons.{
  bans, is_block, admits, applies, Lesson, strategy_derate, lose_streak, llm_calibration,
}
use crypto_scalper.Strategy.Signal.{regime_str, strategy_str, PreSignal, momentum, ranging}
use crypto_scalper.Agents.RiskAgent.{
  or_zero, positive_size, quant_size, funding_blocks, fund_and_size, llm_floor, ta_threshold, clear,
  survival_refusal, RiskAgentConfig, RiskAgent, allowed,
}

-- Half the size for momentum, a ban of another symbol, a floor of 70 for the brain.
abbrev lessons : List (Lesson Fixed ℕ)
lessons =
    record {
      kind = strategy_derate;
      strategy = some "momentum";
      regime = none;
      symbol = none;
      size_multiplier = fixed_float.dec 5 1;
      ta_threshold_delta = pos 5;
      llm_min_confidence_floor = none;
      valid_until = 5000;
      reason = Text.plain "momentum loses";
    }
    ∷ record {
      kind = lose_streak;
      strategy = none;
      regime = none;
      symbol = some "ETHUSDT";
      size_multiplier = usd 0;
      ta_threshold_delta = pos 0;
      llm_min_confidence_floor = none;
      valid_until = 5000;
      reason = Text.plain "ETHUSDT loses";
    }
    ∷ record {
      kind = llm_calibration;
      strategy = none;
      regime = none;
      symbol = none;
      size_multiplier = usd 1;
      ta_threshold_delta = pos 0;
      llm_min_confidence_floor = some 70;
      valid_until = 5000;
      reason = Text.plain "overconfident";
    }
    ∷ []

abbrev candidate : PreSignal Fixed
candidate = record {
  symbol = "BTCUSDT";
  strategy = momentum;
  side = long;
  entry = usd 100;
  stop_loss = usd 99;
  take_profit = usd 103;
  ta_confidence = 70;
  reason = Text.plain "momentum";
}

abbrev agent_cfg : RiskAgentConfig Fixed
agent_cfg = record {
  base_min_ta_threshold = 60;
  base_min_llm_floor = 50;
  funding_block_threshold = fixed_float.dec 1 3;
  tcm = costs;
  base_risk_pct = fixed_float.dec 5 1;
}

abbrev fresh : RiskAgent Fixed ℕ
fresh = record { survival = none; funding = []; spreads = [] }

evaluate-allowed_iff_example :
    ((evaluate 1000 "momentum" "RANGING" "BTCUSDT" lessons).allowed ≡ true)
    ↔ All (IsPermissive 1000 "momentum" "RANGING" "BTCUSDT") lessons
evaluate-allowed_iff_example = evaluate-allowed_iff 1000 "momentum" "RANGING" "BTCUSDT" lessons

judge-allowed_iff_example :
    (((judge agent_cfg none 1000 lessons manager fresh candidate ranging).outcome ≡ allowed)
      × ((judge agent_cfg none 1000 lessons manager fresh candidate ranging).size ≡ usd 5))
    ↔ IsAdmitted agent_cfg none 1000 lessons manager fresh candidate ranging (usd 5)
judge-allowed_iff_example =
    judge-allowed_iff agent_cfg none 1000 lessons manager fresh candidate ranging (usd 5)

judge-IsWellFormed_example :
    IsWellFormed agent_cfg (judge agent_cfg none 1000 lessons manager fresh candidate ranging)
judge-IsWellFormed_example =
    judge-IsWellFormed agent_cfg none 1000 lessons manager fresh candidate ranging (omega arith)

-- The candidate is allowed, at half of 10.
allows_half :
    ((judge agent_cfg none 1000 lessons manager fresh candidate ranging).outcome ≡ allowed)
    × ((judge agent_cfg none 1000 lessons manager fresh candidate ranging).size ≡ usd 5)
unfolding judge after_survival survival_refusal after_policy evaluate evaluate_from default_verdict
    consider applies admits is_block bans add_i16 raise_floor clear ta_threshold llm_floor
    can_open_position validate_signal spread_too_wide edge_gate net_edge_bps capped_size risk_size
    leverage_cap notional_cap round_trip_cost_bps total_cost_bps market_impact_bps new drawdown_of
    fund_and_size funding_blocks quant_size calculate_size positive_size cleared_msg or_zero lookup
    strategy_str regime_str
allows_half = (refl, refl)
