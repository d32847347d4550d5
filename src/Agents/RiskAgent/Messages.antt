-- ===== src/Agents/RiskAgent/Messages.antt =====
-- The form of every verdict of src/agents/risk.rs, on each of its branches.
use crypto_scalper.Strategy.Signal.{Regime, PreSignal}
use crypto_scalper.Execution.Risk.{RiskManager}
use crypto_scalper.Learning.Lessons.{Lesson}
use crypto_scalper.Learning.Policy.{PolicyVerdict}
use crypto_scalper.Agents.RiskAgent.Events.{
  survival_msg, policy_msg, cleared_msg, after_survival, after_policy, judge,
}
use crypto_scalper.Prelude.{
  ◌≤◌, ◌≡◌, ◌↔◌, inl, inr, true, Option, none, some, List, arith, Bool-cases, Result, ok, err,
  string_eq, is_some,
}
use crypto_scalper.Prelude.Int.{pos, ◌+ℤ◌, clamp_bound}
use crypto_scalper.Float.{Float, nought}
use crypto_scalper.Time.{Time}
use crypto_scalper.Text.{Text}
use crypto_scalper.Agents.RiskAgent.{
  survival_refusal, RiskAgent, or_zero, llm_floor, ta_threshold, Quant, RiskVerdictMsg,
  RiskAgentConfig, blocked,
}

module _ {F : Type 0} ⦃f : Float F⦄ (cfg : RiskAgentConfig F) where
  -- An allowed verdict has no reason against it, a blocked one has a reason and no size, the
  -- threshold is a percentage and the floor is never below the configured one.
  pub record IsWellFormed (m : RiskVerdictMsg F) : Type 0 where
    pub explained : (is_some m.reason ≡ true) ↔ (m.outcome ≡ blocked)
    pub no_size : m.outcome ≡ blocked → m.size ≡ nought
    pub percentage : m.effective_ta_threshold ≤ 100
    pub floor_kept : cfg.base_min_llm_floor ≤ m.effective_llm_floor

  ta_threshold_bound : (v : PolicyVerdict F) → ta_threshold cfg v ≤ 100
  unfolding ta_threshold
  ta_threshold_bound v = clamp_bound (pos cfg.base_min_ta_threshold +ℤ v.ta_threshold_delta)

  llm_floor_bound : (v : PolicyVerdict F) → cfg.base_min_llm_floor ≤ llm_floor cfg v
  unfolding llm_floor or_zero
  llm_floor_bound v = ground arith

  cleared_msg-IsWellFormed :
      (signal : PreSignal F) (regime : Regime) (v : PolicyVerdict F) (r : Result F (Text F))
      → IsWellFormed (cleared_msg cfg signal regime v r)
  unfolding cleared_msg
  cleared_msg-IsWellFormed signal regime v (ok s) =
      ground (arith, ta_threshold_bound v, llm_floor_bound v)
  cleared_msg-IsWellFormed signal regime v (err e) =
      ground (arith, ta_threshold_bound v, llm_floor_bound v)

  policy_msg-IsWellFormed :
      (signal : PreSignal F) (regime : Regime) (v : PolicyVerdict F)
      → IsWellFormed (policy_msg cfg signal regime v)
  unfolding policy_msg
  policy_msg-IsWellFormed signal regime v = ground (arith, ta_threshold_bound v, llm_floor_bound v)

  survival_msg-IsWellFormed :
      (signal : PreSignal F) (regime : Regime) (e : Text F)
      → cfg.base_min_ta_threshold ≤ 100
      → IsWellFormed (survival_msg cfg signal regime e)
  unfolding survival_msg
  survival_msg-IsWellFormed signal regime e b = ground arith

module _ {F T : Type 0} ⦃f : Float F⦄ ⦃t : Time T⦄ where
  after_policy-IsWellFormed :
      (cfg : RiskAgentConfig F) (quant : Quant F) (risk : RiskManager F) (agent : RiskAgent F T)
      (signal : PreSignal F) (regime : Regime) (v : PolicyVerdict F)
      → IsWellFormed cfg (after_policy cfg quant risk agent signal regime v)
  unfolding after_policy
  after_policy-IsWellFormed cfg quant risk agent signal regime v = elim (Bool-cases v.allowed) [
    | inl a ↦ simp a (cleared_msg-IsWellFormed cfg signal regime v _)
    | inr b ↦ simp b (policy_msg-IsWellFormed cfg signal regime v)
  ]

  after_survival-IsWellFormed :
      (gate : Option (Text F)) (cfg : RiskAgentConfig F) (quant : Quant F) (now : T)
      (lessons : List (Lesson F T)) (risk : RiskManager F) (agent : RiskAgent F T)
      (signal : PreSignal F) (regime : Regime)
      → cfg.base_min_ta_threshold ≤ 100
      → IsWellFormed cfg (after_survival gate cfg quant now lessons risk agent signal regime)
  unfolding after_survival
  after_survival-IsWellFormed (some e) cfg quant now lessons risk agent signal regime b =
      survival_msg-IsWellFormed cfg signal regime e b
  after_survival-IsWellFormed none cfg quant now lessons risk agent signal regime b =
      after_policy-IsWellFormed cfg quant risk agent signal regime _

  -- With a base threshold that is a percentage, every verdict on a candidate is well-formed, on every
  -- branch: a reason stands exactly in a blocked verdict, a blocked verdict has size zero, the
  -- threshold is at most 100 and the floor for the brain is at least the configured one.
  pub judge-IsWellFormed :
      (cfg : RiskAgentConfig F) (quant : Quant F) (now : T) (lessons : List (Lesson F T))
      (risk : RiskManager F) (agent : RiskAgent F T) (signal : PreSignal F) (regime : Regime)
      → cfg.base_min_ta_threshold ≤ 100
      → IsWellFormed cfg (judge cfg quant now lessons risk agent signal regime)
  unfolding judge
  judge-IsWellFormed cfg quant now lessons risk agent signal regime b =
      after_survival-IsWellFormed (survival_refusal agent.survival) cfg quant now lessons risk agent
        signal regime b
