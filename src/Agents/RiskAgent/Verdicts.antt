-- ===== src/Agents/RiskAgent/Verdicts.antt =====
-- What the verdicts of src/agents/risk.rs guarantee.
use crypto_scalper.Learning.Policy.Verdict.{IsPermissive, evaluate-allowed_iff}
use crypto_scalper.Agents.RiskAgent.Events.{
  after_survival, policy_msg, survival_msg, after_policy, cleared_msg, judge,
}
use crypto_scalper.Learning.Policy.{evaluate, PolicyVerdict}
use crypto_scalper.Learning.Lessons.{Lesson}
use crypto_scalper.Execution.Risk.{validate_signal, can_open_position, RiskManager}
use crypto_scalper.Strategy.Signal.{regime_str, strategy_str, Regime, PreSignal}
use crypto_scalper.Prelude.{
  ◌≤◌, ◌≡◌, refl, ◌↔◌, inl, inr, true, false, Option, none, List, arith, Bool-cases, Option-cases,
  Result, ok, err, string_eq, All,
}
use crypto_scalper.Prelude.Dict.{lookup}
use crypto_scalper.Float.{Float, ◌≤?◌, nought}
use crypto_scalper.Time.{Time}
use crypto_scalper.Text.{Text}
use crypto_scalper.Agents.RiskAgent.{
  quant_size, survival_refusal, or_zero, ta_threshold, RiskVerdictMsg, RiskAgent, funding_blocks,
  Quant, positive_size, clear, RiskAgentConfig, fund_and_size, allowed,
}

module _ {F : Type 0} ⦃f : Float F⦄ where
  -- Every gate after the learning policy stands open, and the size that results.
  pub record IsClear (cfg : RiskAgentConfig F) (quant : Quant F) (risk : RiskManager F)
      (spread : Option F) (rate : F) (signal : PreSignal F) (v : PolicyVerdict F) (size : F)
      : Type 0 where
    pub confident : ta_threshold cfg v ≤ signal.ta_confidence
    pub may_open : can_open_position risk ≡ ok tt
    pub sound :
        validate_signal risk signal.entry signal.stop_loss signal.take_profit spread cfg.tcm ≡ ok tt
    pub funded : funding_blocks cfg signal.side rate ≡ false
    pub sized_by : quant_size cfg quant risk signal v.size_multiplier ≡ ok size
    pub size_positive : (size ≤? nought) ≡ false

  positive_size-positive :
      (r : Result F (Text F)) (size : F)
      → positive_size r ≡ ok size
      → (r ≡ ok size) × ((size ≤? nought) ≡ false)
  unfolding positive_size
  positive_size-positive (err e) size h = ground arith
  positive_size-positive (ok s) size h = ground arith

  fund_and_size-positive :
      (cfg : RiskAgentConfig F) (quant : Quant F) (risk : RiskManager F) (signal : PreSignal F)
      (rate multiplier size : F)
      → fund_and_size cfg quant risk signal rate multiplier ≡ ok size
      → (funding_blocks cfg signal.side rate ≡ false)
        × (quant_size cfg quant risk signal multiplier ≡ ok size)
        × ((size ≤? nought) ≡ false)
  unfolding fund_and_size
  fund_and_size-positive cfg quant risk signal rate multiplier size h =
      ground (arith, positive_size-positive (quant_size cfg quant risk signal multiplier) size)

  clear-IsClear :
      (cfg : RiskAgentConfig F) (quant : Quant F) (risk : RiskManager F) (spread : Option F)
      (rate : F) (signal : PreSignal F) (v : PolicyVerdict F) (size : F)
      → clear cfg quant risk spread rate signal v ≡ ok size
      → IsClear cfg quant risk spread rate signal v size
  unfolding clear
  clear-IsClear cfg quant risk spread rate signal v size h =
      ground (arith, fund_and_size-positive cfg quant risk signal rate v.size_multiplier size)

  IsClear-clear :
      (cfg : RiskAgentConfig F) (quant : Quant F) (risk : RiskManager F) (spread : Option F)
      (rate : F) (signal : PreSignal F) (v : PolicyVerdict F) (size : F)
      → IsClear cfg quant risk spread rate signal v size
      → clear cfg quant risk spread rate signal v ≡ ok size
  unfolding clear fund_and_size positive_size
  IsClear-clear cfg quant risk spread rate signal v size c = ground arith

module _ {F : Type 0} ⦃f : Float F⦄ (cfg : RiskAgentConfig F) (signal : PreSignal F)
    (regime : Regime) (v : PolicyVerdict F) where
  cleared_msg-allowed :
      (r : Result F (Text F)) (size : F)
      → (cleared_msg cfg signal regime v r).outcome ≡ allowed
      → (cleared_msg cfg signal regime v r).size ≡ size
      → r ≡ ok size
  unfolding cleared_msg
  cleared_msg-allowed (ok s) size h e = ground arith
  cleared_msg-allowed (err x) size h e = ground arith

  cleared_msg-of-ok :
      (r : Result F (Text F)) (size : F)
      → r ≡ ok size
      → ((cleared_msg cfg signal regime v r).outcome ≡ allowed)
        × ((cleared_msg cfg signal regime v r).size ≡ size)
  unfolding cleared_msg
  cleared_msg-of-ok r size e = rw e (refl, refl)

module _ {F T : Type 0} ⦃f : Float F⦄ ⦃t : Time T⦄ (cfg : RiskAgentConfig F) (quant : Quant F)
    (risk : RiskManager F) (agent : RiskAgent F T) (signal : PreSignal F) (regime : Regime) where
  -- What the gates after the learning policy read of the agent's maps.
  abbrev pub IsClearFor : PolicyVerdict F → F → Type 0
  IsClearFor v =
      IsClear cfg quant risk (lookup signal.symbol agent.spreads)
        (or_zero nought (lookup signal.symbol agent.funding)) signal v

  abbrev after : PolicyVerdict F → RiskVerdictMsg F
  after v = after_policy cfg quant risk agent signal regime v

  after_policy-allowed :
      (v : PolicyVerdict F) (size : F)
      → (after v).outcome ≡ allowed
      → (after v).size ≡ size
      → (v.allowed ≡ true) × IsClearFor v size
  unfolding after_policy policy_msg
  after_policy-allowed v size h e = elim (Bool-cases v.allowed) [
    | inl a ↦ (
      a,
      clear-IsClear cfg quant risk _ _ signal v size
          (cleared_msg-allowed cfg signal regime v _ size (ground arith) (ground arith)),
    )
    | inr b ↦ ground arith
  ]

  after_policy-of-clear :
      (v : PolicyVerdict F) (size : F)
      → v.allowed ≡ true
      → IsClearFor v size
      → ((after v).outcome ≡ allowed) × ((after v).size ≡ size)
  unfolding after_policy
  after_policy-of-clear v size a c =
      let built =
        cleared_msg-of-ok cfg signal regime v _ size
          (IsClear-clear cfg quant risk _ _ signal v size c) in
      (ground (arith, built.0), ground (arith, built.1))

module _ {F T : Type 0} ⦃f : Float F⦄ ⦃t : Time T⦄ (cfg : RiskAgentConfig F) (quant : Quant F)
    (now : T) (lessons : List (Lesson F T)) (risk : RiskManager F) (agent : RiskAgent F T)
    (signal : PreSignal F) (regime : Regime) where
  -- The candidate passes every gate at this size.
  pub record IsAdmitted (size : F) : Type 0 where
    pub survival_open : survival_refusal agent.survival ≡ none
    pub no_ban :
        All
          (IsPermissive now (strategy_str signal.strategy) (regime_str regime) signal.symbol)
          lessons
    pub gates :
        IsClearFor cfg quant risk agent signal regime
          (evaluate now (strategy_str signal.strategy) (regime_str regime) signal.symbol lessons)
          size

  judge-admits :
      (size : F)
      → (judge cfg quant now lessons risk agent signal regime).outcome ≡ allowed
      → (judge cfg quant now lessons risk agent signal regime).size ≡ size
      → IsAdmitted size
  unfolding judge after_survival survival_msg
  judge-admits size h e = elim (Option-cases (survival_refusal agent.survival)) [
    | inl o ↦
        let passed =
          after_policy-allowed cfg quant risk agent signal regime
            (evaluate now (strategy_str signal.strategy) (regime_str regime) signal.symbol lessons)
            size (ground arith) (ground arith) in
        record {
          survival_open = o;
          no_ban = (evaluate-allowed_iff now _ _ _ lessons).0 passed.0;
          gates = passed.1;
        }
    | inr (x, c) ↦ ground arith
  ]

  judge-of-admitted :
      (size : F)
      → IsAdmitted size
      → ((judge cfg quant now lessons risk agent signal regime).outcome ≡ allowed)
        × ((judge cfg quant now lessons risk agent signal regime).size ≡ size)
  unfolding judge after_survival
  judge-of-admitted size a =
      let passed =
        after_policy-of-clear cfg quant risk agent signal regime _ size
          ((evaluate-allowed_iff now _ _ _ lessons).1 a.no_ban) a.gates in
      (ground (arith, a.survival_open, passed.0), ground (arith, a.survival_open, passed.1))

  -- The agent allows a candidate at a size exactly when the last survival state, if any, is neither
  -- frozen nor dead, no lesson in force bans the trade, the confidence reaches the threshold, the
  -- risk manager may open a position and accepts the signal at the last spread, the last funding rate
  -- does not block the side, and the sizing gives this size, which is not at or below zero.
  pub judge-allowed_iff :
      (size : F)
      → (((judge cfg quant now lessons risk agent signal regime).outcome ≡ allowed)
          × ((judge cfg quant now lessons risk agent signal regime).size ≡ size))
        ↔ IsAdmitted size
  judge-allowed_iff size = (λ (h, e). judge-admits size h e, judge-of-admitted size)
