-- ===== src/Agents/RiskAgent.antt =====
-- src/agents/risk.rs: the gates a candidate signal passes, and the events of the risk agent.
pub mod Events
pub mod Messages
pub mod Verdicts
use crypto_scalper.Quant.Types.{QuantSizingInput, QuantSizingResult}
use crypto_scalper.Learning.Lessons.{Lesson}
use crypto_scalper.Execution.Tcm.{TransactionCostModel}
use crypto_scalper.Strategy.Signal.{regime_str, strategy_str, Regime, PreSignal}
use crypto_scalper.Learning.Policy.{evaluate, PolicyVerdict}
use crypto_scalper.Execution.Risk.{validate_signal, can_open_position, calculate_size, RiskManager}
use crypto_scalper.Agents.Messages.{frozen, dead, mode_str, SurvivalState, SurvivalMode}
use crypto_scalper.Prelude.{
  ℕ, String, Bool, true, false, ◌&&◌, Option, none, some, List, [], ltb, if◌then◌else◌, Result, ok,
  err, string_eq,
}
use crypto_scalper.Prelude.Int.{pos, ◌+ℤ◌, clamp_ℤ}
use crypto_scalper.Prelude.Dict.{Dict, lookup, insert}
use crypto_scalper.Float.{Float, ◌⊕◌, ◌⊖◌, ◌⊗◌, ◌⊘◌, ◌<?◌, ◌≤?◌, lit, nought}
use crypto_scalper.Time.{Time}
use crypto_scalper.Text.{Text}
use crypto_scalper.Data.Types.{Side, long, short}

pub record RiskAgentConfig (F : Type 0) : Type 0 where
  pub base_min_ta_threshold : ℕ  -- u8
  pub base_min_llm_floor : ℕ  -- u8
  pub funding_block_threshold : F
  pub tcm : TransactionCostModel F
  pub base_risk_pct : F

pub data RiskOutcome : Type 0 where
  allowed blocked : RiskOutcome

pub record RiskVerdictMsg (F : Type 0) : Type 0 where
  pub signal : PreSignal F
  pub regime : Regime
  pub outcome : RiskOutcome
  pub size : F
  pub size_multiplier : F
  pub effective_ta_threshold : ℕ
  pub effective_llm_floor : ℕ
  pub matched_lessons : List (Text F)
  pub reason : Option (Text F)

-- The engine, where one is configured, as a parameter.
abbrev pub Quant : Type 0 → Type 0
Quant F = Option (QuantSizingInput F → QuantSizingResult F)

-- What the task keeps between events: the last survival state, funding rates and spreads in percent.
pub record RiskAgent (F T : Type 0) : Type 0 where
  pub survival : Option (SurvivalState F T)
  pub funding : Dict String F
  pub spreads : Dict String F

unfoldable pub refuses : SurvivalMode → Bool
refuses frozen = true
refuses dead = true
refuses _ = false

unfoldable pub or_zero {ℓ} : {A : Type ℓ} → A → Option A → A
or_zero a none = a
or_zero a (some b) = b

module _ {F T : Type 0} where
  unfoldable pub survival_refusal : Option (SurvivalState F T) → Option (Text F)
  survival_refusal none = none
  survival_refusal (some s) =
      if refuses s.mode then some (Text.survival (mode_str s.mode)) else none

module _ {F : Type 0} ⦃f : Float F⦄ where
  -- `(base as i32 + delta as i32).clamp(0, 100) as u8`.
  unfoldable pub ta_threshold : RiskAgentConfig F → PolicyVerdict F → ℕ
  ta_threshold cfg v = clamp_ℤ 0 100 (pos cfg.base_min_ta_threshold +ℤ v.ta_threshold_delta)

  unfoldable pub llm_floor : RiskAgentConfig F → PolicyVerdict F → ℕ
  llm_floor cfg v =
      let floor = or_zero cfg.base_min_llm_floor v.llm_min_confidence_floor in
      if ltb floor cfg.base_min_llm_floor then cfg.base_min_llm_floor else floor

  unfoldable pub funding_blocks : RiskAgentConfig F → Side → F → Bool
  funding_blocks cfg long rate = cfg.funding_block_threshold ≤? rate
  funding_blocks cfg short rate = rate ≤? f.neg cfg.funding_block_threshold

  unfoldable pub quant_input : RiskAgentConfig F → RiskManager F → PreSignal F → QuantSizingInput F
  quant_input cfg risk signal = record {
    symbol = signal.symbol;
    strategy = strategy_str signal.strategy;
    side = signal.side;
    entry = signal.entry;
    stop_loss = signal.stop_loss;
    equity = risk.equity;
    base_risk_pct = cfg.base_risk_pct;
  }

  unfoldable pub sized : F → F → QuantSizingResult F → Result F (Text F)
  sized base_size multiplier qr =
      if qr.var_rejected
      then err (Text.var_cap qr.reason)
      else ok (base_size ⊗ multiplier ⊗ qr.size_multiplier)

  unfoldable pub quant_size :
      RiskAgentConfig F → Quant F → RiskManager F → PreSignal F → F → Result F (Text F)
  quant_size cfg none risk signal multiplier =
      ok (calculate_size risk signal.entry signal.stop_loss ⊗ multiplier)
  quant_size cfg (some compute_sizing) risk signal multiplier =
      sized (calculate_size risk signal.entry signal.stop_loss) multiplier
        (compute_sizing (quant_input cfg risk signal))

  unfoldable pub positive_size : Result F (Text F) → Result F (Text F)
  positive_size (err e) = err e
  positive_size (ok size) = if size ≤? nought then err (Text.plain "size <= 0") else ok size

  -- The funding rate gate and the sizing, after the gates of the risk manager.
  unfoldable pub fund_and_size :
      RiskAgentConfig F → Quant F → RiskManager F → PreSignal F → F → F → Result F (Text F)
  fund_and_size cfg quant risk signal rate multiplier =
      if funding_blocks cfg signal.side rate
      then err (Text.funding (rate ⊗ lit 100))
      else positive_size (quant_size cfg quant risk signal multiplier)

  -- The gates that share the learning policy's multiplier: the size, or the reason for the block.
  unfoldable pub clear :
      RiskAgentConfig F
      → Quant F
      → RiskManager F
      → Option F
      → F
      → PreSignal F
      → PolicyVerdict F
      → Result F (Text F)
  clear cfg quant risk spread rate signal v =
      let threshold = ta_threshold cfg v in
      if ltb signal.ta_confidence threshold
      then err (Text.ta_below signal.ta_confidence threshold)
      else elim (can_open_position risk) [
        | err e ↦ err e
        | ok _ ↦
            elim (validate_signal risk signal.entry signal.stop_loss signal.take_profit spread
              cfg.tcm) [
                | err e ↦ err e
                | ok _ ↦ fund_and_size cfg quant risk signal rate v.size_multiplier
              ]
      ]
