-- ===== src/Agents/Messages.antt =====
-- src/agents/messages.rs: the survival state, the commands of the operator and the names of the agents.
use crypto_scalper.Prelude.{
  refl, ap, ◌∙◌, sym, Eq, if◌then◌else◌, ◌≡◌, ℕ, String, Option, List, string_eq,
}
use crypto_scalper.Text.{Text}

pub data SurvivalMode : Type 0 where
  healthy cautious defensive frozen dead : SurvivalMode

unfoldable pub mode_str : SurvivalMode → String
mode_str healthy = "healthy"
mode_str cautious = "cautious"
mode_str defensive = "defensive"
mode_str frozen = "frozen"
mode_str dead = "dead"

pub record SurvivalState (F T : Type 0) : Type 0 where
  pub score : ℕ  -- u8
  pub mode : SurvivalMode
  pub equity_usd : F
  pub initial_equity_usd : F
  pub death_line_usd : F
  pub peak_equity_usd : F
  pub realized_pnl_today : F
  pub realized_pnl_pct_today : F
  pub drawdown_pct : F
  pub open_positions : ℕ
  pub consecutive_losses : ℕ
  pub last_loss_at : Option T
  pub size_multiplier : F
  pub reasons : List (Text F)
  pub ts : T

pub data ControlCommand (F : Type 0) : Type 0 where
  freeze : Text F → ControlCommand F
  unfreeze : ControlCommand F
  flat_all : Text F → ControlCommand F
  reset_daily : ControlCommand F
  status_request : ControlCommand F

pub data AgentId : Type 0 where
  data_agent feeds_agent signal_agent risk_agent brain_agent learning_agent manager_agent
        execution_agent monitor_agent survival_agent control_agent :
      AgentId

unfoldable pub agent_str : AgentId → String
agent_str data_agent = "data"
agent_str feeds_agent = "feeds"
agent_str signal_agent = "signal"
agent_str risk_agent = "risk"
agent_str brain_agent = "brain"
agent_str learning_agent = "learning"
agent_str manager_agent = "manager"
agent_str execution_agent = "execution"
agent_str monitor_agent = "monitor"
agent_str survival_agent = "survival"
agent_str control_agent = "control"

-- The name of an agent determines it.
abbrev pub of_str : String → AgentId
of_str s =
    if string_eq.beq s "data"
    then data_agent
    else if string_eq.beq s "feeds"
    then feeds_agent
    else if string_eq.beq s "signal"
    then signal_agent
    else if string_eq.beq s "risk"
    then risk_agent
    else if string_eq.beq s "brain"
    then brain_agent
    else if string_eq.beq s "learning"
    then learning_agent
    else if string_eq.beq s "manager"
    then manager_agent
    else if string_eq.beq s "execution"
    then execution_agent
    else if string_eq.beq s "monitor"
    then monitor_agent
    else if string_eq.beq s "survival"
    then survival_agent
    else control_agent

pub of_str-agent_str : (a : AgentId) → of_str (agent_str a) ≡ a
unfolding agent_str
of_str-agent_str data_agent = refl
of_str-agent_str feeds_agent = refl
of_str-agent_str signal_agent = refl
of_str-agent_str risk_agent = refl
of_str-agent_str brain_agent = refl
of_str-agent_str learning_agent = refl
of_str-agent_str manager_agent = refl
of_str-agent_str execution_agent = refl
of_str-agent_str monitor_agent = refl
of_str-agent_str survival_agent = refl
of_str-agent_str control_agent = refl

instance abbrev pub agent_eq : Eq AgentId
agent_eq = record {
  beq = λ a b. string_eq.beq (agent_str a) (agent_str b);
  beq_iff = λ a b. (
    λ h. sym (of_str-agent_str a) ∙ ap of_str ((string_eq.beq_iff _ _).0 h) ∙ of_str-agent_str b,
    λ e. (string_eq.beq_iff _ _).1 (ap agent_str e),
  );
}
