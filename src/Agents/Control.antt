-- ===== src/Agents/Control.antt =====
-- src/agents/control.rs: the operator's commands, who may give them, and what they do to the risk
-- manager. JSON and HTTP are left out: an update is its three fields. `normalise` stands for
-- `trim().to_lowercase()`.
pub mod Access
pub mod Asks
use crypto_scalper.Execution.Position.{Position}
use crypto_scalper.Execution.Risk.{snapshot, RiskManager, RiskSnapshot}
use crypto_scalper.Prelude.{
  ℕ, String, Bool, false, not, ◌&&◌, ◌||◌, List, [], ◌∷◌, ◌++◌, if◌then◌else◌, string_eq, length,
}
use crypto_scalper.Prelude.Int.{ℤ, ltb_ℤ, leb_ℤ}
use crypto_scalper.Float.{Float}
use crypto_scalper.Text.{Text}
use crypto_scalper.Execution.Risk
use crypto_scalper.Agents.Messages.{ControlCommand, freeze, unfreeze, flat_all, status_request}

-- What `handle_command` matches on, with or without a slash.
pub data Command : Type 0 where
  status positions freezing unfreezing flat health help unknown : Command

unfoldable pub is_either : String → String → String → Bool
is_either a b cmd = string_eq.beq cmd a || string_eq.beq cmd b

unfoldable pub command_of : String → Command
command_of cmd =
    if is_either "/status" "status" cmd
    then status
    else if is_either "/positions" "positions" cmd
    then positions
    else if is_either "/freeze" "freeze" cmd
    then freezing
    else if is_either "/unfreeze" "unfreeze" cmd
    then unfreezing
    else if is_either "/flat" "flat" cmd
    then flat
    else if is_either "/health" "health" cmd
    then health
    else if is_either "/help" "help" cmd || is_either "/start" "start" cmd
    then help
    else unknown

pub data Reply (F T : Type 0) : Type 0 where
  status_of : RiskSnapshot F → ℕ → Reply F T
  no_positions : Reply F T
  open_positions : List (Position F T) → Reply F T
  said : String → Reply F T
  help_text : Reply F T
  silence : Reply F T

unfoldable pub list_positions : {F T : Type 0} → List (Position F T) → Reply F T
list_positions [] = no_positions
list_positions (p ∷ ps) = open_positions (p ∷ ps)

module _ {F T : Type 0} ⦃f : Float F⦄ where
  -- The commands it publishes and the reply, over the book's snapshot.
  unfoldable pub handle_command :
      Command → RiskManager F → List (Position F T) → List (ControlCommand F) × Reply F T
  handle_command status risk book = (status_request ∷ [], status_of (snapshot risk) (length book))
  handle_command positions risk book = ([], list_positions book)
  handle_command freezing risk book =
      (freeze (Text.plain "operator command") ∷ [], said "🧊 frozen — new entries blocked")
  handle_command unfreezing risk book = (unfreeze ∷ [], said "✅ unfrozen — trading resumed")
  handle_command flat risk book =
      (flat_all (Text.plain "operator /flat") ∷ [], said "🔻 flat-all dispatched")
  handle_command health risk book = (
    status_request ∷ [],
    said "OK — runtime pipeline snapshot printed in log; use `positions` for open trades.",
  )
  handle_command help risk book = ([], help_text)
  handle_command unknown risk book = ([], silence)

-- An update of the Telegram bot: its id, its sender and its text, 0 and "" where a field is missing.
pub record Update : Type 0 where
  pub update_id : ℤ
  pub from_id : ℤ
  pub text : String

-- What a message sent to Telegram holds.
pub data Outgoing (F T : Type 0) : Type 0 where
  not_allowed : ℤ → Outgoing F T
  answer : Reply F T → Outgoing F T

unfoldable pub same_id : ℤ → ℤ → Bool
same_id a b = leb_ℤ a b && leb_ℤ b a

unfoldable pub contains : ℤ → List ℤ → Bool
contains id [] = false
contains id (a ∷ rest) = same_id id a || contains id rest

-- `!allowed.is_empty() && !allowed.contains(&from_id)`.
unfoldable pub is_refused : List ℤ → ℤ → Bool
is_refused [] id = false
is_refused (a ∷ rest) id = not (contains id (a ∷ rest))

unfoldable pub replies : {F T : Type 0} → Reply F T → List (Outgoing F T)
replies silence = []
replies r = answer r ∷ []

module _ {F T : Type 0} ⦃f : Float F⦄ where
  -- One round of the loop over the updates: the last id, what is published, what is sent.
  unfoldable pub on_update :
      (String → String)
      → List ℤ
      → RiskManager F
      → List (Position F T)
      → Update
      → List (ControlCommand F) × List (Outgoing F T)
  on_update normalise allowed risk book u =
      if is_refused allowed u.from_id
      then ([], not_allowed u.from_id ∷ [])
      else let (sent, reply) = handle_command (command_of (normalise u.text)) risk book in
        (sent, replies reply)

  -- The loop over one response: the last id, what is published, what is sent.
  unfoldable pub poll :
      (String → String)
      → List ℤ
      → RiskManager F
      → List (Position F T)
      → List Update
      → ℤ
      → ℤ × List (ControlCommand F) × List (Outgoing F T)
  poll normalise allowed risk book [] last = (last, [], [])
  poll normalise allowed risk book (u ∷ us) last =
      let (published, sent) = on_update normalise allowed risk book u in
      let (id, more_published, more_sent) =
        poll normalise allowed risk book us
          (if ltb_ℤ last u.update_id then u.update_id else last) in
      (id, published ++ more_published, sent ++ more_sent)

module _ {F : Type 0} ⦃f : Float F⦄ where
  -- The loop that keeps the risk manager in line with the commands on the bus.
  unfoldable pub obey_one : ControlCommand F → RiskManager F → RiskManager F
  obey_one (freeze reason) risk = Risk.freeze reason risk
  obey_one unfreeze risk = Risk.unfreeze risk
  obey_one _ risk = risk

  unfoldable pub obey : List (ControlCommand F) → RiskManager F → RiskManager F
  obey [] risk = risk
  obey (c ∷ cs) risk = obey cs (obey_one c risk)
