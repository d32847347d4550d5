-- ===== src/Agents/Control/Asks.antt =====
-- What the texts that `handle_command` of src/agents/control.rs reads ask for.
use crypto_scalper.Agents.Messages.{ControlCommand, freeze, unfreeze, flat_all, status_request}
use crypto_scalper.Agents.Control.{is_either, command_of, handle_command}
use crypto_scalper.Execution.Position.{Position}
use crypto_scalper.Execution.Risk.{RiskManager}
use crypto_scalper.Prelude.{
  String, ◌≡◌, inl, inr, List, [], ◌∷◌, arith, true, false, ◌⊎◌, Bool-cases, string_eq,
}
use crypto_scalper.Float.{Float}
use crypto_scalper.Text.{Text}

-- The text is a word, with or without its slash.
abbrev pub Says : String → String → String → Type 0
Says slashed bare text = (text ≡ slashed) ⊎ (text ≡ bare)

is_either-Says :
    (slashed bare text : String) → is_either slashed bare text ≡ true → Says slashed bare text
unfolding is_either
is_either-Says slashed bare text h = elim (Bool-cases (string_eq.beq text slashed)) [
  | inl same ↦ inl ((string_eq.beq_iff text slashed).0 same)
  | inr other ↦ inr ((string_eq.beq_iff text bare).0 (ground arith))
]

not_Says :
    (slashed bare text : String) → is_either slashed bare text ≡ false → ¬ Says slashed bare text
unfolding is_either
not_Says slashed bare text h (inl e) = ground (arith, (string_eq.beq_iff text slashed).1 e)
not_Says slashed bare text h (inr e) = ground (arith, (string_eq.beq_iff text bare).1 e)

-- The commands that a text asks for.
pub data Asks {F : Type 0} (text : String) : List (ControlCommand F) → Type 0 where
  to_report :
      Says "/status" "status" text ⊎ Says "/health" "health" text → Asks text (status_request ∷ [])
  to_freeze : Says "/freeze" "freeze" text → Asks text (freeze (Text.plain "operator command") ∷ [])
  to_unfreeze : Says "/unfreeze" "unfreeze" text → Asks text (unfreeze ∷ [])
  to_flatten : Says "/flat" "flat" text → Asks text (flat_all (Text.plain "operator /flat") ∷ [])
  to_list : Says "/positions" "positions" text → Asks text []
  for_help : Says "/help" "help" text ⊎ Says "/start" "start" text → Asks text []
  unheard :
      ¬ Says "/status" "status" text
      → ¬ Says "/positions" "positions" text
      → ¬ Says "/freeze" "freeze" text
      → ¬ Says "/unfreeze" "unfreeze" text
      → ¬ Says "/flat" "flat" text
      → ¬ Says "/health" "health" text
      → ¬ Says "/help" "help" text
      → ¬ Says "/start" "start" text
      → Asks text []

module _ {F T : Type 0} ⦃f : Float F⦄ (risk : RiskManager F) (book : List (Position F T))
    (text : String) where
  pub handle_command-Asks : Asks text (handle_command (command_of text) risk book).0
  unfolding handle_command command_of
  handle_command-Asks = elim (Bool-cases (is_either "/status" "status" text)) [
    | inl a ↦ rw a (to_report (inl (is_either-Says "/status" "status" text a)))
    | inr a ↦ elim (Bool-cases (is_either "/positions" "positions" text)) [
      | inl b ↦ rw (a, b) (to_list (is_either-Says "/positions" "positions" text b))
      | inr b ↦ elim (Bool-cases (is_either "/freeze" "freeze" text)) [
        | inl c ↦ rw (a, b, c) (to_freeze (is_either-Says "/freeze" "freeze" text c))
        | inr c ↦ elim (Bool-cases (is_either "/unfreeze" "unfreeze" text)) [
          | inl d ↦ rw (a, b, c, d) (to_unfreeze (is_either-Says "/unfreeze" "unfreeze" text d))
          | inr d ↦ elim (Bool-cases (is_either "/flat" "flat" text)) [
            | inl e ↦ rw (a, b, c, d, e) (to_flatten (is_either-Says "/flat" "flat" text e))
            | inr e ↦ elim (Bool-cases (is_either "/health" "health" text)) [
              | inl g ↦
                  rw (a, b, c, d, e, g) (to_report (inr (is_either-Says "/health" "health" text g)))
              | inr g ↦ elim (Bool-cases (is_either "/help" "help" text)) [
                | inl h ↦
                    rw (a, b, c, d, e, g, h) (for_help (inl (is_either-Says "/help" "help" text h)))
                | inr h ↦ elim (Bool-cases (is_either "/start" "start" text)) [
                  | inl k ↦
                      rw (a, b, c, d, e, g, h, k)
                        (for_help (inr (is_either-Says "/start" "start" text k)))
                  | inr k ↦
                      rw (a, b, c, d, e, g, h, k)
                        (unheard (not_Says "/status" "status" text a)
                          (not_Says "/positions" "positions" text b)
                          (not_Says "/freeze" "freeze" text c)
                          (not_Says "/unfreeze" "unfreeze" text d) (not_Says "/flat" "flat" text e)
                          (not_Says "/health" "health" text g) (not_Says "/help" "help" text h)
                          (not_Says "/start" "start" text k))
                ]
              ]
            ]
          ]
        ]
      ]
    ]
  ]
