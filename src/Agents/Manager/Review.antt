-- ===== src/Agents/Manager/Review.antt =====
-- What stands behind an action of src/agents/manager.rs, and what has no say in it.
use crypto_scalper.Agents.RiskAgent.{RiskVerdictMsg}
use crypto_scalper.Agents.Messages.{SurvivalState}
use crypto_scalper.Agents.Brain.{ApiAnswer, BrainOutcome, on_risk_verdict}
use crypto_scalper.Prelude.{
  ℕ, ◌≤◌, ◌≡◌, ◌⊎◌, List, [], ◌∷◌, refl, inl, inr, Bool, true, false, Option, none, some, arith,
  Bool-cases, Result, ok, err, string_eq,
}
use crypto_scalper.Float.{Float}
use crypto_scalper.Text.{Text}
use crypto_scalper.Agents.Manager.{
  survival_veto, manager_off, is_go, fast_approve, ManagerAction, is_veto, build_proposal,
  ManagerProposal, review, manager_off_action, verdict_after, choose, after_call, is_well, is_empty,
  approve, ManagerAgentConfig, ManagerVerdict,
}

-- What an action that is no veto stands on, where the manager fails closed: a decision of the brain
-- that was not its fallback, a confidence of the brain at which the manager is not asked, or the reply
-- of the manager's model, of which it is the very action.
pub data IsBacked {F T : Type 0} (cfg : ManagerAgentConfig) (survival : Option (SurvivalState F T))
    (brain : BrainOutcome F) (reply : Result (ManagerAction F) (Text F)) (action : ManagerAction F)
    : Type 0 where
  online_brain :
      (cfg.enabled ≡ false) ⊎ (cfg.api_key_is_empty ≡ true)
      → brain.offline_fallback ≡ false
      → action ≡ approve
      → IsBacked cfg survival brain reply action
  confident_brain :
      manager_off cfg ≡ false
      → cfg.fast_approve_min_conf ≤ brain.decision.confidence
      → brain.risk.matched_lessons ≡ []
      → is_well survival ≡ true
      → action ≡ approve
      → IsBacked cfg survival brain reply action
  manager_reply :
      manager_off cfg ≡ false
      → fast_approve cfg survival brain ≡ false
      → reply ≡ ok action
      → IsBacked cfg survival brain reply action

empty-nil : {A : Type 0} (xs : List A) → is_empty xs ≡ true → xs ≡ []
unfolding is_empty
empty-nil [] h = refl
empty-nil (x ∷ xs) h = absurd (ground arith)

off-or :
    (cfg : ManagerAgentConfig)
    → manager_off cfg ≡ true
    → (cfg.enabled ≡ false) ⊎ (cfg.api_key_is_empty ≡ true)
unfolding manager_off
off-or cfg h = elim (Bool-cases cfg.enabled) [ inl on ↦ inr (ground arith) | inr off ↦ inl off ]

module _ {F : Type 0} where
  after_call-replied :
      (cfg : ManagerAgentConfig) (reply : Result (ManagerAction F) (Text F))
      → cfg.fail_closed_without_llm ≡ true
      → is_veto (after_call cfg reply) ≡ false
      → reply ≡ ok (after_call cfg reply)
  unfolding after_call is_veto
  after_call-replied cfg (ok a) c h = refl
  after_call-replied cfg (err e) c h = absurd (ground arith)

  off_online :
      (offline closed : Bool)
      → closed ≡ true
      → is_veto (manager_off_action {F = F} offline closed) ≡ false
      → (offline ≡ false) × (manager_off_action {F = F} offline closed ≡ approve)
  unfolding manager_off_action is_veto
  off_online offline closed c h = ground arith

module _ {F T : Type 0} where
  fast-confident :
      (cfg : ManagerAgentConfig) (survival : Option (SurvivalState F T)) (brain : BrainOutcome F)
      → fast_approve cfg survival brain ≡ true
      → (cfg.fast_approve_min_conf ≤ brain.decision.confidence)
        × (is_empty brain.risk.matched_lessons ≡ true)
        × (is_well survival ≡ true)
  unfolding fast_approve
  fast-confident cfg survival brain h = ground arith

  choose-IsBacked :
      (cfg : ManagerAgentConfig) (survival : Option (SurvivalState F T)) (brain : BrainOutcome F)
      (reply : Result (ManagerAction F) (Text F))
      → cfg.fail_closed_without_llm ≡ true
      → is_veto (choose cfg survival brain reply) ≡ false
      → IsBacked cfg survival brain reply (choose cfg survival brain reply)
  unfolding choose
  choose-IsBacked cfg survival brain reply c h = elim (Bool-cases (manager_off cfg)) [
    | inl off ↦
        let online =
          off_online {F = F} brain.offline_fallback cfg.fail_closed_without_llm c (ground arith) in
        rw off (online_brain (off-or cfg off) online.0 online.1)
    | inr on ↦ elim (Bool-cases (fast_approve cfg survival brain)) [
      | inl fast ↦
          let (high, untaught, well) = fast-confident cfg survival brain fast in
          rw (on, fast)
            (confident_brain on high (empty-nil brain.risk.matched_lessons untaught) well refl)
      | inr slow ↦
          rw (on, slow) (manager_reply on slow (after_call-replied cfg reply c (ground arith)))
    ]
  ]

module _ {F T : Type 0} ⦃f : Float F⦄ where
  verdict_after-IsBacked :
      (gate : Option (Text F)) (cfg : ManagerAgentConfig) (survival : Option (SurvivalState F T))
      (brain : BrainOutcome F) (reply : Result (ManagerAction F) (Text F)) (latency : ℕ)
      → cfg.fail_closed_without_llm ≡ true
      → is_veto (verdict_after gate cfg survival brain reply latency).action ≡ false
      → (gate ≡ none)
        × IsBacked cfg survival brain reply
            (verdict_after gate cfg survival brain reply latency).action
  unfolding verdict_after is_veto
  verdict_after-IsBacked (some reason) cfg survival brain reply latency c h = absurd (ground arith)
  verdict_after-IsBacked none cfg survival brain reply latency c h =
      (refl, choose-IsBacked cfg survival brain reply c h)

  -- Where the manager fails closed, a verdict that is no veto is given only on a decision to go, while
  -- the last survival state is neither frozen nor dead, and only in one of three ways: as an approval
  -- where the manager is off (disabled or without a key) and the brain was reached; as an approval
  -- where the manager is on, the brain's confidence reaches the fast path, no lesson matched and the
  -- survival state, if any, is healthy; or, where it is on and the fast path is closed, as the very
  -- action that the manager's model answered.
  pub review-IsBacked :
      (cfg : ManagerAgentConfig) (survival : Option (SurvivalState F T)) (brain : BrainOutcome F)
      (reply : Result (ManagerAction F) (Text F)) (latency : ℕ) (v : ManagerVerdict F)
      → cfg.fail_closed_without_llm ≡ true
      → review cfg survival brain reply latency ≡ some v
      → is_veto v.action ≡ false
      → (is_go brain.decision.decision ≡ true)
        × (survival_veto survival ≡ none)
        × IsBacked cfg survival brain reply v.action
  unfolding review
  review-IsBacked cfg survival brain reply latency v c e h =
      elim (Bool-cases (is_go brain.decision.decision)) [
        | inl going ↦
            let same : verdict_after (survival_veto survival) cfg survival brain reply latency ≡ v =
              ground arith in
            let backed =
              verdict_after-IsBacked (survival_veto survival) cfg survival brain reply latency c
                (ground arith) in
            (going, backed.0, rw (← same) backed.1)
        | inr staying ↦ absurd (ground arith)
      ]

-- What the brain and the manager make of a verdict of the risk agent: the proposal and the action.
abbrev pub reaction :
    {F : Type 0} → Option (ManagerVerdict F) → Option (ManagerProposal F × ManagerAction F)
reaction none = none
reaction (some v) = some (v.proposal, v.action)

module _ {F T : Type 0} ⦃f : Float F⦄ where
  abbrev pub reviewed :
      ManagerAgentConfig
      → Option (SurvivalState F T)
      → Result (ManagerAction F) (Text F)
      → ℕ
      → Option (BrainOutcome F)
      → Option (ManagerProposal F × ManagerAction F)
  reviewed cfg survival reply latency none = none
  reviewed cfg survival reply latency (some brain) =
      reaction (review cfg survival brain reply latency)

  -- The floor that the risk agent asks of the brain's confidence has no say: whatever it is, the same
  -- answers of the models lead to the same proposal and the same action.
  pub floor_ignored :
      (cfg : ManagerAgentConfig) (survival : Option (SurvivalState F T))
      (reply : Result (ManagerAction F) (Text F)) (key_is_empty known : Bool)
      (threshold latency : ℕ) (answer : ApiAnswer F) (m : RiskVerdictMsg F) (floor : ℕ)
      → reviewed cfg survival reply latency (
          on_risk_verdict key_is_empty threshold latency known answer
            (record m { effective_llm_floor = floor }))
        ≡ reviewed cfg survival reply latency
            (on_risk_verdict key_is_empty threshold latency known answer m)
  unfolding on_risk_verdict review verdict_after build_proposal choose fast_approve
  floor_ignored cfg survival reply key_is_empty known threshold latency answer m floor =
      ground arith
