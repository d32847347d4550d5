-- ===== src/Examples/Trading.antt =====
-- The brain, the manager and the execution agent of src/agents on one candidate.
use crypto_scalper.Agents.Manager.{
  after_call, choose, fast_approve, is_veto, manager_off, survival_veto, is_go, entry_of, approve,
  build_proposal, ManagerAgentConfig, verdict_after, ManagerVerdict, review,
}
use crypto_scalper.Execution.Position.{
  Position, check_long, check_position, check_side, held_too_long, outcome,
}
use crypto_scalper.Float.Fixed.{fixed_float, Fixed}
use crypto_scalper.Time.{seconds_time}
use crypto_scalper.Execution.Position.Book.{survivor}
use crypto_scalper.Agents.Execution.Flat.{flat_all-empties}
use crypto_scalper.Examples.Inputs.{long_at_100, manager, usd}
use crypto_scalper.Agents.Execution.Run.{run_desk-IsCounted, run_desk}
use crypto_scalper.Agents.Execution.Entry.{
  flat_all_asked, on_answer, tick, verdict, DeskEvent, on_verdict,
}
use crypto_scalper.Agents.RiskAgent.{allowed, RiskVerdictMsg}
use crypto_scalper.Agents.Execution.Count.{IsCounted}
use crypto_scalper.Strategy.Signal.{ranging, momentum, PreSignal}
use crypto_scalper.Agents.Execution.{agent_config, flat_all, Desk, on_tick}
use crypto_scalper.Agents.Execution.Gates.{
  IsEntered, unfilled_opens, on_verdict-acts_iff, tick_abandons, IsNoOrder, IsOpenTo, acts,
}
use crypto_scalper.Agents.Manager.Review.{review-IsBacked, IsBacked, floor_ignored, reviewed}
use crypto_scalper.Execution.Orders.{OrderAck, PlaceOrder}
use crypto_scalper.Agents.Requests.{entry_request, client_id_of, Naming}
use crypto_scalper.Agents.Brain.{
  context_of, on_risk_verdict, fallback_decision, BrainOutcome, ApiAnswer,
}
use crypto_scalper.Prelude.{
  ◌^◌, ◌%◌, ◌+◌, ℕ, ◌≡◌, refl, ◌↔◌, true, false, none, some, List, [], ◌∷◌, arith, ok, string_eq,
  All,
}
use crypto_scalper.Prelude.Int.{pos}
use crypto_scalper.Prelude.Dict.{lookup}
use crypto_scalper.Text.{Text}
use crypto_scalper.Data.Types.{long}

-- An exchange that fills at 100, and one that only acknowledges.
abbrev filled : PlaceOrder Fixed
filled req = ok (record {
  client_id = req.client_id;
  exchange_order_id = "1";
  symbol = req.symbol;
  filled_qty = req.size;
  avg_fill_price = usd 100;
  fee_usd = usd 0;
  ts_ms = pos 0;
})

abbrev resting : OrderAck Fixed
resting = record {
  client_id = "aria";
  exchange_order_id = "2";
  symbol = "BTCUSDT";
  filled_qty = usd 0;
  avg_fill_price = usd 0;
  fee_usd = usd 0;
  ts_ms = pos 0;
}

abbrev naming : Naming Fixed ℕ
naming = record { digest = λ symbol strategy side entry size minute. "0"; millis = λ now. "0" }

abbrev candidate : PreSignal Fixed
candidate = record {
  symbol = "BTCUSDT";
  strategy = momentum;
  side = long;
  entry = usd 100;
  stop_loss = usd 99;
  take_profit = usd 103;
  ta_confidence = 80;
  reason = Text.plain "breakout";
}

abbrev answer : ApiAnswer Fixed
answer = some (ok (fallback_decision (context_of candidate) 70))

abbrev cleared : RiskVerdictMsg Fixed
cleared = record {
  signal = candidate;
  regime = ranging;
  outcome = allowed;
  size = usd 1;
  size_multiplier = usd 1;
  effective_ta_threshold = 65;
  effective_llm_floor = 60;
  matched_lessons = [];
  reason = none;
}

abbrev outcome_of_brain : BrainOutcome Fixed
outcome_of_brain = record {
  signal = candidate;
  regime = ranging;
  risk = cleared;
  decision = fallback_decision (context_of candidate) 70;
  latency_ms = 5;
  offline_fallback = false;
}

abbrev manager_cfg : ManagerAgentConfig
manager_cfg = record {
  enabled = true;
  api_key_is_empty = false;
  fast_approve_min_conf = 90;
  fail_closed_without_llm = true;
  fail_open_on_error = true;
}

abbrev verdict_of_manager : ManagerVerdict Fixed
verdict_of_manager = verdict_after {T = ℕ} none manager_cfg none outcome_of_brain (ok approve) 7

-- One position in the book, counted.
abbrev desk : Desk Fixed ℕ
desk = record {
  risk = record manager { open_positions = 1 };
  book = ("a", long_at_100) ∷ [];
  survival = none;
  last_marks = [];
  last_books = [];
  exec_quality = [];
  decision_prices = [];
}

desk-IsCounted : IsCounted desk
unfolding lookup
desk-IsCounted = record { distinct = (refl, tt); keyed = (refl, tt); counted = omega arith }

on_verdict-acts_iff_example :
    ((acts (on_verdict true naming filled 1000 verdict_of_manager desk).1 ≡ true)
      ↔ IsOpenTo true verdict_of_manager desk)
    × (acts (on_verdict true naming filled 1000 verdict_of_manager desk).1 ≡ false
        → (on_verdict true naming filled 1000 verdict_of_manager desk).0 ≡ desk)
on_verdict-acts_iff_example = on_verdict-acts_iff true naming filled 1000 verdict_of_manager desk

-- The price falls to 98, below the stop at 99.
stop_is_hit : survivor (outcome "BTCUSDT" agent_config 1010 (usd 98) long_at_100) ≡ none
unfolding outcome agent_config check_position held_too_long check_side check_long
stop_is_hit = refl

tick_abandons_example :
    (lookup "a" (on_tick 1010 "BTCUSDT" (usd 98) desk).0.book ≡ none)
    × All IsNoOrder (on_tick 1010 "BTCUSDT" (usd 98) desk).1
unfolding lookup
tick_abandons_example =
    tick_abandons 1010 "BTCUSDT" (usd 98) desk "a" long_at_100 (refl, tt) refl refl stop_is_hit

flat_all-empties_example : (flat_all naming 1010 desk).0.book ≡ []
unfolding lookup
flat_all-empties_example = flat_all-empties naming 1010 desk (refl, tt) (refl, tt)

abbrev day : List (PlaceOrder Fixed × ℕ × DeskEvent Fixed ℕ)
day =
    (filled, 1000, verdict verdict_of_manager)
    ∷ (filled, 1010, tick "BTCUSDT" (usd 98))
    ∷ (filled, 1020, flat_all_asked)
    ∷ []

run_desk-IsCounted_example : IsCounted (run_desk true naming day desk)
run_desk-IsCounted_example = run_desk-IsCounted true naming day desk (ground arith) desk-IsCounted

abbrev desk_after : Desk Fixed ℕ
desk_after = (on_answer 1000 (entry_request naming 1000 verdict_of_manager) (ok resting) desk).0

unfilled_opens_example :
    (x : Position Fixed ℕ) × (lookup
        (client_id_of naming 1000 verdict_of_manager.proposal)
        desk_after.book
      ≡ some x)
    × IsEntered 1000 verdict_of_manager.proposal (usd 100) (usd 1) x
    × (desk_after.risk.open_positions ≡ (desk.risk.open_positions + 1) % 2 ^ 32)
unfolding verdict_after build_proposal entry_of fallback_decision choose manager_off fast_approve
    after_call context_of
unfilled_opens_example = unfilled_opens naming 1000 verdict_of_manager resting desk refl refl

review-IsBacked_example :
    (is_go outcome_of_brain.decision.decision ≡ true)
    × (survival_veto {F = Fixed} {T = ℕ} none ≡ none)
    × IsBacked {T = ℕ} manager_cfg none outcome_of_brain (ok approve) approve
unfolding review fallback_decision is_go survival_veto context_of is_veto verdict_after choose
    manager_off fast_approve after_call
review-IsBacked_example =
    review-IsBacked {T = ℕ} manager_cfg none outcome_of_brain (ok approve) 7 verdict_of_manager refl
      refl refl

floor_ignored_example :
    reviewed {T = ℕ} manager_cfg none
      (ok approve)
      5
      (on_risk_verdict false 70 5 true answer (record cleared { effective_llm_floor = 95 }))
    ≡ reviewed {T = ℕ} manager_cfg none
        (ok approve)
        5
        (on_risk_verdict false 70 5 true answer cleared)
floor_ignored_example =
    floor_ignored {T = ℕ} manager_cfg none (ok approve) false true 70 5 answer cleared 95
