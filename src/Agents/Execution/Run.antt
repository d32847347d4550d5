-- ===== src/Agents/Execution/Run.antt =====
-- The counter and the book over any run of the agent of src/agents/execution.rs.
use crypto_scalper.Agents.Execution.Flat.{flat_all-count, flat_all-IsCounted}
use crypto_scalper.Agents.Manager.{ManagerVerdict}
use crypto_scalper.Execution.Orders.{OrderAck, PlaceOrder, OrderRequest}
use crypto_scalper.Agents.Execution.Count.{
  on_fill-IsCounted, on_tick-le, on_tick-IsCounted, IsCounted,
}
use crypto_scalper.Agents.Requests.{entry_request, Naming}
use crypto_scalper.Agents.Execution.{Desk}
use crypto_scalper.Prelude.{
  ◌+◌, ◌^◌, ◌≤◌, ◌<◌, String, inl, inr, Bool, List, [], ◌∷◌, arith, Bool-cases, Result, ok, err,
  string_eq, length,
}
use crypto_scalper.Prelude.Dict.{Dict, insert}
use crypto_scalper.Float.{Float, ◌≤?◌, nought}
use crypto_scalper.Time.{Time}
use crypto_scalper.Text.{Text}
use crypto_scalper.Execution.Risk
use crypto_scalper.Agents.Execution.Entry.{
  actual_request, fill_price_of, declines, DeskEvent, on_fill, on_answer, on_desk_event, on_verdict,
  tick, book_ticker, survival_updated, flat_all_asked, verdict,
}

module _ {F T : Type 0} ⦃f : Float F⦄ ⦃t : Time T⦄ where
  on_answer-IsCounted :
      (now : T) (req : OrderRequest F) (answer : Result (OrderAck F) (Text F)) (d : Desk F T)
      → d.risk.open_positions + 1 < 2 ^ 32
      → IsCounted d
      → IsCounted (on_answer now req answer d).0
  unfolding on_answer
  on_answer-IsCounted now req (err e) d b c = c
  on_answer-IsCounted now req (ok ack) d b c = elim (Bool-cases (fill_price_of req ack ≤? nought)) [
    | inl low ↦ rw low c
    | inr high ↦ rw high (on_fill-IsCounted now req ack (fill_price_of req ack) d b c)
  ]

  on_answer-le :
      (now : T) (req : OrderRequest F) (answer : Result (OrderAck F) (Text F)) (d : Desk F T)
      → d.risk.open_positions + 1 < 2 ^ 32
      → (on_answer now req answer d).0.risk.open_positions ≤ d.risk.open_positions + 1
  unfolding on_answer on_fill Risk.on_position_opened
  on_answer-le now req (err e) d b = omega arith
  on_answer-le now req (ok ack) d b = ground arith

  noted-IsCounted :
      (m : Dict String F) (d : Desk F T)
      → IsCounted d
      → IsCounted (record d { decision_prices = m })
  noted-IsCounted m d c = record { distinct = c.distinct; keyed = c.keyed; counted = c.counted }

  on_verdict-IsCounted :
      (honor : Bool) (naming : Naming F T) (place : PlaceOrder F) (now : T) (v : ManagerVerdict F)
      (d : Desk F T)
      → d.risk.open_positions + 1 < 2 ^ 32
      → IsCounted d
      → IsCounted (on_verdict honor naming place now v d).0
  unfolding on_verdict
  on_verdict-IsCounted honor naming place now v d b c = elim (Bool-cases (declines honor v d)) [
    | inl no_entry ↦ rw no_entry c
    | inr entry ↦
        rw entry
          (on_answer-IsCounted now (entry_request naming now v) _ _ b (noted-IsCounted _ d c))
  ]

  on_verdict-le :
      (honor : Bool) (naming : Naming F T) (place : PlaceOrder F) (now : T) (v : ManagerVerdict F)
      (d : Desk F T)
      → d.risk.open_positions + 1 < 2 ^ 32
      → (on_verdict honor naming place now v d).0.risk.open_positions ≤ d.risk.open_positions + 1
  unfolding on_verdict
  on_verdict-le honor naming place now v d b = ground (
    arith,
    on_answer-le now (entry_request naming now v) (place (actual_request naming now v d))
        (record d {
          decision_prices = insert v.proposal.symbol v.proposal.entry d.decision_prices;
        }),
  )

  pub event-IsCounted :
      (honor : Bool) (naming : Naming F T) (place : PlaceOrder F) (now : T) (e : DeskEvent F T)
      (d : Desk F T)
      → d.risk.open_positions + 1 < 2 ^ 32
      → IsCounted d
      → IsCounted (on_desk_event honor naming place now e d).0
  unfolding on_desk_event
  event-IsCounted honor naming place now (tick symbol price) d b c =
      on_tick-IsCounted now symbol price d c
  event-IsCounted honor naming place now (book_ticker symbol top) d b c = record {
    distinct = c.distinct;
    keyed = c.keyed;
    counted = c.counted;
  }
  event-IsCounted honor naming place now (survival_updated s) d b c = record {
    distinct = c.distinct;
    keyed = c.keyed;
    counted = c.counted;
  }
  event-IsCounted honor naming place now flat_all_asked d b c = flat_all-IsCounted naming now d c
  event-IsCounted honor naming place now (verdict v) d b c =
      on_verdict-IsCounted honor naming place now v d b c

  event-le :
      (honor : Bool) (naming : Naming F T) (place : PlaceOrder F) (now : T) (e : DeskEvent F T)
      (d : Desk F T)
      → d.risk.open_positions + 1 < 2 ^ 32
      → (on_desk_event honor naming place now e d).0.risk.open_positions ≤ d.risk.open_positions + 1
  unfolding on_desk_event
  event-le honor naming place now (tick symbol price) d b =
      omega (arith, on_tick-le now symbol price d)
  event-le honor naming place now (book_ticker symbol top) d b = omega arith
  event-le honor naming place now (survival_updated s) d b = omega arith
  event-le honor naming place now flat_all_asked d b = omega (arith, flat_all-count naming now d)
  event-le honor naming place now (verdict v) d b = on_verdict-le honor naming place now v d b

  -- Events with the time of each and the exchange's answers to it.
  abbrev pub run_desk :
      Bool → Naming F T → List (PlaceOrder F × T × DeskEvent F T) → Desk F T → Desk F T
  run_desk honor naming [] d = d
  run_desk honor naming ((place, now, e) ∷ es) d =
      run_desk honor naming es (on_desk_event honor naming place now e d).0

  -- Over any run of events, shorter than the counter's room, the book keeps its ids distinct, each
  -- position stands under its own id, and the risk manager counts at least as many open positions as
  -- the book holds, whatever the exchange answers.
  pub run_desk-IsCounted :
      (honor : Bool) (naming : Naming F T) (es : List (PlaceOrder F × T × DeskEvent F T))
      (d : Desk F T)
      → d.risk.open_positions + length es < 2 ^ 32
      → IsCounted d
      → IsCounted (run_desk honor naming es d)
  run_desk-IsCounted honor naming [] d b c = c
  run_desk-IsCounted honor naming ((place, now, e) ∷ es) d b c =
      run_desk-IsCounted honor naming es _
        (omega (arith, event-le honor naming place now e d (omega arith)))
        (event-IsCounted honor naming place now e d (omega arith) c)
