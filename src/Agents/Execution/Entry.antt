-- ===== src/Agents/Execution/Entry.antt =====
-- src/agents/execution.rs: an entry, from the manager's verdict to the open position, and the events
-- of the agent.
use crypto_scalper.Execution.Paper.{price_or}
use crypto_scalper.Execution.Risk.{is_blocked, on_position_opened}
use crypto_scalper.Execution.Quality.{record_trade, ExecutionQuality}
use crypto_scalper.Execution.Position.{open_position, Position}
use crypto_scalper.Agents.RiskAgent.{refuses}
use crypto_scalper.Agents.Execution.{order_filled, on_tick, placed, Effect, Desk, BookTop}
use crypto_scalper.Agents.Messages.{SurvivalState}
use crypto_scalper.Agents.Requests.{tp_request, sl_request, entry_request, Naming}
use crypto_scalper.Execution.LimitOrder.{plan_limit_order, LimitOrderPlan}
use crypto_scalper.Prelude.{
  String, Bool, false, ◌&&◌, ◌||◌, Option, none, some, List, [], ◌∷◌, ◌++◌, if◌then◌else◌, Result,
  ok, err, string_eq,
}
use crypto_scalper.Prelude.Dict.{Dict, lookup, insert, remove}
use crypto_scalper.Float.{Float, ◌⊕◌, ◌⊖◌, ◌⊗◌, ◌⊘◌, ◌<?◌, ◌≤?◌, dec, lit, nought}
use crypto_scalper.Time.{Time}
use crypto_scalper.Text.{Text}
use crypto_scalper.Data.Types.{Side}
use crypto_scalper.Agents.Execution
use crypto_scalper.Execution.Orders.{PlaceOrder, OrderAck, OrderRequest, limit}
use crypto_scalper.Agents.Manager.{is_veto, ManagerVerdict}

module _ {F T : Type 0} where
  unfoldable pub is_closed_to : Option (SurvivalState F T) → Bool
  is_closed_to none = false
  is_closed_to (some s) = refuses s.mode

module _ {F T : Type 0} ⦃f : Float F⦄ where
  -- The early returns before anything is recorded or placed.
  unfoldable pub declines : Bool → ManagerVerdict F → Desk F T → Bool
  declines honor_survival v d =
      is_veto v.action
      || ((v.proposal.entry ≤? nought || v.proposal.size ≤? nought)
          || (honor_survival && is_closed_to d.survival || is_blocked d.risk))

module _ {F : Type 0} ⦃f : Float F⦄ where
  unfoldable pub price_of : Option (LimitOrderPlan F) → Option F
  price_of none = none
  price_of (some plan) = some plan.price

  -- The price of a limit order, where the quote is wider than 1.5 bps.
  unfoldable pub limit_price : Side → F → Option (BookTop F) → Option F
  limit_price side entry none = none
  limit_price side entry (some (bid, bid_qty, ask, ask_qty)) =
      let mid = (bid ⊕ ask) ⊘ lit 2 in
      if dec 15 1 <? (ask ⊖ bid) ⊘ mid ⊗ lit 10000
      then price_of (plan_limit_order side bid ask entry nought (lit 1) (lit 5))
      else none

  unfoldable pub routed : Option F → OrderRequest F → OrderRequest F
  routed none req = req
  routed (some price) req = record req { order_type = limit; price = some price }

  unfoldable pub fill_price_of : OrderRequest F → OrderAck F → F
  fill_price_of req ack =
      if nought <? ack.avg_fill_price then ack.avg_fill_price else price_or nought req.price

  unfoldable pub rate_fill :
      Option F → OrderRequest F → F → Dict String F → ExecutionQuality F → ExecutionQuality F
  rate_fill none req fill_price marks quality = quality
  rate_fill (some decision_price) req fill_price marks quality =
      record_trade
        (record {
          symbol = req.symbol;
          decision_price = decision_price;
          arrival_price = price_or fill_price (lookup req.symbol marks);
          fill_price = fill_price;
          side = req.side;
          size = req.size;
        })
        quality

module _ {F T : Type 0} ⦃f : Float F⦄ where
  unfoldable pub new_position : T → OrderRequest F → F → Position F T
  new_position now req fill_price = record {
    client_id = req.client_id;
    symbol = req.symbol;
    side = req.side;
    size = req.size;
    entry_price = fill_price;
    stop_loss = req.stop_loss;
    take_profit = req.take_profit;
    opened_at = now;
    trailing_activated = false;
    peak_price = fill_price;
    trough_price = fill_price;
    atr_at_entry = nought;
    partial_taken = false;
    breakeven_activated = false;
  }

  unfoldable pub protective : Option (OrderRequest F) → List (Effect F T)
  protective none = []
  protective (some req) = placed req ∷ []

  -- A fill at a positive price. What the exchange answers to the protective orders is logged only.
  unfoldable pub on_fill :
      T → OrderRequest F → OrderAck F → F → Desk F T → Desk F T × List (Effect F T)
  on_fill now req ack fill_price d = (
    record d {
      risk = on_position_opened d.risk;
      book = open_position (new_position now req fill_price) d.book;
      exec_quality =
          rate_fill (lookup req.symbol d.decision_prices) req fill_price d.last_marks
            d.exec_quality;
      decision_prices = remove req.symbol d.decision_prices;
    },
    protective (sl_request req) ++ (protective (tp_request req) ++ order_filled req ack ∷ []),
  )

  unfoldable pub on_answer :
      T → OrderRequest F → Result (OrderAck F) (Text F) → Desk F T → Desk F T × List (Effect F T)
  on_answer now req (err e) d = (d, [])
  on_answer now req (ok ack) d =
      let fill_price = fill_price_of req ack in
      if fill_price ≤? nought then (d, []) else on_fill now req ack fill_price d

module _ {F T : Type 0} ⦃f : Float F⦄ ⦃t : Time T⦄ where
  unfoldable pub actual_request : Naming F T → T → ManagerVerdict F → Desk F T → OrderRequest F
  actual_request naming now v d =
      let req = entry_request naming now v in
      routed (limit_price req.side v.proposal.entry (lookup v.proposal.symbol d.last_books)) req

  unfoldable pub on_verdict :
      Bool
      → Naming F T
      → PlaceOrder F
      → T
      → ManagerVerdict F
      → Desk F T
      → Desk F T × List (Effect F T)
  on_verdict honor_survival naming place now v d =
      if declines honor_survival v d
      then (d, [])
      else let req = entry_request naming now v in
        let actual = actual_request naming now v d in
        let noted = record d {
          decision_prices = insert v.proposal.symbol v.proposal.entry d.decision_prices;
        } in
        let (d', effects) = on_answer now req (place actual) noted in (d', placed actual ∷ effects)

-- The bus events that the agent reads.
pub data DeskEvent (F T : Type 0) : Type 0 where
  tick : String → F → DeskEvent F T
  book_ticker : String → BookTop F → DeskEvent F T
  survival_updated : SurvivalState F T → DeskEvent F T
  flat_all_asked : DeskEvent F T
  verdict : ManagerVerdict F → DeskEvent F T

module _ {F T : Type 0} ⦃f : Float F⦄ ⦃t : Time T⦄ where
  unfoldable pub on_desk_event :
      Bool → Naming F T → PlaceOrder F → T → DeskEvent F T → Desk F T → Desk F T × List (Effect F T)
  on_desk_event honor naming place now (tick symbol price) d = on_tick now symbol price d
  on_desk_event honor naming place now (book_ticker symbol top) d =
      (record d { last_books = insert symbol top d.last_books }, [])
  on_desk_event honor naming place now (survival_updated s) d = (record d { survival = some s }, [])
  on_desk_event honor naming place now flat_all_asked d = Execution.flat_all naming now d
  on_desk_event honor naming place now (verdict v) d = on_verdict honor naming place now v d
