-- ===== src/Agents/Execution.antt =====
-- src/agents/execution.rs: the agent that opens and closes positions. What the exchange answers to a
-- request during an event is an argument; the calls and the published messages are a list of effects,
-- in order.
pub mod Entry
pub mod Count
pub mod Flat
pub mod Run
pub mod Gates
use crypto_scalper.Execution.Quality.{ExecutionQuality}
use crypto_scalper.Agents.Messages.{SurvivalState}
use crypto_scalper.Execution.Paper.{price_or}
use crypto_scalper.Agents.Requests.{close_request, Naming}
use crypto_scalper.Execution.Orders.{OrderAck, OrderRequest}
use crypto_scalper.Execution.Risk.{on_position_closed, RiskManager}
use crypto_scalper.Prelude.{
  String, false, Option, none, some, List, [], ◌∷◌, ◌++◌, map, if◌then◌else◌, string_eq,
}
use crypto_scalper.Prelude.Int.{pos}
use crypto_scalper.Prelude.Dict.{Dict, lookup, insert}
use crypto_scalper.Float.{Float, ◌≤?◌, dec, lit, nought}
use crypto_scalper.Time.{Time}
use crypto_scalper.Execution.Position.{
  close_position, pnl_usd, Book, PositionExitReason, Position, PositionConfig, check_exits, manual,
}

-- Best bid and ask with their quantities.
abbrev pub BookTop : Type 0 → Type 0
BookTop F = F × F × F × F

-- The maps of the agent, with the risk manager and the book that it shares.
pub record Desk (F T : Type 0) : Type 0 where
  pub risk : RiskManager F
  pub book : Book F T
  pub survival : Option (SurvivalState F T)
  pub last_marks : Dict String F
  pub last_books : Dict String (BookTop F)
  pub exec_quality : ExecutionQuality F
  pub decision_prices : Dict String F

pub data Effect (F T : Type 0) : Type 0 where
  placed : OrderRequest F → Effect F T
  cancelled_all : String → Effect F T
  position_closed : Position F T → F → F → PositionExitReason → Effect F T  -- exit price, pnl
  order_filled : OrderRequest F → OrderAck F → Effect F T

module _ {F : Type 0} ⦃f : Float F⦄ where
  unfoldable pub agent_config : PositionConfig F
  agent_config = record {
    max_hold_secs = pos 1800;
    trail_atr_mult = dec 5 1;
    trail_activate_r = lit 1;
    breakeven_r = dec 5 1;
    partial_tp_enabled = false;
    partial_tp_r = lit 1;
  }

unfoldable pub closed_effect : {F T : Type 0} → F → F → Option (Position F T) → List (Effect F T)
closed_effect mark pnl none = []
closed_effect mark pnl (some p) = position_closed p mark pnl manual ∷ []

module _ {F T : Type 0} ⦃f : Float F⦄ ⦃t : Time T⦄ where
  -- The loop over the exits of a tick.
  unfoldable pub settle :
      F → List (Position F T × PositionExitReason) → Desk F T → Desk F T × List (Effect F T)
  settle price [] d = (d, [])
  settle price ((p, why) ∷ exits) d =
      let pnl = pnl_usd p price in
      let (d', effects) = settle price exits (record d { risk = on_position_closed pnl d.risk }) in
      (d', cancelled_all p.symbol ∷ position_closed p price pnl why ∷ effects)

  unfoldable pub on_tick : T → String → F → Desk F T → Desk F T × List (Effect F T)
  on_tick now symbol price d =
      if price ≤? nought
      then (d, [])
      else let (book, exits) = check_exits symbol price agent_config now d.book in
        settle price exits (record d { book = book; last_marks = insert symbol price d.last_marks })

  -- The body of the loop of a flat-all: what the exchange answers is logged only.
  unfoldable pub flatten_one :
      Naming F T → T → Dict String F → Position F T → Desk F T → Desk F T × List (Effect F T)
  flatten_one naming now marks p d =
      let mark = price_or p.entry_price (lookup p.symbol marks) in
      let pnl = pnl_usd p mark in
      let (book, closed) = close_position p.client_id d.book in
      (
        record d { risk = on_position_closed pnl d.risk; book = book },
        cancelled_all p.symbol
            ∷ placed (close_request naming now p)
            ∷ closed_effect mark pnl closed,
      )

  unfoldable pub flatten :
      Naming F T → T → Dict String F → List (Position F T) → Desk F T → Desk F T × List (Effect F T)
  flatten naming now marks [] d = (d, [])
  flatten naming now marks (p ∷ ps) d =
      let (d', done) = flatten_one naming now marks p d in
      let (d'', rest) = flatten naming now marks ps d' in (d'', done ++ rest)

  unfoldable pub flat_all : Naming F T → T → Desk F T → Desk F T × List (Effect F T)
  flat_all naming now d = flatten naming now d.last_marks (map (λ (id, p). p) d.book) d
