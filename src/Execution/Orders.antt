-- ===== src/Execution/Orders.antt =====
-- src/execution/orders.rs and src/execution/exchange.rs: requests, acknowledgements, snapshots.
use crypto_scalper.Prelude.{String, Bool, Option, Result, string_eq}
use crypto_scalper.Prelude.Int.{ℤ}
use crypto_scalper.Text.{Text}
use crypto_scalper.Data.Types.{Side}

pub data OrderType : Type 0 where
  market limit stop_loss take_profit : OrderType

pub record OrderRequest (F : Type 0) : Type 0 where
  pub client_id : String
  pub symbol : String
  pub side : Side
  pub size : F
  pub price : Option F
  pub stop_price : Option F
  pub stop_loss : F
  pub take_profit : F
  pub order_type : OrderType
  pub reduce_only : Bool

pub record OrderAck (F : Type 0) : Type 0 where
  pub client_id : String
  pub exchange_order_id : String
  pub symbol : String
  pub filled_qty : F
  pub avg_fill_price : F
  pub fee_usd : F
  pub ts_ms : ℤ

-- `place_order` of an exchange during one event: what it answers to a request.
abbrev pub PlaceOrder : Type 0 → Type 0
PlaceOrder F = OrderRequest F → Result (OrderAck F) (Text F)
