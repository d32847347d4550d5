-- ===== src/Execution/Paper.antt =====
-- src/execution/paper.rs: the exchange that fills every order at its price.
use crypto_scalper.Execution.Orders.{OrderAck, OrderRequest}
use crypto_scalper.Prelude.{
  String, Option, none, some, [], ◌∷◌, if◌then◌else◌, Result, ok, string_eq,
}
use crypto_scalper.Prelude.Dict.{Dict, insert, remove}
use crypto_scalper.Float.{Float, ◌⊗◌, ◌⊘◌, lit, nought}
use crypto_scalper.Time.{Time}
use crypto_scalper.Text.{Text}
use Prim.Native.String.{◌++◌ as str_append}

pub record OpenPaperOrder (F T : Type 0) : Type 0 where
  pub req : OrderRequest F
  pub filled_at : T

pub record PaperExchange (F T : Type 0) : Type 0 where
  pub fee_bps : F
  pub orders : Dict String (OpenPaperOrder F T)
  pub equity_usd : F

unfoldable pub price_or {ℓ} : {A : Type ℓ} → A → Option A → A
price_or a none = a
price_or a (some b) = b

module _ {F T : Type 0} ⦃f : Float F⦄ where
  unfoldable pub new_paper : F → F → PaperExchange F T
  new_paper fee_bps equity_usd = record { fee_bps = fee_bps; orders = []; equity_usd = equity_usd }

  unfoldable pub set_paper_equity : F → PaperExchange F T → PaperExchange F T
  set_paper_equity equity x = record x { equity_usd = equity }

module _ {F T : Type 0} ⦃f : Float F⦄ ⦃t : Time T⦄ where
  unfoldable pub paper_ack : T → PaperExchange F T → OrderRequest F → OrderAck F
  paper_ack now x req =
      let price = price_or nought req.price in
      record {
        client_id = req.client_id;
        exchange_order_id = str_append "paper-" req.client_id;
        symbol = req.symbol;
        filled_qty = req.size;
        avg_fill_price = price;
        fee_usd = price ⊗ req.size ⊗ x.fee_bps ⊘ lit 10000;
        ts_ms = t.timestamp_millis now;
      }

  unfoldable pub place_order :
      T → OrderRequest F → PaperExchange F T → PaperExchange F T × Result (OrderAck F) (Text F)
  place_order now req x = (
    record x { orders = insert req.client_id (record { req = req; filled_at = now }) x.orders },
    ok (paper_ack now x req),
  )

module _ {F T : Type 0} where
  unfoldable pub cancel_order : String → PaperExchange F T → PaperExchange F T
  cancel_order client_id x = record x { orders = remove client_id x.orders }

  unfoldable pub retain_other :
      String → Dict String (OpenPaperOrder F T) → Dict String (OpenPaperOrder F T)
  retain_other symbol [] = []
  retain_other symbol ((id, o) ∷ m) =
      let rest = retain_other symbol m in
      if string_eq.beq o.req.symbol symbol then rest else (id, o) ∷ rest

  unfoldable pub cancel_all : String → PaperExchange F T → PaperExchange F T
  cancel_all symbol x = record x { orders = retain_other symbol x.orders }
