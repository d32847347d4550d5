-- ===== src/Agents/Requests.antt =====
-- src/agents/execution.rs: the requests of an entry, its protective orders and a flat-all.
use crypto_scalper.Execution.Position.{Position}
use crypto_scalper.Prelude.{String, true, false, Option, none, some, if◌then◌else◌, string_eq}
use crypto_scalper.Prelude.Int.{quot_ℤ, ℤ}
use crypto_scalper.Float.{Float, ◌⊕◌, ◌⊗◌, ◌⊘◌, ◌≤?◌, lit, nought}
use crypto_scalper.Time.{Time}
use crypto_scalper.Data.Types.{Side, long, short}
use Prim.Native.String.{◌++◌ as str_append}
use crypto_scalper.Execution.Orders.{OrderRequest, market, stop_loss, take_profit}
use crypto_scalper.Agents.Manager.{ManagerAction, ManagerVerdict, ManagerProposal, adjust}

-- What the standard library makes of numbers: the hex digits of the hash of a proposal in a minute,
-- and the milliseconds of an instant.
pub record Naming (F T : Type 0) : Type 0 where
  pub digest : String → String → String → F → F → ℤ → String
  pub millis : T → String

unfoldable pub opposite : Side → Side
opposite long = short
opposite short = long

unfoldable pub letter : Side → String
letter long = "L"
letter short = "S"

module _ {F : Type 0} ⦃f : Float F⦄ where
  unfoldable pub bps_offset : F → F → Side → F
  bps_offset entry bps long = entry ⊗ (bps ⊘ lit 10000)
  bps_offset entry bps short = f.neg (entry ⊗ (bps ⊘ lit 10000))

  -- Size, stop and target of an entry.
  unfoldable pub terms : ManagerProposal F → ManagerAction F → F × F × F
  terms p (adjust size_multiplier sl_offset_bps tp_offset_bps reason) = (
    p.size ⊗ size_multiplier,
    p.stop_loss ⊕ bps_offset p.entry sl_offset_bps p.side,
    p.take_profit ⊕ bps_offset p.entry tp_offset_bps p.side,
  )
  terms p _ = (p.size, p.stop_loss, p.take_profit)

  unfoldable pub sl_request : OrderRequest F → Option (OrderRequest F)
  sl_request entry =
      if entry.stop_loss ≤? nought
      then none
      else some (record {
        client_id = str_append entry.client_id "-sl";
        symbol = entry.symbol;
        side = opposite entry.side;
        size = entry.size;
        price = none;
        stop_price = some entry.stop_loss;
        stop_loss = entry.stop_loss;
        take_profit = entry.take_profit;
        order_type = stop_loss;
        reduce_only = true;
      })

  unfoldable pub tp_request : OrderRequest F → Option (OrderRequest F)
  tp_request entry =
      if entry.take_profit ≤? nought
      then none
      else some (record {
        client_id = str_append entry.client_id "-tp";
        symbol = entry.symbol;
        side = opposite entry.side;
        size = entry.size;
        price = none;
        stop_price = some entry.take_profit;
        stop_loss = entry.stop_loss;
        take_profit = entry.take_profit;
        order_type = take_profit;
        reduce_only = true;
      })

module _ {F T : Type 0} ⦃f : Float F⦄ ⦃t : Time T⦄ where
  unfoldable pub client_id_of : Naming F T → T → ManagerProposal F → String
  client_id_of naming now p = str_append "aria-" (
      str_append p.symbol (
        str_append "-" (
          str_append (letter p.side) (
            str_append "-" (
              naming.digest p.symbol p.strategy (letter p.side) p.entry p.size
                (quot_ℤ (t.timestamp now) 60))))))

  unfoldable pub entry_request : Naming F T → T → ManagerVerdict F → OrderRequest F
  entry_request naming now v =
      let (size, sl, tp) = terms v.proposal v.action in
      record {
        client_id = client_id_of naming now v.proposal;
        symbol = v.proposal.symbol;
        side = v.proposal.side;
        size = size;
        price = some v.proposal.entry;
        stop_price = none;
        stop_loss = sl;
        take_profit = tp;
        order_type = market;
        reduce_only = false;
      }

  unfoldable pub close_request : Naming F T → T → Position F T → OrderRequest F
  close_request naming now p = record {
    client_id = str_append "aria-flat-" (str_append p.symbol (str_append "-" (naming.millis now)));
    symbol = p.symbol;
    side = opposite p.side;
    size = p.size;
    price = none;
    stop_price = none;
    stop_loss = nought;
    take_profit = nought;
    order_type = market;
    reduce_only = true;
  }
