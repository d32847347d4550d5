-- ===== src/Data/OrderBook.antt =====
-- src/data/order_book.rs: the levels of a book and what is read of them.
use crypto_scalper.Prelude.{
  take, ℕ, Option, none, some, List, [], ◌∷◌, map, if◌then◌else◌, string_eq,
}
use crypto_scalper.Float.{sum, Float, ◌⊕◌, ◌⊖◌, ◌⊗◌, ◌⊘◌, ◌<?◌, ◌≤?◌, lit, nought}

pub record Level (F : Type 0) : Type 0 where
  pub price : F
  pub qty : F

-- Bids from the highest price down, asks from the lowest up.
pub record OrderBook (F : Type 0) : Type 0 where
  pub bids : List (Level F)
  pub asks : List (Level F)

unfoldable pub empty_book : {F : Type 0} → OrderBook F
empty_book = record { bids = []; asks = [] }

unfoldable pub first_price : {F : Type 0} → List (Level F) → Option F
first_price [] = none
first_price (l ∷ ls) = some l.price

unfoldable pub first_qty : {F : Type 0} → List (Level F) → Option F
first_qty [] = none
first_qty (l ∷ ls) = some l.qty

unfoldable pub best_bid : {F : Type 0} → OrderBook F → Option F
best_bid b = first_price b.bids

unfoldable pub best_ask : {F : Type 0} → OrderBook F → Option F
best_ask b = first_price b.asks

unfoldable pub set_top_with_qty : {F : Type 0} → F → F → F → F → OrderBook F → OrderBook F
set_top_with_qty best_bid bid_qty best_ask ask_qty b = record {
  bids = record { price = best_bid; qty = bid_qty } ∷ [];
  asks = record { price = best_ask; qty = ask_qty } ∷ [];
}

module _ {F : Type 0} ⦃f : Float F⦄ where
  unfoldable pub set_top : F → F → OrderBook F → OrderBook F
  set_top best_bid best_ask b = set_top_with_qty best_bid nought best_ask nought b

  unfoldable pub spread_between : Option F → Option F → Option F
  spread_between (some bid) (some ask) = some (ask ⊖ bid)
  spread_between _ _ = none

  unfoldable pub spread : OrderBook F → Option F
  spread b = spread_between (best_bid b) (best_ask b)

  unfoldable pub spread_pct_between : Option F → Option F → Option F
  spread_pct_between (some bid) (some ask) =
      let mid = (ask ⊕ bid) ⊘ lit 2 in
      if mid ≤? nought then none else some ((ask ⊖ bid) ⊘ mid ⊗ lit 100)
  spread_pct_between _ _ = none

  unfoldable pub spread_pct : OrderBook F → Option F
  spread_pct b = spread_pct_between (best_bid b) (best_ask b)

  unfoldable pub liquidity : ℕ → List (Level F) → F
  liquidity depth ls = sum (map (λ l. l.qty) (take depth ls))

  unfoldable pub bid_ask_ratio : ℕ → OrderBook F → F
  bid_ask_ratio depth b =
      if liquidity depth b.asks ≤? nought
      then f.infinity
      else liquidity depth b.bids ⊘ liquidity depth b.asks

  -- `max_by` on the quantities: the last of the greatest; incomparable ones count as equal.
  unfoldable pub max_level : Level F → List (Level F) → Level F
  max_level best [] = best
  max_level best (l ∷ ls) = max_level (if l.qty <? best.qty then best else l) ls

  unfoldable pub wall : List (Level F) → Option (Level F)
  wall [] = none
  wall (l ∷ ls) = some (max_level l ls)
