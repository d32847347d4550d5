-- ===== src/Agents/Execution/Flat.antt =====
-- What a flat-all of src/agents/execution.rs leaves.
use crypto_scalper.Execution.Paper.{price_or}
use crypto_scalper.Execution.Position.Kept.{remove-head}
use crypto_scalper.Agents.Execution.Count.{IsKeyed, closed-le, IsCounted}
use crypto_scalper.Execution.Position.{pnl_usd, Book, close_position, Position}
use crypto_scalper.Agents.Execution.{flatten, Desk, flatten_one, flat_all}
use crypto_scalper.Agents.Requests.{Naming}
use crypto_scalper.Prelude.{
  sym, ap, ◌≤◌, String, ◌≡◌, refl, ◌∙◌, none, List, [], ◌∷◌, map, arith, string_eq,
}
use crypto_scalper.Prelude.Dict.{remove-absent, Dict, lookup, remove, IsDistinct}
use crypto_scalper.Float.{Float}
use crypto_scalper.Time.{Time}

module _ {F T : Type 0} ⦃f : Float F⦄ ⦃t : Time T⦄ (naming : Naming F T) (now : T)
    (marks : Dict String F) where
  removed :
      (id : String) (p : Position F T) (m : Book F T) (b : Book F T)
      → b ≡ (id, p) ∷ m
      → id ≡ p.client_id
      → lookup id m ≡ none
      → remove p.client_id b ≡ m
  removed id p m b e k h =
      ap (λ i. remove i b) (sym k)
      ∙ (ap (remove id) e ∙ (remove-head id p m ∙ remove-absent id m h))

  flatten_one-book :
      (id : String) (p : Position F T) (m : Book F T) (d : Desk F T)
      → d.book ≡ (id, p) ∷ m
      → id ≡ p.client_id
      → lookup id m ≡ none
      → (flatten_one naming now marks p d).0.book ≡ m
  unfolding flatten_one close_position
  flatten_one-book id p m d e k h = removed id p m d.book e k h

  flatten-empties :
      (m : Book F T) (d : Desk F T)
      → d.book ≡ m
      → IsDistinct m
      → IsKeyed m
      → (flatten naming now marks (map (λ (id, p). p) m) d).0.book ≡ []
  unfolding flatten
  flatten-empties [] d e u k = e
  flatten-empties ((id, p) ∷ m) d e (h, u) (k, ks) =
      flatten-empties m _ (flatten_one-book id p m d e k h) u ks

  -- The counter does not rise.
  flatten-count :
      (ps : List (Position F T)) (d : Desk F T)
      → (flatten naming now marks ps d).0.risk.open_positions ≤ d.risk.open_positions
  unfolding flatten flatten_one
  flatten-count [] d = omega arith
  flatten-count (p ∷ ps) d = omega (
    arith,
    closed-le (pnl_usd p (price_or p.entry_price (lookup p.symbol marks))) d.risk,
    flatten-count ps (flatten_one naming now marks p d).0,
  )

module _ {F T : Type 0} ⦃f : Float F⦄ ⦃t : Time T⦄ where
  -- A flat-all empties a book of distinct ids, whatever the exchange answers to the close orders.
  pub flat_all-empties :
      (naming : Naming F T) (now : T) (d : Desk F T)
      → IsDistinct d.book
      → IsKeyed d.book
      → (flat_all naming now d).0.book ≡ []
  unfolding flat_all
  flat_all-empties naming now d u k = flatten-empties naming now d.last_marks d.book d refl u k

  pub flat_all-count :
      (naming : Naming F T) (now : T) (d : Desk F T)
      → (flat_all naming now d).0.risk.open_positions ≤ d.risk.open_positions
  unfolding flat_all
  flat_all-count naming now d = flatten-count naming now d.last_marks _ d

  pub flat_all-IsCounted :
      (naming : Naming F T) (now : T) (d : Desk F T)
      → IsCounted d
      → IsCounted (flat_all naming now d).0
  flat_all-IsCounted naming now d c =
      let gone = flat_all-empties naming now d c.distinct c.keyed in
      record { distinct = rw gone tt; keyed = rw gone tt; counted = rw gone (omega arith) }
