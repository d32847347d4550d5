-- ===== src/Microstructure/Ofi.antt =====
-- src/microstructure/ofi.rs: the order flow imbalance of the best quotes.
use crypto_scalper.Prelude.{
  drop, ℕ, ◌||◌, Option, none, some, List, [], ◌∷◌, ◌++◌, ltb, if◌then◌else◌, string_eq, length,
}
use crypto_scalper.Float.{sum, Float, ◌⊖◌, ◌⊘◌, ◌≤?◌, nought}
use crypto_scalper.Portfolio.{mean, variance}
use crypto_scalper.Prelude.Dict.{pair_eq}

-- The newest value stands at the end.
pub record Ofi (F : Type 0) : Type 0 where
  pub prev_bid_qty : Option F
  pub prev_ask_qty : Option F
  pub rolling : List F
  pub window : ℕ

unfoldable pub new_ofi : {F : Type 0} → ℕ → Ofi F
new_ofi window = record {
  prev_bid_qty = none;
  prev_ask_qty = none;
  rolling = [];
  window = if ltb window 1 then 1 else window;
}

unfoldable pub trim : {A : Type 0} → ℕ → List A → List A
trim limit xs = if ltb limit (length xs) then drop 1 xs else xs

module _ {F : Type 0} ⦃f : Float F⦄ where
  unfoldable pub update_from : Option F → Option F → F → F → Ofi F → Ofi F × Option F
  update_from (some prev_bid) (some prev_ask) bid_qty ask_qty o =
      let value = (bid_qty ⊖ prev_bid) ⊖ (ask_qty ⊖ prev_ask) in
      let rolling = trim o.window (o.rolling ++ value ∷ []) in
      (
        record o { rolling = rolling },
        if ltb (length rolling) o.window then none else some (sum rolling),
      )
  update_from _ _ bid_qty ask_qty o = (o, none)

  unfoldable pub update_ofi : F → F → Ofi F → Ofi F × Option F
  update_ofi bid_qty ask_qty o =
      update_from o.prev_bid_qty o.prev_ask_qty bid_qty ask_qty
        (record o { prev_bid_qty = some bid_qty; prev_ask_qty = some ask_qty })

  unfoldable pub z_score : Ofi F → Option F
  z_score o =
      let sd = f.sqrt (variance o.rolling) in
      if ltb (length o.rolling) 2 || sd ≤? nought then none else some (mean o.rolling ⊘ sd)
