-- ===== src/Strategy/Pairs.antt =====
-- src/strategy/pairs.rs: the spread of two price series.
use crypto_scalper.Prelude.{
  reverse, Bool, not, ◌&&◌, Option, none, some, List, [], ◌∷◌, ltb, ◌==◌, if◌then◌else◌, string_eq,
  length,
}
use crypto_scalper.Float.{sum, Float, ◌⊕◌, ◌⊖◌, ◌⊗◌, ◌⊘◌, ◌≤?◌, nought}
use crypto_scalper.Portfolio.{mean, variance, squares, products}

pub record HedgeRatio (F : Type 0) : Type 0 where
  pub beta : F
  pub intercept : F

pub data PairSignal : Type 0 where
  long_spread short_spread hold_spread flat : PairSignal

module _ {F : Type 0} ⦃f : Float F⦄ where
  unfoldable pub ratio_of : List F → List F → Option (HedgeRatio F)
  ratio_of base hedge =
      let mean_x = mean hedge in
      let mean_y = mean base in
      let var_x = sum (squares mean_x hedge) in
      let beta = sum (products mean_x mean_y hedge base) ⊘ var_x in
      if var_x ≤? nought
      then none
      else some (record { beta = beta; intercept = mean_y ⊖ beta ⊗ mean_x })

  unfoldable pub is_comparable : List F → List F → Bool
  is_comparable base hedge = length base == length hedge && not (ltb (length base) 3)

  unfoldable pub estimate_hedge_ratio : List F → List F → Option (HedgeRatio F)
  estimate_hedge_ratio base hedge =
      let ratio = ratio_of base hedge in if is_comparable base hedge then ratio else none

  unfoldable pub spreads_of : HedgeRatio F → List F → List F → List F
  spreads_of ratio (b ∷ base) (h ∷ hedge) =
      (b ⊖ (ratio.intercept ⊕ ratio.beta ⊗ h)) ∷ spreads_of ratio base hedge
  spreads_of ratio _ _ = []

  unfoldable pub z_of : List F → List F → Option F
  z_of spreads [] = none
  z_of spreads (last ∷ older) =
      let std = f.sqrt (variance spreads) in
      if std ≤? nought then none else some ((last ⊖ mean spreads) ⊘ std)

  unfoldable pub spread_zscore : List F → List F → HedgeRatio F → Option F
  spread_zscore base hedge ratio =
      let spreads = spreads_of ratio base hedge in
      let z = z_of spreads (reverse spreads) in if is_comparable base hedge then z else none

  unfoldable pub pair_signal : F → F → F → PairSignal
  pair_signal zscore entry_z exit_z =
      if entry_z ≤? zscore
      then short_spread
      else if zscore ≤? f.neg entry_z
      then long_spread
      else if f.abs zscore ≤? exit_z
      then flat
      else hold_spread
