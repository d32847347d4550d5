-- ===== src/Backtest/MonteCarlo.antt =====
-- src/backtest/monte_carlo.rs: drawdown percentiles over reshuffled results. `sort_by` is a stable
-- insertion sort, which gives the one stable order that the comparison allows.
use crypto_scalper.Prelude.{
  ℕ, zero, suc, ◌+◌, ◌-◌, ◌*◌, ◌%◌, ◌^◌, ◌&&◌, Option, none, some, List, [], ◌∷◌, ◌==◌,
  if◌then◌else◌, string_eq, length, get_elem?, set,
}
use crypto_scalper.Float.{Float, ◌⊕◌, ◌⊖◌, ◌⊗◌, ◌⊘◌, ◌<?◌, dec, lit, nought, clamp}

pub record MonteCarloDrawdown (F : Type 0) : Type 0 where
  pub p50 : F
  pub p95 : F
  pub p99 : F

module _ {A : Type 0} where
  -- `slice::swap` at indices in range.
  unfoldable pub swap : List A → ℕ → ℕ → List A
  swap xs i j = elim (get_elem? xs i) [
    | none ↦ xs
    | some x ↦ elim (get_elem? xs j) [ none ↦ xs | some y ↦ set (set xs i y) j x ]
  ]

  -- The rounds for the indices `i`, `i - 1`, ... 1.
  unfoldable pub shuffle_from : ℕ → ℕ → List A → List A
  shuffle_from zero state values = values
  shuffle_from (suc k) state values =
      let next = (state * 6364136223846793005 + 1) % 2 ^ 64 in
      shuffle_from k next (swap values (suc k) (next % (suc k + 1)))

  unfoldable pub deterministic_shuffle : ℕ → List A → List A
  deterministic_shuffle state values = shuffle_from (length values - 1) state values

module _ {F : Type 0} ⦃f : Float F⦄ where
  unfoldable pub drawdown_from : F → F → F → List F → F
  drawdown_from equity peak max_dd [] = max_dd
  drawdown_from equity peak max_dd (pnl ∷ pnls) =
      let equity' = equity ⊕ pnl in
      let peak' = if peak <? equity' then equity' else peak in
      let dd = (peak' ⊖ equity') ⊘ peak' ⊗ lit 100 in
      drawdown_from equity' peak' (if nought <? peak' && max_dd <? dd then dd else max_dd) pnls

  unfoldable pub max_drawdown_pct : List F → F
  max_drawdown_pct pnls = drawdown_from nought nought nought pnls

  -- Equal and incomparable values keep their order.
  unfoldable pub insert_sorted : F → List F → List F
  insert_sorted x [] = x ∷ []
  insert_sorted x (y ∷ ys) =
      let rest = insert_sorted x ys in if y <? x then y ∷ rest else x ∷ y ∷ ys

  unfoldable pub sort : List F → List F
  sort [] = []
  sort (x ∷ xs) = insert_sorted x (sort xs)

  unfoldable pub percentile : List F → F → Option F
  percentile sorted p =
      get_elem? sorted (f.round_ℕ (f.of_ℕ (length sorted - 1) ⊗ clamp p nought (lit 1)))

  -- The seeds from `seed` on, one for each simulation left.
  unfoldable pub simulate : ℕ → ℕ → List F → List F
  simulate zero seed pnls = []
  simulate (suc left) seed pnls =
      max_drawdown_pct (deterministic_shuffle seed pnls) ∷ simulate left (seed + 1) pnls

  -- An index out of range would panic: `none` here.
  unfoldable pub percentiles : List F → Option (MonteCarloDrawdown F)
  percentiles sorted = elim (percentile sorted (dec 5 1)) [
    | none ↦ none
    | some p50 ↦ elim (percentile sorted (dec 95 2)) [
      | none ↦ none
      | some p95 ↦ elim (percentile sorted (dec 99 2)) [
        | none ↦ none
        | some p99 ↦ some (record { p50 = p50; p95 = p95; p99 = p99 })
      ]
    ]
  ]

  unfoldable pub drawdown_confidence_intervals : List F → ℕ → Option (MonteCarloDrawdown F)
  drawdown_confidence_intervals [] simulations = none
  drawdown_confidence_intervals (x ∷ xs) simulations =
      if simulations == 0 then none else percentiles (sort (simulate simulations 1 (x ∷ xs)))
