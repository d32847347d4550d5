-- ===== src/Portfolio.antt =====
-- src/portfolio: the Kelly fraction, the volatility target, value at risk, correlation and exposure.
use crypto_scalper.Float.{sum, Float, ◌⊕◌, ◌⊖◌, ◌⊗◌, ◌⊘◌, ◌<?◌, ◌≤?◌, dec, lit, nought, clamp}
use crypto_scalper.Backtest.MonteCarlo.{sort}
use crypto_scalper.Prelude.{
  ℕ, zero, suc, ◌-◌, String, Bool, false, not, ◌&&◌, ◌||◌, Option, none, some, List, [], ◌∷◌, map,
  ltb, ◌==◌, if◌then◌else◌, string_eq, length, take,
}
use crypto_scalper.Data.Types.{Side, long, short}

module _ {F : Type 0} ⦃f : Float F⦄ where
  unfoldable pub kelly_fraction : F → F → F → F → F
  kelly_fraction win_rate avg_win avg_loss cap =
      if not (nought ≤? win_rate && win_rate ≤? lit 1)
        || (avg_win ≤? nought || (avg_loss ≤? nought || cap ≤? nought))
      then nought
      else f.min (f.max (win_rate ⊖ (lit 1 ⊖ win_rate) ⊘ (avg_win ⊘ avg_loss)) nought) cap

  unfoldable pub portfolio_kelly_adjustment : F → F → F
  portfolio_kelly_adjustment kelly correlation =
      if kelly ≤? nought
      then nought
      else kelly ⊗ (lit 1 ⊖ clamp correlation nought (lit 1) ⊗ dec 5 1)

  unfoldable pub volatility_target_multiplier : F → F → F → F
  volatility_target_multiplier target_vol realized_vol max_multiplier =
      if target_vol ≤? nought || (realized_vol ≤? nought || max_multiplier ≤? nought)
      then nought
      else f.min (target_vol ⊘ realized_vol) max_multiplier

  -- The element at an index of the sorted returns, which is below the length.
  unfoldable pub return_at : List F → ℕ → F
  return_at [] i = nought
  return_at (x ∷ xs) zero = x
  return_at (x ∷ xs) (suc i) = return_at xs i

  unfoldable pub is_confidence : F → Bool
  is_confidence confidence = nought ≤? confidence && confidence <? lit 1

  unfoldable pub historical_var : List F → F → Option F
  historical_var returns confidence =
      let n = length returns in
      let idx = f.to_usize (f.floor (f.of_ℕ n ⊗ (lit 1 ⊖ confidence))) in
      if n == 0 || not (is_confidence confidence)
      then none
      else some
          (f.neg (f.min (return_at (sort returns) (if ltb idx (n - 1) then idx else n - 1)) nought))

  -- The number of returns in the tail, at least one and at most all.
  unfoldable pub tail_count : ℕ → F → ℕ
  tail_count n confidence =
      let count = f.to_usize (f.ceil (f.of_ℕ n ⊗ (lit 1 ⊖ confidence))) in
      let least = if ltb count 1 then 1 else count in if ltb least n then least else n

  unfoldable pub historical_cvar : List F → F → Option F
  historical_cvar returns confidence =
      let count = tail_count (length returns) confidence in
      if length returns == 0 || not (is_confidence confidence)
      then none
      else some (f.neg (f.min (sum (take count (sort returns)) ⊘ f.of_ℕ count) nought))

  unfoldable pub mean : List F → F
  mean xs = sum xs ⊘ f.of_ℕ (length xs)

  unfoldable pub squares : F → List F → List F
  squares m xs = map (λ x. (x ⊖ m) ⊗ (x ⊖ m)) xs

  -- The mean square distance from the mean.
  unfoldable pub variance : List F → F
  variance xs = sum (squares (mean xs) xs) ⊘ f.of_ℕ (length xs)

  unfoldable pub products : F → F → List F → List F → List F
  products mean_a mean_b (x ∷ a) (y ∷ b) = (x ⊖ mean_a) ⊗ (y ⊖ mean_b) ∷ products mean_a mean_b a b
  products mean_a mean_b _ _ = []

  -- The correlation of two lists of the same length.
  unfoldable pub correlate : List F → List F → Option F
  correlate a b =
      let cov = sum (products (mean a) (mean b) a b) ⊘ f.of_ℕ (length a) in
      let denom = f.sqrt (variance a) ⊗ f.sqrt (variance b) in
      if denom ≤? nought then none else some (clamp (cov ⊘ denom) (f.neg (lit 1)) (lit 1))

  unfoldable pub pearson_correlation : List F → List F → Option F
  pearson_correlation a b =
      let n = if ltb (length b) (length a) then length b else length a in
      let rho = correlate (take n a) (take n b) in if ltb n 3 then none else rho

pub record PositionExposure (F : Type 0) : Type 0 where
  pub symbol : String
  pub side : Side
  pub notional_usd : F

module _ {F : Type 0} ⦃f : Float F⦄ where
  unfoldable pub gross_exposure : List (PositionExposure F) → F
  gross_exposure positions = sum (map (λ p. f.abs p.notional_usd) positions)

  unfoldable pub signed_notional : Side → F → F
  signed_notional long x = x
  signed_notional short x = f.neg x

  unfoldable pub net_exposure : List (PositionExposure F) → F
  net_exposure positions = sum (map (λ p. signed_notional p.side p.notional_usd) positions)

  unfoldable pub can_add_position : List (PositionExposure F) → PositionExposure F → F → F → Bool
  can_add_position positions proposed equity_usd max_gross_exposure_pct =
      if equity_usd ≤? nought || max_gross_exposure_pct ≤? nought
      then false
      else gross_exposure positions ⊕ f.abs proposed.notional_usd
        ≤? equity_usd ⊗ max_gross_exposure_pct ⊘ lit 100
