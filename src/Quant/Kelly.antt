-- ===== src/Quant/Kelly.antt =====
-- The Kelly fraction of src/portfolio/kelly.rs, as the engine of src/quant.rs takes it.
use crypto_scalper.Float.Order.{nought-IsNumber}
use crypto_scalper.Quant.{QuantEngine, outcomes_win_rate, avg_win, avg_loss}
use crypto_scalper.Quant.Sizing.{kelly_of}
use crypto_scalper.Portfolio.{kelly_fraction}
use crypto_scalper.Prelude.{arith}
use crypto_scalper.Float.{Float, ◌⊖◌, ◌⊘◌, ◌≼◌, lit, nought}
use crypto_scalper.Float.Laws.{IsOrdered}

module _ {F : Type 0} ⦃f : Float F⦄ (laws : IsOrdered F) where
  -- The Kelly fraction lies between zero and a cap that is not negative.
  kelly_fraction_bounds :
      (win_rate avg_win avg_loss cap : F)
      → nought ≼ cap
      → (nought ≼ kelly_fraction win_rate avg_win avg_loss cap)
        × (kelly_fraction win_rate avg_win avg_loss cap ≼ cap)
  unfolding kelly_fraction
  kelly_fraction_bounds win_rate avg_win avg_loss cap h =
      let raw = win_rate ⊖ (lit 1 ⊖ win_rate) ⊘ (avg_win ⊘ avg_loss) in
      let (zero, number) = laws.numbers_of_le nought cap h in
      ground (
        arith,
        h,
        zero,
        laws.le-max_right raw nought zero,
        laws.min_choice (f.max raw nought) cap,
        laws.min-le_right (f.max raw nought) cap number,
      )

  pub kelly_of-bounds :
      (e : QuantEngine F)
      → nought ≼ e.cfg.kelly_cap
      → (nought ≼ kelly_of e) × (kelly_of e ≼ e.cfg.kelly_cap)
  unfolding kelly_of
  kelly_of-bounds e h =
      let o = e.trade_outcomes in
      ground (
        arith,
        h,
        nought-IsNumber laws,
        kelly_fraction_bounds (outcomes_win_rate o) (avg_win o) (avg_loss o) e.cfg.kelly_cap h,
      )
