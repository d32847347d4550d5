-- ===== src/Indicators/Bollinger.antt =====
-- src/indicators/bollinger.rs: bands around a moving mean.
use crypto_scalper.Prelude.{
  ℕ, Option, none, some, List, [], ◌∷◌, ◌++◌, ltb, if◌then◌else◌, string_eq, length,
}
use crypto_scalper.Float.{Float, ◌⊕◌, ◌⊖◌, ◌⊗◌, ◌⊘◌, nought}

pub record BollingerBand (F : Type 0) : Type 0 where
  pub lower : F
  pub mid : F
  pub upper : F
  pub width : F

-- The newest value of `buf` stands at the end.
pub record Bollinger (F : Type 0) : Type 0 where
  pub period : ℕ
  pub k : F
  pub buf : List F
  pub sum : F
  pub sum_sq : F

module _ {F : Type 0} ⦃f : Float F⦄ where
  unfoldable pub new_bollinger : ℕ → F → Bollinger F
  new_bollinger period k = record {
    period = period;
    k = k;
    buf = [];
    sum = nought;
    sum_sq = nought;
  }

  -- `pop_front` where the buffer is longer than the period.
  unfoldable pub drop_oldest : List F → Bollinger F → Bollinger F
  drop_oldest [] b = b
  drop_oldest (old ∷ rest) b =
      if ltb b.period (length (old ∷ rest))
      then record b { buf = rest; sum = b.sum ⊖ old; sum_sq = b.sum_sq ⊖ old ⊗ old }
      else b

  unfoldable pub push_value : F → Bollinger F → Bollinger F
  push_value x b =
      let buf = b.buf ++ x ∷ [] in
      drop_oldest buf (record b { buf = buf; sum = b.sum ⊕ x; sum_sq = b.sum_sq ⊕ x ⊗ x })

  unfoldable pub band_of : Bollinger F → BollingerBand F
  band_of b =
      let n = f.of_ℕ b.period in
      let mean = b.sum ⊘ n in
      let sd = f.sqrt (f.max (b.sum_sq ⊘ n ⊖ mean ⊗ mean) nought) in
      let lower = mean ⊖ b.k ⊗ sd in
      let upper = mean ⊕ b.k ⊗ sd in
      record { lower = lower; mid = mean; upper = upper; width = upper ⊖ lower }

  unfoldable pub next_bollinger : F → Bollinger F → Bollinger F × Option (BollingerBand F)
  next_bollinger x b =
      let next = push_value x b in
      (next, if ltb (length next.buf) next.period then none else some (band_of next))
