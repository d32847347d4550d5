-- ===== src/Indicators/Keltner.antt =====
-- src/indicators/keltner.rs: a channel around the moving average.
pub mod Warmup
use crypto_scalper.Indicators.Ema.{Ema, new_ema, next_ema}
use crypto_scalper.Indicators.Atr.{Atr, new_atr, next_atr}
use crypto_scalper.Indicators.Vwap.{typical_price}
use crypto_scalper.Prelude.{ℕ, Option, none, some, string_eq}
use crypto_scalper.Float.{Float, ◌⊕◌, ◌⊖◌, ◌⊗◌}
use crypto_scalper.Data.Types.{Candle}

pub record KeltnerBand (F : Type 0) : Type 0 where
  pub lower : F
  pub mid : F
  pub upper : F

pub record Keltner (F : Type 0) : Type 0 where
  pub ema : Ema F
  pub atr : Atr F
  pub k : F

module _ {F : Type 0} ⦃f : Float F⦄ where
  unfoldable pub new_keltner : ℕ → F → Keltner F
  new_keltner period k = record { ema = new_ema period; atr = new_atr period; k = k }

  unfoldable pub channel : F → F → Option F → Option (KeltnerBand F)
  channel k mid none = none
  channel k mid (some atr) =
      some (record { lower = mid ⊖ k ⊗ atr; mid = mid; upper = mid ⊕ k ⊗ atr })

module _ {F T : Type 0} ⦃f : Float F⦄ where
  -- The range is asked for only where the average answers.
  unfoldable pub keltner_after :
      Candle F T → Ema F × Option F → Keltner F → Keltner F × Option (KeltnerBand F)
  keltner_after c (ema, none) n = (record n { ema = ema }, none)
  keltner_after c (ema, some mid) n =
      let (atr, range) = next_atr c n.atr in
      (record n { ema = ema; atr = atr }, channel n.k mid range)

  unfoldable pub next_keltner : Candle F T → Keltner F → Keltner F × Option (KeltnerBand F)
  next_keltner c n = keltner_after c (next_ema (typical_price c) n.ema) n
