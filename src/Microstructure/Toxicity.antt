-- ===== src/Microstructure/Toxicity.antt =====
-- src/microstructure/toxicity.rs: whether a market is too toxic to enter.
use crypto_scalper.Prelude.Dict.{pair_eq}
use crypto_scalper.Prelude.{Bool, false, ◌||◌, Option, none, some, string_eq}
use crypto_scalper.Float.{Float, ◌<?◌, dec, lit}

pub record Toxicity (F : Type 0) : Type 0 where
  pub ofi_z_abs_limit : F
  pub vpin_limit : F
  pub spread_pct_limit : F

module _ {F : Type 0} ⦃f : Float F⦄ where
  unfoldable pub default_toxicity : Toxicity F
  default_toxicity = record {
    ofi_z_abs_limit = lit 3;
    vpin_limit = dec 75 2;
    spread_pct_limit = dec 3 2;
  }

  unfoldable pub is_above : F → Option F → Bool
  is_above limit none = false
  is_above limit (some x) = limit <? x

  unfoldable pub abs_above : F → Option F → Bool
  abs_above limit none = false
  abs_above limit (some x) = limit <? f.abs x

  unfoldable pub is_toxic : Option F → Option F → Option F → Toxicity F → Bool
  is_toxic ofi_z vpin spread_pct limits =
      abs_above limits.ofi_z_abs_limit ofi_z
      || (is_above limits.vpin_limit vpin || is_above limits.spread_pct_limit spread_pct)
