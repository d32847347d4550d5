-- ===== src/Quant/Types.antt =====
-- src/quant.rs: what the risk agent asks the engine, and its answer.
use crypto_scalper.Prelude.{String, Bool, string_eq}
use crypto_scalper.Prelude.Int.{ℤ}
use crypto_scalper.Text.{Text}
use crypto_scalper.Data.Types.{Side}

pub record QuantSizingInput (F : Type 0) : Type 0 where
  pub symbol : String
  pub strategy : String
  pub side : Side
  pub entry : F
  pub stop_loss : F
  pub equity : F
  pub base_risk_pct : F

pub record QuantSizingResult (F : Type 0) : Type 0 where
  pub size_multiplier : F
  pub kelly_fraction : F
  pub vol_multiplier : F
  pub var_rejected : Bool
  pub ic_adjustment : ℤ  -- i8
  pub kalman_direction : ℤ  -- i8
  pub reason : Text F
