-- ===== src/Data/Types.antt =====
-- src/data/types.rs: candles, trades and sides.
use crypto_scalper.Prelude.{Bool}

pub data Side : Type 0 where
  long short : Side

pub record Candle (F T : Type 0) : Type 0 where
  pub open_time : T
  pub close_time : T
  pub «open» : F
  pub high : F
  pub low : F
  pub close : F
  pub volume : F

pub record Trade (F T : Type 0) : Type 0 where
  pub ts : T
  pub price : F
  pub qty : F
  pub is_buyer_maker : Bool
