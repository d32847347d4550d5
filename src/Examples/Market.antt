-- ===== src/Examples/Market.antt =====
-- Candles of src/data/ohlcv_builder.rs from the trades of its unit test.
use crypto_scalper.Data.Ohlcv.Candles.{stream-IsShaped, stream-Chain, Chain, IsShaped}
use crypto_scalper.Examples.Inputs.{usd}
use crypto_scalper.Data.Ohlcv.{
  finalize, extend, begin, time_or, bucket_for, ingest_at, ingest, stream, OhlcvBuilder,
}
use crypto_scalper.Prelude.{ℕ, ◌≡◌, refl, false, none, List, [], ◌∷◌, map, arith, string_eq, All}
use crypto_scalper.Data.Types.{Trade}
use crypto_scalper.Time.{seconds_time}
use crypto_scalper.Float.Fixed.{Fixed, fixed_float, Fixed-IsOrdered}

abbrev trade_at : ℕ → Fixed → Trade Fixed ℕ
trade_at ts price = record { ts = ts; price = price; qty = usd 1; is_buyer_maker = false }

abbrev minute : OhlcvBuilder Fixed ℕ
minute = record {
  interval_secs = 60;
  bucket_start = none;
  «open» = usd 0;
  high = usd 0;
  low = usd 0;
  close = usd 0;
  volume = usd 0;
}

abbrev trades : List (Trade Fixed ℕ)
trades =
    trade_at 0 (usd 100)
    ∷ trade_at 30 (usd 101)
    ∷ trade_at 59 (fixed_float.dec 995 1)
    ∷ trade_at 60 (fixed_float.dec 1005 1)
    ∷ []

stream-Chain_example : Chain none (stream trades minute).1
stream-Chain_example = stream-Chain trades minute

stream-IsShaped_example : All IsShaped (stream trades minute).1
stream-IsShaped_example =
    stream-IsShaped Fixed-IsOrdered trades minute (refl, (refl, (refl, (refl, tt)))) (ground arith)

-- `builds_candles_at_interval`.
one_candle :
    map {B = Fixed × Fixed × Fixed × Fixed}
      (λ c. (c.«open», c.high, c.low, c.close))
      (stream trades minute).1
    ≡ (usd 100, usd 101, fixed_float.dec 995 1, fixed_float.dec 995 1) ∷ []
unfolding stream ingest ingest_at bucket_for time_or begin extend finalize
one_candle = refl
