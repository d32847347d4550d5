-- ===== src/Data/Ohlcv.antt =====
-- src/data/ohlcv_builder.rs: candles of a fixed interval from a stream of trades.
pub mod Candles
use crypto_scalper.Prelude.{ℕ, Option, none, some, List, [], ◌∷◌, ltb, if◌then◌else◌, string_eq}
use crypto_scalper.Prelude.Int.{rem_euclid, pos, ◌-ℤ◌}
use crypto_scalper.Float.{Float, ◌⊕◌, ◌<?◌, nought}
use crypto_scalper.Time.{Time}
use crypto_scalper.Data.Types.{Candle, Trade}

pub record OhlcvBuilder (F T : Type 0) : Type 0 where
  pub interval_secs : ℕ  -- i64, positive by the assertion in `new`
  pub bucket_start : Option T
  pub «open» : F
  pub high : F
  pub low : F
  pub close : F
  pub volume : F

module _ {F T : Type 0} ⦃f : Float F⦄ where
  -- `none` where the assertion fails.
  unfoldable pub builder : ℕ → Option (OhlcvBuilder F T)
  builder interval_secs =
      if ltb 0 interval_secs
      then some (record {
        interval_secs = interval_secs;
        bucket_start = none;
        «open» = nought;
        high = nought;
        low = nought;
        close = nought;
        volume = nought;
      })
      else none

  -- A bucket that begins with a trade.
  unfoldable pub begin : T → Trade F T → OhlcvBuilder F T → OhlcvBuilder F T
  begin bucket trade b = record b {
    bucket_start = some bucket;
    «open» = trade.price;
    high = trade.price;
    low = trade.price;
    close = trade.price;
    volume = trade.qty;
  }

  unfoldable pub extend : Trade F T → OhlcvBuilder F T → OhlcvBuilder F T
  extend trade b = record b {
    high = if b.high <? trade.price then trade.price else b.high;
    low = if trade.price <? b.low then trade.price else b.low;
    close = trade.price;
    volume = b.volume ⊕ trade.qty;
  }

module _ {F T : Type 0} ⦃t : Time T⦄ where
  unfoldable pub finalize : OhlcvBuilder F T → T → Candle F T
  finalize b bucket_start = record {
    open_time = bucket_start;
    close_time = t.add_seconds bucket_start b.interval_secs;
    «open» = b.«open»;
    high = b.high;
    low = b.low;
    close = b.close;
    volume = b.volume;
  }

  unfoldable pub current_of : Option T → OhlcvBuilder F T → Option (Candle F T)
  current_of none b = none
  current_of (some bucket_start) b = some (finalize b bucket_start)

  unfoldable pub current : OhlcvBuilder F T → Option (Candle F T)
  current b = current_of b.bucket_start b

module _ {T : Type 0} ⦃t : Time T⦄ where
  unfoldable pub time_or : T → Option T → T
  time_or ts none = ts
  time_or ts (some bucket) = bucket

  unfoldable pub bucket_for : ℕ → T → T
  bucket_for interval_secs ts =
      let s = t.timestamp ts in time_or ts (t.at_timestamp (s -ℤ pos (rem_euclid s interval_secs)))

module _ {F T : Type 0} ⦃f : Float F⦄ ⦃t : Time T⦄ where
  -- The match of `ingest`, on the start of the current bucket.
  unfoldable pub ingest_at :
      Option T → T → Trade F T → OhlcvBuilder F T → OhlcvBuilder F T × Option (Candle F T)
  ingest_at none bucket trade b = (begin bucket trade b, none)
  ingest_at (some bs) bucket trade b =
      if t.after bucket bs
      then (begin bucket trade b, some (finalize b bs))
      else (extend trade b, none)

  unfoldable pub ingest : Trade F T → OhlcvBuilder F T → OhlcvBuilder F T × Option (Candle F T)
  ingest trade b = ingest_at b.bucket_start (bucket_for b.interval_secs trade.ts) trade b

  abbrev pub and_then_more : Option (Candle F T) → List (Candle F T) → List (Candle F T)
  and_then_more none cs = cs
  and_then_more (some c) cs = c ∷ cs

  -- A stream of trades: the builder at its end and the candles that were finalized.
  unfoldable pub stream : List (Trade F T) → OhlcvBuilder F T → OhlcvBuilder F T × List (Candle F T)
  stream [] b = (b, [])
  stream (trade ∷ trades) b =
      let (b', done) = ingest trade b in
      let (last, rest) = stream trades b' in (last, and_then_more done rest)
