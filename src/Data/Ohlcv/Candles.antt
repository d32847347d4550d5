-- ===== src/Data/Ohlcv/Candles.antt =====
-- The candles that src/data/ohlcv_builder.rs emits.
use crypto_scalper.Float.Order.{le_of_not_lt}
use crypto_scalper.Data.Ohlcv.{
  and_then_more, ingest, finalize, stream, ingest_at, begin, extend, OhlcvBuilder,
}
use crypto_scalper.Prelude.{
  false, true, Bool, refl, if◌then◌else◌, inr, inl, none, ◌∷◌, Bool-cases, [], All, List, some,
  Option, ◌≡◌, arith, string_eq,
}
use crypto_scalper.Float.{Float, ◌≼◌, IsNumber}
use crypto_scalper.Float.Laws.{IsOrdered}
use crypto_scalper.Time.{Time}
use crypto_scalper.Data.Types.{Candle, Trade}

module _ {F : Type 0} ⦃f : Float F⦄ where
  -- The low is at most the open and the close, and these are at most the high.
  pub record IsCandle (o h l c : F) : Type 0 where
    pub low-le-open : l ≼ o
    pub low-le-close : l ≼ c
    pub open-le-high : o ≼ h
    pub close-le-high : c ≼ h

module _ {F T : Type 0} ⦃f : Float F⦄ where
  abbrev pub IsShaped : Candle F T → Type 0
  IsShaped c = IsCandle c.«open» c.high c.low c.close

  -- A builder whose current bucket has seen a trade.
  abbrev pub IsStarted : OhlcvBuilder F T → Type 0
  IsStarted b = IsCandle b.«open» b.high b.low b.close

  abbrev pub IsPriced : Trade F T → Type 0
  IsPriced trade = IsNumber trade.price

module _ {F T : Type 0} ⦃f : Float F⦄ ⦃t : Time T⦄ (laws : IsOrdered F) where
  begin-IsStarted :
      (bucket : T) (trade : Trade F T) (b : OhlcvBuilder F T)
      → IsPriced trade
      → IsStarted (begin bucket trade b)
  unfolding begin
  begin-IsStarted bucket trade b n = ground arith

  extend-IsStarted :
      (trade : Trade F T) (b : OhlcvBuilder F T)
      → IsPriced trade
      → IsStarted b
      → IsStarted (extend trade b)
  unfolding extend
  extend-IsStarted trade b n s = ground (
    arith,
    le_of_not_lt laws b.high trade.price (laws.numbers_of_le _ _ s.open-le-high).1 n,
    le_of_not_lt laws trade.price b.low n (laws.numbers_of_le _ _ s.low-le-open).0,
    laws.le_of_lt b.high trade.price,
    laws.le_of_lt trade.price b.low,
    laws.le_trans b.«open» b.high trade.price,
    laws.le_trans trade.price b.low b.«open»,
  )

  -- Once there is a bucket, it has the shape of a candle.
  abbrev pub IsSteady : OhlcvBuilder F T → Type 0
  IsSteady b = (bs : T) → b.bucket_start ≡ some bs → IsStarted b

  ingest_at-IsSteady :
      (o : Option T) (bucket : T) (trade : Trade F T) (b : OhlcvBuilder F T)
      → b.bucket_start ≡ o
      → IsPriced trade
      → IsSteady b
      → IsSteady (ingest_at o bucket trade b).0
  unfolding ingest_at
  ingest_at-IsSteady none bucket trade b e n s bs h = begin-IsStarted bucket trade b n
  ingest_at-IsSteady (some start) bucket trade b e n s bs h =
      ground (arith, begin-IsStarted bucket trade b n, extend-IsStarted trade b n (s start e))

  ingest_at-IsShaped :
      (o : Option T) (bucket : T) (trade : Trade F T) (b : OhlcvBuilder F T)
      (rest : List (Candle F T))
      → b.bucket_start ≡ o
      → IsSteady b
      → All IsShaped rest
      → All IsShaped (and_then_more (ingest_at o bucket trade b).1 rest)
  unfolding ingest_at finalize
  ingest_at-IsShaped none bucket trade b rest e s r = r
  ingest_at-IsShaped (some start) bucket trade b rest e s r =
      elim (Bool-cases (t.after bucket start)) [
        | inl later ↦ rw later (s start e, r)
        | inr same ↦ rw same r
      ]

  -- Of trades whose prices are numbers, every finalized candle has its low at most its open and its
  -- close, and these at most its high, where the builder starts without a bucket or with one of that
  -- shape.
  pub stream-IsShaped :
      (trades : List (Trade F T)) (b : OhlcvBuilder F T)
      → All IsPriced trades
      → IsSteady b
      → All IsShaped (stream trades b).1
  unfolding stream ingest
  stream-IsShaped [] b p s = tt
  stream-IsShaped (trade ∷ trades) b (p, ps) s =
      ingest_at-IsShaped b.bucket_start _ trade b _ refl s
        (stream-IsShaped trades _ ps (ingest_at-IsSteady b.bucket_start _ trade b refl p s))

-- From a bucket on: each candle opens at the start of the bucket, and the next bucket is later.
pub data Chain {F T : Type 0} ⦃t : Time T⦄ : Option T → List (Candle F T) → Type 0 where
  ends : {o : Option T} → Chain o []
  starts : {bs : T} {cs : List (Candle F T)} → Chain (some bs) cs → Chain none cs
  emits :
      {bs : T} {next : T} {c : Candle F T} {cs : List (Candle F T)}
      → c.open_time ≡ bs
      → t.after next bs ≡ true
      → Chain (some next) cs
      → Chain (some bs) (c ∷ cs)

module _ {F T : Type 0} ⦃f : Float F⦄ ⦃t : Time T⦄ where
  -- The two branches of a trade into a bucket.
  abbrev outcome :
      Bool → T → T → Trade F T → OhlcvBuilder F T → OhlcvBuilder F T × Option (Candle F T)
  outcome later start bucket trade b =
      if later then (begin bucket trade b, some (finalize b start)) else (extend trade b, none)

  outcome-Chain :
      (later : Bool) (start bucket : T) (trade : Trade F T) (b : OhlcvBuilder F T)
      (rest : List (Candle F T))
      → t.after bucket start ≡ later
      → b.bucket_start ≡ some start
      → Chain (outcome later start bucket trade b).0.bucket_start rest
      → Chain (some start) (and_then_more (outcome later start bucket trade b).1 rest)
  unfolding begin extend finalize
  outcome-Chain true start bucket trade b rest h e k = emits refl h k
  outcome-Chain false start bucket trade b rest h e k = rw (← e) k

  ingest_at-Chain :
      (o : Option T) (bucket : T) (trade : Trade F T) (b : OhlcvBuilder F T)
      (rest : List (Candle F T))
      → b.bucket_start ≡ o
      → Chain (ingest_at o bucket trade b).0.bucket_start rest
      → Chain o (and_then_more (ingest_at o bucket trade b).1 rest)
  unfolding ingest_at begin
  ingest_at-Chain none bucket trade b rest e k = starts k
  ingest_at-Chain (some start) bucket trade b rest e k =
      outcome-Chain (t.after bucket start) start bucket trade b rest refl e k

  -- The finalized candles follow one another: each opens at the start of its bucket, and the next
  -- bucket starts later.
  pub stream-Chain :
      (trades : List (Trade F T)) (b : OhlcvBuilder F T) → Chain b.bucket_start (stream trades b).1
  unfolding stream ingest
  stream-Chain [] b = ends
  stream-Chain (trade ∷ trades) b =
      ingest_at-Chain b.bucket_start _ trade b _ refl (stream-Chain trades _)
