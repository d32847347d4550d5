-- ===== src/Strategy/State.antt =====
-- src/strategy/state.rs: the rolling state of a symbol.
use crypto_scalper.Indicators.Atr.{Atr, new_atr, next_atr}
use crypto_scalper.Indicators.Ema.{Ema, new_ema, next_ema}
use crypto_scalper.Indicators.Rsi.{Rsi, new_rsi, next_rsi}
use crypto_scalper.Indicators.Bollinger.{Bollinger, BollingerBand, new_bollinger, next_bollinger}
use crypto_scalper.Indicators.Adx.{Adx, AdxValue, new_adx, next_adx}
use crypto_scalper.Indicators.Vwap.{Vwap, new_vwap, next_vwap}
use crypto_scalper.Indicators.Choppiness.{Choppiness, new_choppiness, next_choppiness}
use crypto_scalper.Indicators.Keltner.{Keltner, KeltnerBand, new_keltner, next_keltner}
use crypto_scalper.Indicators.Roc.{Roc, new_roc, next_roc}
use crypto_scalper.Data.OrderBook.{OrderBook, empty_book}
use crypto_scalper.Prelude.{
  drop, reverse, take, ℕ, String, Option, none, some, List, [], ◌∷◌, ◌++◌, map, ltb, if◌then◌else◌,
  string_eq, length,
}
use crypto_scalper.Float.{sum, Float, ◌⊘◌, dec, lit, nought}
use crypto_scalper.Data.Types.{Candle}

-- The newest candle stands at the end.
pub record SymbolState (F T : Type 0) : Type 0 where
  pub symbol : String
  pub candles : List (Candle F T)
  pub max_candles : ℕ
  pub ema_8 : Ema F
  pub ema_21 : Ema F
  pub ema_50 : Ema F
  pub ema_200 : Ema F
  pub rsi : Rsi F
  pub bollinger : Bollinger F
  pub atr : Atr F
  pub adx : Adx F T
  pub vwap : Vwap F
  pub choppiness : Choppiness F T
  pub keltner : Keltner F
  pub roc : Roc F
  pub last_bb : Option (BollingerBand F)
  pub last_adx : Option F
  pub last_di_plus : Option F
  pub last_di_minus : Option F
  pub last_rsi : Option F
  pub last_atr : Option F
  pub last_vwap : Option F
  pub last_vwap_slope : Option F
  pub last_choppiness : Option F
  pub last_keltner_upper : Option F
  pub last_keltner_lower : Option F
  pub last_roc : Option F
  pub last_ofi : Option F
  pub order_book : OrderBook F
  pub volume_sma : F
  pub volume_sma_count : ℕ

-- `if let Some(x) = new { last = Some(x) }`.
unfoldable pub or_older : {A : Type 0} → Option A → Option A → Option A
or_older none last = last
or_older (some x) last = some x

module _ {F T : Type 0} ⦃f : Float F⦄ where
  unfoldable pub new_state : String → SymbolState F T
  new_state symbol = record {
    symbol = symbol;
    candles = [];
    max_candles = 512;
    ema_8 = new_ema 8;
    ema_21 = new_ema 21;
    ema_50 = new_ema 50;
    ema_200 = new_ema 200;
    rsi = new_rsi 14;
    bollinger = new_bollinger 20 (lit 2);
    atr = new_atr 14;
    adx = new_adx 14;
    vwap = new_vwap;
    choppiness = new_choppiness 14;
    keltner = new_keltner 20 (dec 15 1);
    roc = new_roc 3;
    last_bb = none;
    last_adx = none;
    last_di_plus = none;
    last_di_minus = none;
    last_rsi = none;
    last_atr = none;
    last_vwap = none;
    last_vwap_slope = none;
    last_choppiness = none;
    last_keltner_upper = none;
    last_keltner_lower = none;
    last_roc = none;
    last_ofi = none;
    order_book = empty_book;
    volume_sma = nought;
    volume_sma_count = 0;
  }

  unfoldable pub keep_candles : ℕ → List (Candle F T) → List (Candle F T)
  keep_candles limit cs = if ltb limit (length cs) then drop 1 cs else cs

  -- The mean volume of the newest twenty candles at most.
  unfoldable pub mean_volume : List (Candle F T) → F
  mean_volume cs =
      let window = if ltb (length cs) 20 then length cs else 20 in
      sum (map (λ c. c.volume) (take window (reverse cs))) ⊘ f.of_ℕ window

  unfoldable pub note_adx : Option (AdxValue F) → SymbolState F T → SymbolState F T
  note_adx none s = s
  note_adx (some v) s = record s {
    last_adx = some v.adx;
    last_di_plus = some v.di_plus;
    last_di_minus = some v.di_minus;
  }

  unfoldable pub note_vwap : Option F → SymbolState F T → SymbolState F T
  note_vwap none s = s
  note_vwap (some v) s = record s { last_vwap = some v; last_vwap_slope = s.vwap.slope }

  unfoldable pub note_keltner : Option (KeltnerBand F) → SymbolState F T → SymbolState F T
  note_keltner none s = s
  note_keltner (some k) s = record s {
    last_keltner_lower = some k.lower;
    last_keltner_upper = some k.upper;
  }

  unfoldable pub feed_close : F → SymbolState F T → SymbolState F T
  feed_close close s =
      let (rsi, rsi_value) = next_rsi close s.rsi in
      let (bollinger, band) = next_bollinger close s.bollinger in
      let (roc, change) = next_roc close s.roc in
      record s {
        ema_8 = (next_ema close s.ema_8).0;
        ema_21 = (next_ema close s.ema_21).0;
        ema_50 = (next_ema close s.ema_50).0;
        ema_200 = (next_ema close s.ema_200).0;
        rsi = rsi;
        last_rsi = or_older rsi_value s.last_rsi;
        bollinger = bollinger;
        last_bb = or_older band s.last_bb;
        roc = roc;
        last_roc = or_older change s.last_roc;
      }

  unfoldable pub feed_candle : Candle F T → SymbolState F T → SymbolState F T
  feed_candle c s =
      let (atr, range) = next_atr c s.atr in
      let (adx, strength) = next_adx c s.adx in
      let (vwap, price) = next_vwap c s.vwap in
      let (choppiness, chop) = next_choppiness c s.choppiness in
      let (keltner, band) = next_keltner c s.keltner in
      note_keltner band (
        note_vwap price (
          note_adx strength (record s {
            atr = atr;
            last_atr = or_older range s.last_atr;
            adx = adx;
            vwap = vwap;
            choppiness = choppiness;
            last_choppiness = or_older chop s.last_choppiness;
            keltner = keltner;
          })))

  unfoldable pub on_closed : Candle F T → SymbolState F T → SymbolState F T
  on_closed c s =
      let candles = keep_candles s.max_candles (s.candles ++ c ∷ []) in
      let fed = feed_candle c (feed_close c.close s) in
      record fed {
        candles = candles;
        volume_sma = mean_volume candles;
        volume_sma_count = if ltb (length candles) 20 then length candles else 20;
      }
