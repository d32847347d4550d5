-- ===== src/Indicators/Vwap.antt =====
-- src/indicators/vwap.rs: the volume-weighted average price of a session.
use crypto_scalper.Prelude.{Option, none, some, if◌then◌else◌, string_eq}
use crypto_scalper.Float.{Float, ◌⊕◌, ◌⊖◌, ◌⊗◌, ◌⊘◌, ◌≤?◌, dec, lit, nought}
use crypto_scalper.Data.Types.{Candle}

pub record Vwap (F : Type 0) : Type 0 where
  pub cum_pv : F
  pub cum_vol : F
  pub prev_value : Option F
  pub slope : Option F

module _ {F : Type 0} ⦃f : Float F⦄ where
  unfoldable pub new_vwap : Vwap F
  new_vwap = record { cum_pv = nought; cum_vol = nought; prev_value = none; slope = none }

  unfoldable pub slope_after : Option F → F → Option F → Option F
  slope_after none v slope = slope
  slope_after (some prev) v slope = some ((v ⊖ prev) ⊘ f.max prev (dec 1 9))

module _ {F T : Type 0} ⦃f : Float F⦄ where
  unfoldable pub typical_price : Candle F T → F
  typical_price c = (c.high ⊕ c.low ⊕ c.close) ⊘ lit 3

  unfoldable pub next_vwap : Candle F T → Vwap F → Vwap F × Option F
  next_vwap c w =
      let pv = w.cum_pv ⊕ typical_price c ⊗ c.volume in
      let vol = w.cum_vol ⊕ c.volume in
      let v = pv ⊘ vol in
      if vol ≤? nought then (record w { cum_pv = pv; cum_vol = vol }, none) else (
        record {
          cum_pv = pv;
          cum_vol = vol;
          prev_value = some v;
          slope = slope_after w.prev_value v w.slope;
        },
        some v,
      )
