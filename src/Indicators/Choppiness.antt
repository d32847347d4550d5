-- ===== src/Indicators/Choppiness.antt =====
-- src/indicators/choppiness.rs: how far a market runs sideways.
use crypto_scalper.Indicators.Atr.{range_after}
use crypto_scalper.Prelude.{
  drop, ℕ, Option, none, some, List, [], ◌∷◌, ◌++◌, ltb, if◌then◌else◌, string_eq, length,
}
use crypto_scalper.Float.{Float, ◌⊕◌, ◌⊖◌, ◌⊗◌, ◌⊘◌, ◌<?◌, dec, lit, nought}
use crypto_scalper.Data.Types.{Candle}

-- The newest candle and true range stand at the end.
pub record Choppiness (F T : Type 0) : Type 0 where
  pub period : ℕ
  pub buf : List (Candle F T)
  pub tr_sum : F
  pub prev_close : Option F
  pub tr_hist : List F

module _ {F T : Type 0} ⦃f : Float F⦄ where
  unfoldable pub new_choppiness : ℕ → Choppiness F T
  new_choppiness period = record {
    period = period;
    buf = [];
    tr_sum = nought;
    prev_close = none;
    tr_hist = [];
  }

  -- `pop_front` of the true ranges where they are more than the period.
  unfoldable pub drop_range : List F → Choppiness F T → Choppiness F T
  drop_range [] h = h
  drop_range (old ∷ rest) h =
      if ltb h.period (length (old ∷ rest))
      then record h { tr_hist = rest; tr_sum = h.tr_sum ⊖ old }
      else h

  unfoldable pub push_range : F → Choppiness F T → Choppiness F T
  push_range tr h =
      let hist = h.tr_hist ++ tr ∷ [] in
      drop_range hist (record h { tr_hist = hist; tr_sum = h.tr_sum ⊕ tr })

  unfoldable pub push_candle : Candle F T → Choppiness F T → Choppiness F T
  push_candle c h =
      let buf = h.buf ++ c ∷ [] in
      record h { buf = if ltb h.period (length buf) then drop 1 buf else buf }

  -- The loop over the candles: the highest high and the lowest low.
  unfoldable pub extremes : List (Candle F T) → F → F → F × F
  extremes [] hi lo = (hi, lo)
  extremes (c ∷ cs) hi lo =
      extremes cs (if hi <? c.high then c.high else hi) (if c.low <? lo then c.low else lo)

  unfoldable pub choppiness_of : Choppiness F T → F
  choppiness_of h =
      let (hi, lo) = extremes h.buf (f.neg f.infinity) f.infinity in
      lit 100 ⊗ f.log10 (h.tr_sum ⊘ f.max (hi ⊖ lo) (dec 1 9)) ⊘ f.log10 (f.of_ℕ h.period)

  unfoldable pub next_choppiness : Candle F T → Choppiness F T → Choppiness F T × Option F
  next_choppiness c h =
      let tr = range_after c h.prev_close in
      let next = push_candle c (push_range tr (record h { prev_close = some c.close })) in
      (next, if ltb (length next.buf) next.period then none else some (choppiness_of next))
