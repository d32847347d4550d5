-- ===== src/Indicators/Adx.antt =====
-- src/indicators/adx.rs: the average directional index.
use crypto_scalper.Indicators.Atr.{true_range}
use crypto_scalper.Float.{sum, Float, ◌⊕◌, ◌⊖◌, ◌⊗◌, ◌⊘◌, ◌<?◌, ◌≤?◌, lit, nought}
use crypto_scalper.Prelude.{
  ℕ, ◌+◌, Bool, false, not, ◌&&◌, ◌||◌, Option, none, some, List, [], ◌∷◌, ◌++◌, ltb, ◌==◌,
  if◌then◌else◌, string_eq, length,
}
use crypto_scalper.Data.Types.{Candle}

pub record AdxValue (F : Type 0) : Type 0 where
  pub adx : F
  pub di_plus : F
  pub di_minus : F

pub record Adx (F T : Type 0) : Type 0 where
  pub period : ℕ
  pub prev_candle : Option (Candle F T)
  pub smooth_tr : F
  pub smooth_plus_dm : F
  pub smooth_minus_dm : F
  pub dx_window : List F
  pub adx : Option F
  pub warmup : ℕ
  pub seeded : Bool

module _ {F : Type 0} ⦃f : Float F⦄ where
  -- The part of a move that is greater than the opposite one.
  unfoldable pub dominant : F → F → F
  dominant move other = if other <? move && nought <? move then move else nought

  -- `==` of floats is `<=` both ways.
  unfoldable pub is_zero : F → Bool
  is_zero x = x ≤? nought && nought ≤? x

  unfoldable pub dx_of : F → F → F
  dx_of di_plus di_minus =
      if is_zero (di_plus ⊕ di_minus)
      then nought
      else lit 100 ⊗ f.abs (di_plus ⊖ di_minus) ⊘ (di_plus ⊕ di_minus)

  unfoldable pub smooth_adx : Option F → F → F → Option F
  smooth_adx none p dx = none
  smooth_adx (some prev_adx) p dx = some ((prev_adx ⊗ (p ⊖ lit 1) ⊕ dx) ⊘ p)

  unfoldable pub value_of : F → F → Option F → Option (AdxValue F)
  value_of di_plus di_minus none = none
  value_of di_plus di_minus (some adx) =
      some (record { adx = adx; di_plus = di_plus; di_minus = di_minus })

module _ {F T : Type 0} ⦃f : Float F⦄ where
  unfoldable pub new_adx : ℕ → Adx F T
  new_adx period = record {
    period = period;
    prev_candle = none;
    smooth_tr = nought;
    smooth_plus_dm = nought;
    smooth_minus_dm = nought;
    dx_window = [];
    adx = none;
    warmup = 0;
    seeded = false;
  }

  unfoldable pub accumulate : F → F → F → Adx F T → Adx F T
  accumulate tr plus_dm minus_dm a =
      let p = f.of_ℕ a.period in
      if a.seeded
      then record a {
        smooth_tr = a.smooth_tr ⊖ a.smooth_tr ⊘ p ⊕ tr;
        smooth_plus_dm = a.smooth_plus_dm ⊖ a.smooth_plus_dm ⊘ p ⊕ plus_dm;
        smooth_minus_dm = a.smooth_minus_dm ⊖ a.smooth_minus_dm ⊘ p ⊕ minus_dm;
      }
      else record a {
        smooth_tr = a.smooth_tr ⊕ tr;
        smooth_plus_dm = a.smooth_plus_dm ⊕ plus_dm;
        smooth_minus_dm = a.smooth_minus_dm ⊕ minus_dm;
        warmup = a.warmup + 1;
        seeded = a.warmup + 1 == a.period;
      }

  unfoldable pub push_dx : F → Adx F T → Adx F T
  push_dx dx a =
      let p = f.of_ℕ a.period in
      let window = a.dx_window ++ dx ∷ [] in
      if ltb (length a.dx_window) a.period
      then record a {
        dx_window = window;
        adx = if length window == a.period then some (sum window ⊘ p) else a.adx;
      }
      else record a { adx = smooth_adx a.adx p dx }

  unfoldable pub index : Adx F T → Adx F T × Option (AdxValue F)
  index a =
      let di_plus = lit 100 ⊗ a.smooth_plus_dm ⊘ a.smooth_tr in
      let di_minus = lit 100 ⊗ a.smooth_minus_dm ⊘ a.smooth_tr in
      let next = push_dx (dx_of di_plus di_minus) a in
      if not a.seeded || is_zero a.smooth_tr
      then (a, none)
      else (next, value_of di_plus di_minus next.adx)

  unfoldable pub adx_after :
      Option (Candle F T) → Candle F T → Adx F T → Adx F T × Option (AdxValue F)
  adx_after none c a = (record a { prev_candle = some c }, none)
  adx_after (some prev) c a =
      let up_move = c.high ⊖ prev.high in
      let down_move = prev.low ⊖ c.low in
      index (
        accumulate (true_range c prev.close) (dominant up_move down_move)
          (dominant down_move up_move) (record a { prev_candle = some c }))

  unfoldable pub next_adx : Candle F T → Adx F T → Adx F T × Option (AdxValue F)
  next_adx c a = adx_after a.prev_candle c a
