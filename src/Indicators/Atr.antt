-- ===== src/Indicators/Atr.antt =====
-- src/indicators/atr.rs: the average true range.
use crypto_scalper.Prelude.{ℕ, ◌+◌, Option, none, some, ◌==◌, if◌then◌else◌, string_eq}
use crypto_scalper.Float.{Float, ◌⊕◌, ◌⊖◌, ◌⊗◌, ◌⊘◌, lit, nought}
use crypto_scalper.Data.Types.{Candle}

module _ {F T : Type 0} ⦃f : Float F⦄ where
  unfoldable pub true_range : Candle F T → F → F
  true_range c prev_close =
      f.max (f.max (c.high ⊖ c.low) (f.abs (c.high ⊖ prev_close))) (f.abs (c.low ⊖ prev_close))

  unfoldable pub range_after : Candle F T → Option F → F
  range_after c none = c.high ⊖ c.low
  range_after c (some prev_close) = true_range c prev_close

pub record Atr (F : Type 0) : Type 0 where
  pub period : ℕ
  pub prev_close : Option F
  pub value : Option F
  pub seed_sum : F
  pub seed_count : ℕ

module _ {F : Type 0} ⦃f : Float F⦄ where
  unfoldable pub new_atr : ℕ → Atr F
  new_atr period = record {
    period = period;
    prev_close = none;
    value = none;
    seed_sum = nought;
    seed_count = 0;
  }

  -- The value after one more true range.
  unfoldable pub atr_from : Option F → F → Atr F → Atr F
  atr_from none tr a =
      let sum = a.seed_sum ⊕ tr in
      record a {
        seed_sum = sum;
        seed_count = a.seed_count + 1;
        value = if a.seed_count + 1 == a.period then some (sum ⊘ f.of_ℕ a.period) else none;
      }
  atr_from (some value) tr a =
      let p = f.of_ℕ a.period in record a { value = some ((value ⊗ (p ⊖ lit 1) ⊕ tr) ⊘ p) }

module _ {F T : Type 0} ⦃f : Float F⦄ where
  unfoldable pub next_atr : Candle F T → Atr F → Atr F × Option F
  next_atr c a =
      let next =
        atr_from a.value (range_after c a.prev_close) (record a { prev_close = some c.close }) in
      (next, next.value)
