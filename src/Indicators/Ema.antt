-- ===== src/Indicators/Ema.antt =====
-- src/indicators/ema.rs: the exponential moving average.
use crypto_scalper.Float.{sum, sum_from, Float, ◌⊕◌, ◌⊖◌, ◌⊗◌, ◌⊘◌, lit, nought}
use crypto_scalper.Prelude.{
  take, drop, ℕ, zero, suc, ◌+◌, ◌≡◌, refl, true, false, Option, none, some, List, [], ◌∷◌, arith,
  ltb, ◌==◌, if◌then◌else◌, string_eq, length,
}

pub record Ema (F : Type 0) : Type 0 where
  pub period : ℕ
  pub alpha : F
  pub value : Option F
  pub seed_sum : F
  pub seed_count : ℕ

module _ {F : Type 0} ⦃f : Float F⦄ where
  unfoldable pub new_ema : ℕ → Ema F
  new_ema period = record {
    period = period;
    alpha = lit 2 ⊘ (f.of_ℕ period ⊕ lit 1);
    value = none;
    seed_sum = nought;
    seed_count = 0;
  }

  -- The first `period` observations seed it with their mean.
  unfoldable pub seed_ema : F → Ema F → Ema F
  seed_ema x e =
      let sum = e.seed_sum ⊕ x in
      record e {
        seed_sum = sum;
        seed_count = e.seed_count + 1;
        value = if e.seed_count + 1 == e.period then some (sum ⊘ f.of_ℕ e.period) else none;
      }

  unfoldable pub smooth : F → F → F → F
  smooth alpha prev x = alpha ⊗ x ⊕ (lit 1 ⊖ alpha) ⊗ prev

  unfoldable pub ema_from : Option F → F → Ema F → Ema F
  ema_from none x e = seed_ema x e
  ema_from (some prev) x e = record e { value = some (smooth e.alpha prev x) }

  unfoldable pub next_ema : F → Ema F → Ema F × Option F
  next_ema x e = let next = ema_from e.value x e in (next, next.value)

  unfoldable pub compute_from : List F → Ema F → Option F → Option F
  compute_from [] e last = last
  compute_from (x ∷ xs) e last = let (e', value) = next_ema x e in compute_from xs e' value

  -- `Ema::compute`.
  unfoldable pub compute_ema : List F → ℕ → Option F
  compute_ema values period = compute_from values (new_ema period) none

  -- The reference: the mean of the first `period` values, then each later value smoothed in.
  abbrev pub smooth_all : F → F → List F → F
  smooth_all alpha prev [] = prev
  smooth_all alpha prev (x ∷ xs) = smooth_all alpha (smooth alpha prev x) xs

  abbrev pub reference : F → ℕ → List F → Option F
  reference alpha period values =
      if ltb (length values) period
      then none
      else some (smooth_all alpha (sum (take period values) ⊘ f.of_ℕ period) (drop period values))

  compute_from-some :
      (xs : List F) (e : Ema F) (prev : F)
      → e.value ≡ some prev
      → compute_from xs e (some prev) ≡ some (smooth_all e.alpha prev xs)
  unfolding compute_from next_ema ema_from
  compute_from-some [] e prev h = refl
  compute_from-some (x ∷ xs) e prev h =
      rw h (compute_from-some xs (record e { value = some (smooth e.alpha prev x) }) _ refl)

  -- What is still to come of the seed.
  compute_from-none :
      (xs : List F) (k : ℕ) (e : Ema F)
      → e.value ≡ none
      → e.seed_count + suc k ≡ e.period
      → compute_from xs e none ≡ (
          if ltb (length xs) (suc k)
          then none
          else some (
              smooth_all e.alpha
                (sum_from e.seed_sum (take (suc k) xs) ⊘ f.of_ℕ e.period)
                (drop (suc k) xs)))
  unfolding compute_from next_ema ema_from seed_ema
  compute_from-none [] k e h p = ground arith
  compute_from-none (x ∷ xs) zero e h p =
      let seeded : (e.seed_count + 1 == e.period) ≡ true = ground (arith, p) in
      let enough : ltb (length (x ∷ xs)) 1 ≡ false = ground arith in
      rw (h, seeded, enough)
        (compute_from-some xs
          (record e {
            seed_sum = e.seed_sum ⊕ x;
            seed_count = e.seed_count + 1;
            value = some ((e.seed_sum ⊕ x) ⊘ f.of_ℕ e.period);
          })
          _ refl)
  compute_from-none (x ∷ xs) (suc k) e h p =
      let unseeded : (e.seed_count + 1 == e.period) ≡ false = ground (arith, p) in
      let fewer : ltb (length (x ∷ xs)) (suc (suc k)) ≡ ltb (length xs) (suc k) = ground arith in
      rw (h, unseeded, fewer)
        (compute_from-none xs k
          (record e { seed_sum = e.seed_sum ⊕ x; seed_count = e.seed_count + 1; value = none }) refl
          (omega (arith, p)))

  -- The streaming average of a list of values is the reference: nothing for fewer values than the
  -- period, else the mean of the first ones with the later ones smoothed in; the period is positive.
  pub compute_ema-reference :
      (values : List F) (k : ℕ)
      → compute_ema values (suc k) ≡ reference (new_ema (suc k)).alpha (suc k) values
  unfolding compute_ema new_ema
  compute_ema-reference values k = compute_from-none values k (new_ema (suc k)) refl (omega arith)
