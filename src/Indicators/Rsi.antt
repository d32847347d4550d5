-- ===== src/Indicators/Rsi.antt =====
-- src/indicators/rsi.rs: the relative strength index.
use crypto_scalper.Prelude.{
  ℕ, ◌+◌, ◌&&◌, Option, none, some, List, [], ◌∷◌, ◌==◌, if◌then◌else◌, string_eq,
}
use crypto_scalper.Float.{Float, ◌⊕◌, ◌⊖◌, ◌⊗◌, ◌⊘◌, ◌≤?◌, lit, nought}

pub record Rsi (F : Type 0) : Type 0 where
  pub period : ℕ
  pub prev_close : Option F
  pub avg_gain : Option F
  pub avg_loss : Option F
  pub seed_gains : F
  pub seed_losses : F
  pub seed_count : ℕ

module _ {F : Type 0} ⦃f : Float F⦄ where
  unfoldable pub new_rsi : ℕ → Rsi F
  new_rsi period = record {
    period = period;
    prev_close = none;
    avg_gain = none;
    avg_loss = none;
    seed_gains = nought;
    seed_losses = nought;
    seed_count = 0;
  }

  -- `compute_rsi` of the averages; `==` is `<=` both ways.
  unfoldable pub rsi_of : F → F → F
  rsi_of g l = if l ≤? nought && nought ≤? l then lit 100 else lit 100 ⊖ lit 100 ⊘ (lit 1 ⊕ g ⊘ l)

  unfoldable pub seed_rsi : F → F → Rsi F → Rsi F × Option F
  seed_rsi gain loss r =
      let gains = r.seed_gains ⊕ gain in
      let losses = r.seed_losses ⊕ loss in
      let p = f.of_ℕ r.period in
      let seeded = record r {
        seed_gains = gains;
        seed_losses = losses;
        seed_count = r.seed_count + 1;
      } in
      if r.seed_count + 1 == r.period
      then (
        record seeded { avg_gain = some (gains ⊘ p); avg_loss = some (losses ⊘ p) },
        some (rsi_of (gains ⊘ p) (losses ⊘ p)),
      )
      else (seeded, none)

  -- The averages are set together; unset ones would stop the program.
  unfoldable pub rsi_from : Option F → Option F → F → F → Rsi F → Rsi F × Option F
  rsi_from (some avg_gain) (some avg_loss) gain loss r =
      let p = f.of_ℕ r.period in
      let g = (avg_gain ⊗ (p ⊖ lit 1) ⊕ gain) ⊘ p in
      let l = (avg_loss ⊗ (p ⊖ lit 1) ⊕ loss) ⊘ p in
      (record r { avg_gain = some g; avg_loss = some l }, some (rsi_of g l))
  rsi_from _ _ gain loss r = seed_rsi gain loss r

  unfoldable pub rsi_after : Option F → F → Rsi F → Rsi F × Option F
  rsi_after none close r = (record r { prev_close = some close }, none)
  rsi_after (some prev) close r =
      let change = close ⊖ prev in
      rsi_from r.avg_gain r.avg_loss (f.max change nought) (f.max (f.neg change) nought)
        (record r { prev_close = some close })

  unfoldable pub next_rsi : F → Rsi F → Rsi F × Option F
  next_rsi close r = rsi_after r.prev_close close r

  unfoldable pub or_last : Option F → Option F → Option F
  or_last none last = last
  or_last (some x) last = some x

  unfoldable pub compute_rsi_from : List F → Rsi F → Option F → Option F
  compute_rsi_from [] r last = last
  compute_rsi_from (x ∷ xs) r last =
      let (r', value) = next_rsi x r in compute_rsi_from xs r' (or_last value last)

  -- `Rsi::compute`.
  unfoldable pub compute_rsi : List F → ℕ → Option F
  compute_rsi values period = compute_rsi_from values (new_rsi period) none
