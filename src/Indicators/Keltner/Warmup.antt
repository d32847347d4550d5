-- ===== src/Indicators/Keltner/Warmup.antt =====
-- When the channel of src/indicators/keltner.rs begins to answer.
use crypto_scalper.Indicators.Vwap.{typical_price}
use crypto_scalper.Prelude.{
  ◌*◌, length, leb, false, refl, ap, ◌∙◌, some, ℕ, zero, suc, ◌+◌, ◌≡◌, true, Option, none, List,
  [], ◌∷◌, arith, string_eq, is_some,
}
use crypto_scalper.Indicators.Atr.{new_atr, Atr, atr_from, next_atr}
use crypto_scalper.Indicators.Ema.{new_ema, Ema, seed_ema, ema_from, next_ema}
use crypto_scalper.Indicators.Keltner.{
  channel, new_keltner, keltner_after, next_keltner, KeltnerBand, Keltner,
}
use crypto_scalper.Float.{Float}
use crypto_scalper.Data.Types.{Candle}

module _ {F : Type 0} ⦃f : Float F⦄ where
  -- Unseeded with so many values to come, or seeded.
  abbrev IsSeeding : ℕ → Option F → ℕ → ℕ → Type 0
  IsSeeding zero value count period = is_some value ≡ true
  IsSeeding (suc i) value count period = (value ≡ none) × (count + suc i ≡ period)

  abbrev IsEmaSeeding : ℕ → Ema F → Type 0
  IsEmaSeeding i e = IsSeeding i e.value e.seed_count e.period

  abbrev IsAtrSeeding : ℕ → Atr F → Type 0
  IsAtrSeeding i a = IsSeeding i a.value a.seed_count a.period

  ema-IsSeeding :
      (i : ℕ) (x : F) (e : Ema F) → IsEmaSeeding (suc i) e → IsEmaSeeding i (next_ema x e).0
  unfolding next_ema ema_from seed_ema
  ema-IsSeeding zero x e (h, p) = rw h (ground (arith, p))
  ema-IsSeeding (suc i) x e (h, p) = rw h (ground (arith, p))

  ema-IsSeeded : (x : F) (e : Ema F) → IsEmaSeeding zero e → IsEmaSeeding zero (next_ema x e).0
  unfolding next_ema ema_from
  ema-IsSeeded x e h = ground (arith, h)

module _ {F : Type 0} ⦃f : Float F⦄ where
  ema-answer : (x : F) (e : Ema F) → (next_ema x e).1 ≡ (next_ema x e).0.value
  unfolding next_ema
  ema-answer x e = refl

  channel-some : (k mid : F) (o : Option F) → is_some (channel k mid o) ≡ is_some o
  unfolding channel
  channel-some k mid none = refl
  channel-some k mid (some x) = refl

  -- The average and the range of a channel, with so many values to come.
  abbrev IsWarming : ℕ → ℕ → Keltner F → Type 0
  IsWarming i j n = IsEmaSeeding i n.ema × IsAtrSeeding j n.atr

  none_of_unset : (o : Option (KeltnerBand F)) → is_some o ≡ false → o ≡ none
  none_of_unset none h = refl
  none_of_unset (some b) h = absurd (ground arith)

module _ {F T : Type 0} ⦃f : Float F⦄ where
  -- The last answer over a list of candles.
  abbrev pub last_band :
      List (Candle F T) → Keltner F → Option (KeltnerBand F) → Option (KeltnerBand F)
  last_band [] n last = last
  last_band (c ∷ cs) n last = let (n', band) = next_keltner c n in last_band cs n' band

  atr-IsSeeding :
      (i : ℕ) (c : Candle F T) (a : Atr F)
      → IsAtrSeeding (suc i) a
      → IsAtrSeeding i (next_atr c a).0
  unfolding next_atr atr_from
  atr-IsSeeding zero c a (h, p) = rw h (ground (arith, p))
  atr-IsSeeding (suc i) c a (h, p) = rw h (ground (arith, p))

  atr-IsSeeded :
      (c : Candle F T) (a : Atr F) → IsAtrSeeding zero a → IsAtrSeeding zero (next_atr c a).0
  unfolding next_atr atr_from
  atr-IsSeeded c a h = ground (arith, h)

  atr-answer : (c : Candle F T) (a : Atr F) → (next_atr c a).1 ≡ (next_atr c a).0.value
  unfolding next_atr
  atr-answer c a = refl

  -- While the average does not answer, the range sees no candle.
  after-cold :
      (c : Candle F T) (e : Ema F) (o : Option F) (n : Keltner F)
      → o ≡ none
      → keltner_after c (e, o) n ≡ (record n { ema = e }, none)
  unfolding keltner_after
  after-cold c e none n h = refl
  after-cold c e (some mid) n h = absurd (ground arith)

  -- Once it answers, the channel answers as the range does.
  after-warm :
      (c : Candle F T) (e : Ema F) (o : Option F) (n : Keltner F)
      → is_some o ≡ true
      → ((keltner_after c (e, o) n).0 ≡ record n { ema = e; atr = (next_atr c n.atr).0 })
        × (is_some (keltner_after c (e, o) n).1 ≡ is_some (next_atr c n.atr).0.value)
  unfolding keltner_after
  after-warm c e none n h = absurd (ground arith)
  after-warm c e (some mid) n h =
      (refl, channel-some n.k mid (next_atr c n.atr).1 ∙ ap is_some (atr-answer c n.atr))

  step-cold :
      (i j : ℕ) (c : Candle F T) (n : Keltner F)
      → IsWarming (suc (suc i)) j n
      → ((next_keltner c n).1 ≡ none) × IsWarming (suc i) j (next_keltner c n).0
  unfolding next_keltner
  step-cold i j c n (e, a) =
      let e' = ema-IsSeeding (suc i) (typical_price c) n.ema e in
      rw
        (after-cold c (next_ema (typical_price c) n.ema).0 (next_ema (typical_price c) n.ema).1 n
          (ema-answer (typical_price c) n.ema ∙ e'.0))
        ((refl, (e', a)))

  step-warm :
      (j : ℕ) (c : Candle F T) (n : Keltner F)
      → IsEmaSeeding zero (next_ema (typical_price c) n.ema).0
      → IsAtrSeeding j (next_atr c n.atr).0
      → (is_some (next_keltner c n).1 ≡ is_some (next_atr c n.atr).0.value)
        × IsWarming zero j (next_keltner c n).0
  unfolding next_keltner
  step-warm j c n e a =
      let w =
        after-warm c (next_ema (typical_price c) n.ema).0 (next_ema (typical_price c) n.ema).1 n
          (ap is_some (ema-answer (typical_price c) n.ema) ∙ e) in
      (w.1, rw w.0 ((e, a)))

  answers_on :
      (cs : List (Candle F T)) (n : Keltner F) (last : Option (KeltnerBand F))
      → IsWarming zero zero n
      → is_some last ≡ true
      → is_some (last_band cs n last) ≡ true
  answers_on [] n last w h = h
  answers_on (c ∷ cs) n last (e, a) h =
      let s =
        step-warm zero c n (ema-IsSeeded (typical_price c) n.ema e) (atr-IsSeeded c n.atr a) in
      answers_on cs _ _ s.1 (s.0 ∙ atr-IsSeeded c n.atr a)

  answers_after :
      (j : ℕ) (cs : List (Candle F T)) (n : Keltner F)
      → IsWarming zero (suc j) n
      → is_some (last_band cs n none) ≡ leb (suc j) (length cs)
  answers_after j [] n w = ground arith
  answers_after zero (c ∷ cs) n (e, a) =
      let a' = atr-IsSeeding zero c n.atr a in
      let s = step-warm zero c n (ema-IsSeeded (typical_price c) n.ema e) a' in
      answers_on cs _ _ s.1 (s.0 ∙ a') ∙ (ground arith)
  answers_after (suc j) (c ∷ cs) n (e, a) =
      let a' = atr-IsSeeding (suc j) c n.atr a in
      let s = step-warm (suc j) c n (ema-IsSeeded (typical_price c) n.ema e) a' in
      rw (none_of_unset (next_keltner c n).1 (s.0 ∙ ap is_some a'.0))
        (answers_after j cs _ s.1 ∙ (ground arith))

  answers_from :
      (i j : ℕ) (cs : List (Candle F T)) (n : Keltner F)
      → IsWarming (suc i) (suc j) n
      → is_some (last_band cs n none) ≡ leb (suc i + j) (length cs)
  answers_from i j [] n w = ground arith
  answers_from (suc i) j (c ∷ cs) n w =
      let s = step-cold i (suc j) c n w in rw s.0 (answers_from i j cs _ s.1 ∙ (ground arith))
  answers_from zero zero (c ∷ cs) n (e, a) =
      let a' = atr-IsSeeding zero c n.atr a in
      let s = step-warm zero c n (ema-IsSeeding zero (typical_price c) n.ema e) a' in
      answers_on cs _ _ s.1 (s.0 ∙ a') ∙ (ground arith)
  answers_from zero (suc j) (c ∷ cs) n (e, a) =
      let a' = atr-IsSeeding (suc j) c n.atr a in
      let s = step-warm (suc j) c n (ema-IsSeeding zero (typical_price c) n.ema e) a' in
      rw (none_of_unset (next_keltner c n).1 (s.0 ∙ ap is_some a'.0))
        (answers_after j cs _ s.1 ∙ (ground arith))

  -- A channel of period j + 1 answers from the candle 2j + 1 on and not before, about twice its period:
  -- the range sees no candle until the average is seeded.
  pub warmup_iff :
      (j : ℕ) (k : F) (cs : List (Candle F T))
      → is_some (last_band cs (new_keltner (suc j) k) none) ≡ leb (2 * j + 1) (length cs)
  unfolding new_keltner new_ema new_atr
  warmup_iff j k cs =
      answers_from j j cs (new_keltner (suc j) k) ((refl, omega arith), (refl, omega arith))
      ∙ (ground arith)
