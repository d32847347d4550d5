-- ===== src/Quant/Limits.antt =====
-- What bounds the answers and the memory of the engine of src/quant.rs.
use crypto_scalper.Quant.Kelly.{kelly_of-bounds}
use crypto_scalper.Prelude.{
  true, length-append, All-append, ℕ, ◌+◌, ◌*◌, ◌≤◌, String, ◌≡◌, inl, inr, false, List, [], ◌∷◌,
  ◌++◌, arith, ltb, Bool-cases, string_eq, length, All,
}
use crypto_scalper.Float.Order.{clamp_bounds}
use crypto_scalper.Quant.Types.{QuantSizingInput}
use crypto_scalper.Quant.{
  update_kalman, record_ic_observation, record_trade, record_return, QuantConfig, TradeOutcomes,
  push_pnl, QuantEngine, record_outcome, keep_last,
}
use crypto_scalper.Quant.Factors.{var_check, kalman_direction, vol_target_multiplier}
use crypto_scalper.Quant.Sizing.{kelly_of, apply_kelly, raw_multiplier, compute_sizing}
use crypto_scalper.Prelude.Dict.{All-upsert}
use crypto_scalper.Float.{clamp, ◌≤?◌, Float, ◌<?◌, ◌≼◌, dec, lit, nought, IsNumber, IsFinite}
use crypto_scalper.Float.Laws.{IsOrdered}

keep_last-le :
    {A : Type 0} (limit : ℕ) (xs : List A)
    → length xs ≤ limit + 1
    → length (keep_last limit xs) ≤ limit
unfolding keep_last
keep_last-le limit [] h = ground arith
keep_last-le limit (x ∷ xs) h = ground arith

keep_last-All :
    {A : Type 0} (P : A → Type 0) (limit : ℕ) (xs : List A) → All P xs → All P (keep_last limit xs)
unfolding keep_last
keep_last-All P limit [] ps = ground arith
keep_last-All P limit (x ∷ xs) (p, ps) = elim (Bool-cases (ltb limit (length (x ∷ xs)))) [
  | inl over ↦ rw over ps
  | inr fits ↦ rw fits ((p, ps))
]

-- The calls that change the engine.
pub data EngineCall (F : Type 0) : Type 0 where
  trade_call : F → EngineCall F
  return_call : String → F → EngineCall F
  ic_call : String → F → F → EngineCall F
  kalman_call : String → F → EngineCall F

module _ {F : Type 0} ⦃f : Float F⦄ where
  -- A history of returns is no longer than twice the window, and finite.
  abbrev pub IsHistory : QuantConfig F → List F → Type 0
  IsHistory cfg hist = (length hist ≤ cfg.vol_window * 2) × All IsFinite hist

  pub record IsLimited (e : QuantEngine F) : Type 0 where
    pub wins : length e.trade_outcomes.wins ≤ 200
    pub losses : length e.trade_outcomes.losses ≤ 200
    pub returns : All (λ (symbol, hist). IsHistory e.cfg hist) e.returns

  abbrev pub call : EngineCall F → QuantEngine F → QuantEngine F
  call (trade_call pnl) e = record_trade pnl e
  call (return_call symbol ret) e = record_return symbol ret e
  call (ic_call strategy signal_value forward_return) e =
      record_ic_observation strategy signal_value forward_return e
  call (kalman_call symbol price) e = update_kalman symbol price e

  abbrev pub calls : List (EngineCall F) → QuantEngine F → QuantEngine F
  calls [] e = e
  calls (c ∷ cs) e = calls cs (call c e)

  record_outcome-le :
      (pnl : F) (o : TradeOutcomes F)
      → length o.wins ≤ 200
      → length o.losses ≤ 200
      → (length (record_outcome pnl o).wins ≤ 200) × (length (record_outcome pnl o).losses ≤ 200)
  unfolding record_outcome push_pnl
  record_outcome-le pnl o h k = (
    keep_last-le 200 _ (ground (arith, length-append o.wins (pnl ∷ []))),
    keep_last-le 200 _ (ground (arith, length-append o.losses (f.abs pnl ∷ []))),
  )

  trade-IsLimited : (pnl : F) (e : QuantEngine F) → IsLimited e → IsLimited (record_trade pnl e)
  unfolding record_trade
  trade-IsLimited pnl e l =
      let kept = record_outcome-le pnl e.trade_outcomes l.wins l.losses in
      record { wins = kept.0; losses = kept.1; returns = l.returns }

  push-IsHistory :
      (cfg : QuantConfig F) (ret : F)
      → IsFinite ret
      → (hist : List F) → IsHistory cfg hist
      → IsHistory cfg (keep_last (cfg.vol_window * 2) (hist ++ ret ∷ []))
  push-IsHistory cfg ret n hist (h, ps) = (
    keep_last-le (cfg.vol_window * 2) (hist ++ ret ∷ [])
        (omega (arith, length-append hist (ret ∷ []))),
    keep_last-All IsFinite (cfg.vol_window * 2) (hist ++ ret ∷ [])
        (All-append IsFinite hist (ret ∷ []) ps (n, tt)),
  )

  return-IsLimited :
      (symbol : String) (ret : F) (e : QuantEngine F)
      → IsLimited e
      → IsLimited (record_return symbol ret e)
  unfolding record_return
  return-IsLimited symbol ret e l = elim (Bool-cases (f.is_finite ret)) [
    | inl fin ↦ rw fin (record {
      wins = l.wins;
      losses = l.losses;
      returns =
          All-upsert (IsHistory e.cfg) [] symbol _ e.returns (omega arith, tt)
            (push-IsHistory e.cfg ret fin) l.returns;
    })
    | inr inf ↦ rw inf l
  ]

  call-IsLimited : (c : EngineCall F) (e : QuantEngine F) → IsLimited e → IsLimited (call c e)
  unfolding record_ic_observation update_kalman
  call-IsLimited (trade_call pnl) e l = trade-IsLimited pnl e l
  call-IsLimited (return_call symbol ret) e l = return-IsLimited symbol ret e l
  call-IsLimited (ic_call strategy signal_value forward_return) e l = record {
    wins = l.wins;
    losses = l.losses;
    returns = l.returns;
  }
  call-IsLimited (kalman_call symbol price) e l = record {
    wins = l.wins;
    losses = l.losses;
    returns = l.returns;
  }

  -- Over any run of calls the engine keeps at most 200 wins and 200 losses, and for each symbol at most
  -- twice the window of returns, all of them finite.
  pub calls-IsLimited :
      (cs : List (EngineCall F)) (e : QuantEngine F) → IsLimited e → IsLimited (calls cs e)
  calls-IsLimited [] e l = l
  calls-IsLimited (c ∷ cs) e l = calls-IsLimited cs (call c e) (call-IsLimited c e l)

  -- A record of trades that gives no positive Kelly fraction sizes like no record at all: two engines
  -- that differ in their outcomes only, and whose Kelly fractions are not above zero, answer with the
  -- same multiplier and the same verdict on the value at risk, however many of the trades were lost.
  pub losing_record_ignored :
      (e : QuantEngine F) (o : TradeOutcomes F) (input : QuantSizingInput F)
      → (nought <? kelly_of e) ≡ false
      → (nought <? kelly_of (record e { trade_outcomes = o })) ≡ false
      → ((compute_sizing (record e { trade_outcomes = o }) input).size_multiplier
          ≡ (compute_sizing e input).size_multiplier)
        × ((compute_sizing (record e { trade_outcomes = o }) input).var_rejected
            ≡ (compute_sizing e input).var_rejected)
  unfolding compute_sizing raw_multiplier apply_kelly vol_target_multiplier kalman_direction
      var_check
  losing_record_ignored e o input h k = ground arith

module _ {F : Type 0} ⦃f : Float F⦄ (laws : IsOrdered F) where
  clamp_nan : (x lo hi : F) → (x ≤? x) ≡ false → clamp x lo hi ≡ x
  clamp_nan x lo hi n = ground (
    arith,
    laws.le_of_lt x lo,
    laws.le_of_lt hi x,
    laws.numbers_of_le x lo,
    laws.numbers_of_le hi x,
  )

  -- The three kinds of answer to a sizing question.
  pub data IsSized (e : QuantEngine F) (input : QuantSizingInput F) : Type 0 where
    neutral :
        e.cfg.enabled ≡ false
        → (compute_sizing e input).size_multiplier ≡ lit 1
        → (compute_sizing e input).var_rejected ≡ false
        → (compute_sizing e input).kelly_fraction ≡ nought
        → IsSized e input
    nan_passed :
        e.cfg.enabled ≡ true
        → (raw_multiplier e input ≤? raw_multiplier e input) ≡ false
        → (compute_sizing e input).size_multiplier ≡ raw_multiplier e input
        → nought ≼ (compute_sizing e input).kelly_fraction
        → (compute_sizing e input).kelly_fraction ≼ e.cfg.kelly_cap
        → IsSized e input
    within :
        e.cfg.enabled ≡ true
        → IsNumber (raw_multiplier e input)
        → dec 1 1 ≼ (compute_sizing e input).size_multiplier
        → (compute_sizing e input).size_multiplier ≼ lit 3
        → nought ≼ (compute_sizing e input).kelly_fraction
        → (compute_sizing e input).kelly_fraction ≼ e.cfg.kelly_cap
        → IsSized e input

  enabled-IsSized :
      (e : QuantEngine F) (input : QuantSizingInput F)
      → e.cfg.enabled ≡ true
      → nought ≼ e.cfg.kelly_cap
      → IsSized e input
  unfolding compute_sizing
  enabled-IsSized e input on h =
      let raw = raw_multiplier e input in
      let kelly = kelly_of-bounds laws e h in
      elim (Bool-cases (raw ≤? raw)) [
        | inl n ↦
            let b =
              clamp_bounds laws raw (dec 1 1) (lit 3) n (laws.dec_mono 1 1 3 0 (ground arith)) in
            within on n (ground (arith, b)) (ground (arith, b)) (ground (arith, kelly))
              (ground (arith, kelly))
        | inr n ↦
            nan_passed on n (ground (arith, clamp_nan raw (dec 1 1) (lit 3) n))
              (ground (arith, kelly)) (ground (arith, kelly))
      ]

  -- Where the Kelly cap is not negative, an engine answers in one of three ways. Disabled, it answers 1,
  -- rejects nothing and reports no Kelly fraction. Enabled, with a factor that is a number, its
  -- multiplier lies between 0.1 and 3. Enabled, with a factor that is NaN, its multiplier is that NaN:
  -- the clamp lets it through. Enabled, it reports a Kelly fraction between zero and the cap.
  pub compute_sizing_bounds :
      (e : QuantEngine F) (input : QuantSizingInput F) → nought ≼ e.cfg.kelly_cap → IsSized e input
  unfolding compute_sizing
  compute_sizing_bounds e input h = elim (Bool-cases e.cfg.enabled) [
    | inl on ↦ enabled-IsSized e input on h
    | inr off ↦ neutral off (ground arith) (ground arith) (ground arith)
  ]
