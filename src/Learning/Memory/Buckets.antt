-- ===== src/Learning/Memory/Buckets.antt =====
-- Each bucket of src/learning/memory.rs holds the statistics of its own trades.
use crypto_scalper.Learning.Memory.Calibration.{calibrated, calibrate-calibrated}
use crypto_scalper.Learning.Memory.Tally.{
  IsTally, stats_of-IsTally, pnl_sum, stats_of, wrapped_count,
}
use crypto_scalper.Time.{Time}
use crypto_scalper.Learning.Memory.{
  calibrate, is_within_hour, default_memory, PerformanceMemory, finalize_all, add_trade, build,
  add_trades, finalize, update, StrategyStats, default_stats, ClosedTrade,
}
use crypto_scalper.Prelude.{
  arith, map, ℕ_eq, ℕ, reverse-cons, ap, ◌++◌, String, reverse, ◌≡◌, refl, ◌∙◌, inl, inr, Option,
  none, some, List, [], ◌∷◌, Bool-cases, Eq, string_eq, filter,
}
use mathlib.Core.Option
use crypto_scalper.Prelude.Dict.{
  lookup-map_values, pair_eq, map_values, upsert, lookup-upsert, Dict, lookup,
}
use crypto_scalper.Float.{Float}

module _ {F T : Type 0} ⦃f : Float F⦄ where
  -- The entry of a bucket: absent where no trade belongs to it.
  abbrev pub entry_of_trades : List (ClosedTrade F T) → Option (StrategyStats F)
  entry_of_trades [] = none
  entry_of_trades (x ∷ xs) = some (stats_of (x ∷ xs))

  abbrev pub finished : List (ClosedTrade F T) → Option (StrategyStats F)
  finished xs = Option.map finalize (entry_of_trades xs)

  get_or-entry :
      (xs : List (ClosedTrade F T)) → Option.get_or (entry_of_trades xs) default_stats ≡ stats_of xs
  get_or-entry [] = refl
  get_or-entry (x ∷ xs) = refl

  module _ {K : Type 0} ⦃e : Eq K⦄ (key : ClosedTrade F T → K) where
    abbrev bucket : List (ClosedTrade F T) → Dict K (StrategyStats F)
    bucket [] = []
    bucket (x ∷ xs) = upsert default_stats (key x) (update x) (bucket xs)

    lookup-bucket :
        (k : K) (xs : List (ClosedTrade F T))
        → lookup k (bucket xs) ≡ entry_of_trades (filter (λ x. e.beq (key x) k) xs)
    unfolding lookup
    lookup-bucket k [] = refl
    lookup-bucket k (x ∷ xs) = elim (Bool-cases (e.beq (key x) k)) [
      | inl same ↦
          lookup-upsert default_stats (key x) k (update x) (bucket xs)
          ∙ (rw (same, (e.beq_iff (key x) k).0 same, lookup-bucket k xs, get_or-entry) refl)
      | inr other ↦
          lookup-upsert default_stats (key x) k (update x) (bucket xs)
          ∙ (rw (other, lookup-bucket k xs) refl)
    ]

module _ {F T : Type 0} ⦃f : Float F⦄ ⦃t : Time T⦄ (now : T) where
  -- The memory of trades, the newest first.
  abbrev memory_of : List (ClosedTrade F T) → PerformanceMemory F
  memory_of [] = default_memory
  memory_of (x ∷ xs) = add_trade now x (memory_of xs)

  add_trades-append :
      (xs : List (ClosedTrade F T)) (x : ClosedTrade F T) (mem : PerformanceMemory F)
      → add_trades now (xs ++ x ∷ []) mem ≡ add_trade now x (add_trades now xs mem)
  unfolding add_trades
  add_trades-append [] x mem = refl
  add_trades-append (y ∷ xs) x mem = add_trades-append xs x (add_trade now y mem)

  add_trades-reverse :
      (xs : List (ClosedTrade F T)) → add_trades now (reverse xs) default_memory ≡ memory_of xs
  unfolding add_trades
  add_trades-reverse [] = refl
  add_trades-reverse (x ∷ xs) =
      ap (λ ys. add_trades now ys default_memory) (reverse-cons x xs)
      ∙ (add_trades-append (reverse xs) x default_memory
          ∙ ap (add_trade now x) (add_trades-reverse xs))

  module _ {K : Type 0} ⦃e : Eq K⦄ (key : ClosedTrade F T → K)
      (axis : PerformanceMemory F → Dict K (StrategyStats F)) where
    axis-memory_of :
        axis default_memory ≡ []
        → ((x : ClosedTrade F T) (mem : PerformanceMemory F)
            → axis (add_trade now x mem) ≡ upsert default_stats (key x) (update x) (axis mem))
        → (xs : List (ClosedTrade F T)) → axis (memory_of xs) ≡ bucket key xs
    axis-memory_of z s [] = z
    axis-memory_of z s (x ∷ xs) =
        s x (memory_of xs) ∙ ap (upsert default_stats (key x) (update x)) (axis-memory_of z s xs)

    lookup-axis :
        axis default_memory ≡ []
        → ((x : ClosedTrade F T) (mem : PerformanceMemory F)
            → axis (add_trade now x mem) ≡ upsert default_stats (key x) (update x) (axis mem))
        → (k : K) (xs : List (ClosedTrade F T))
        → lookup k (map_values finalize (axis (memory_of xs)))
          ≡ finished (filter (λ x. e.beq (key x) k) xs)
    lookup-axis z s k xs =
        lookup-map_values k finalize (axis (memory_of xs))
        ∙ ap (Option.map finalize) (ap (lookup k) (axis-memory_of z s xs) ∙ lookup-bucket key k xs)

  overall-memory_of : (xs : List (ClosedTrade F T)) → (memory_of xs).overall ≡ stats_of xs
  unfolding add_trade default_memory
  overall-memory_of [] = refl
  overall-memory_of (x ∷ xs) = ap (update x) (overall-memory_of xs)

  -- The ten buckets of trades by the confidence that the model reported.
  llm_calibration-memory_of :
      (xs : List (ClosedTrade F T)) → (memory_of xs).llm_calibration ≡ calibrated xs
  unfolding add_trade default_memory
  llm_calibration-memory_of [] = refl
  llm_calibration-memory_of (x ∷ xs) =
      ap (calibrate x x.llm_confidence) (llm_calibration-memory_of xs)
      ∙ calibrate-calibrated x x.llm_confidence refl xs

  recent-memory_of :
      (xs : List (ClosedTrade F T))
      → let recent = filter (is_within_hour now) xs in
        ((memory_of xs).recent_hour_pnl ≡ pnl_sum recent)
        × ((memory_of xs).recent_hour_trades ≡ wrapped_count recent)
  unfolding add_trade default_memory
  recent-memory_of [] = (refl, refl)
  recent-memory_of (x ∷ xs) = elim (Bool-cases (is_within_hour now x)) [
    | inl within ↦ ground (arith, recent-memory_of xs, within)
    | inr past ↦ ground (arith, recent-memory_of xs, past)
  ]

  -- What `build` makes of trades, the newest first: overall the statistics of all of them, and under
  -- each strategy, strategy and regime, strategy and symbol, symbol, and hour of the exit, the
  -- statistics of exactly the trades that carry it, in their order, or no entry where there is none;
  -- for each tenth of the model's confidence those of the trades that reported it, the last one all
  -- from 90 on; and of the trades of the last hour the sum and the number.
  pub record IsBucketed (xs : List (ClosedTrade F T)) (mem : PerformanceMemory F) : Type 0 where
    pub tallied : (ys : List (ClosedTrade F T)) → IsTally ys (finalize (stats_of ys))
    pub all : mem.overall ≡ finalize (stats_of xs)
    pub of_strategy :
        (s : String)
        → lookup s mem.by_strategy ≡ finished (filter (λ x. string_eq.beq x.strategy s) xs)
    pub of_regime :
        (k : String × String)
        → lookup k mem.by_strategy_regime
          ≡ finished (filter (λ x. pair_eq.beq (x.strategy, x.regime) k) xs)
    pub of_pair :
        (k : String × String)
        → lookup k mem.by_strategy_symbol
          ≡ finished (filter (λ x. pair_eq.beq (x.strategy, x.symbol) k) xs)
    pub of_symbol :
        (s : String) → lookup s mem.by_symbol ≡ finished (filter (λ x. string_eq.beq x.symbol s) xs)
    pub of_hour :
        (h : ℕ)
        → lookup h mem.by_hour_utc ≡ finished (filter (λ x. ℕ_eq.beq (t.hour x.exit_time) h) xs)
    pub of_confidence : mem.llm_calibration ≡ map finalize (calibrated xs)
    pub recent_pnl : mem.recent_hour_pnl ≡ pnl_sum (filter (is_within_hour now) xs)
    pub recent_trades : mem.recent_hour_trades ≡ wrapped_count (filter (is_within_hour now) xs)

  finalize_all-IsBucketed :
      (xs : List (ClosedTrade F T)) → IsBucketed xs (finalize_all (memory_of xs))
  unfolding finalize_all add_trade default_memory
  finalize_all-IsBucketed xs = record {
    tallied = stats_of-IsTally;
    all = ap finalize (overall-memory_of xs);
    of_strategy = λ s. lookup-axis (λ x. x.strategy) (λ m. m.by_strategy) refl (λ x m. refl) s xs;
    of_regime = λ k.
        lookup-axis (λ x. (x.strategy, x.regime)) (λ m. m.by_strategy_regime) refl (λ x m. refl) k
          xs;
    of_pair = λ k.
        lookup-axis (λ x. (x.strategy, x.symbol)) (λ m. m.by_strategy_symbol) refl (λ x m. refl) k
          xs;
    of_symbol = λ s. lookup-axis (λ x. x.symbol) (λ m. m.by_symbol) refl (λ x m. refl) s xs;
    of_hour =
        λ h. lookup-axis (λ x. t.hour x.exit_time) (λ m. m.by_hour_utc) refl (λ x m. refl) h xs;
    of_confidence = ap (map finalize) (llm_calibration-memory_of xs);
    recent_pnl = (recent-memory_of xs).0;
    recent_trades = (recent-memory_of xs).1;
  }

  -- `build` sorts the trades into independent buckets: overall, and under each strategy, strategy
  -- and regime, strategy and symbol, symbol, and hour of the exit, stand the statistics of exactly
  -- the trades that carry the key, oldest first, and no entry stands under a key that no trade
  -- carries. Each tenth of the model's confidence holds the trades that reported it, the last one
  -- all from 90 on, and the recent sum and number are those of the trades of the last hour. The
  -- statistics of trades give their number, their wins and their losses, and the sum, the two parts
  -- and the averages of their profits.
  pub build-IsBucketed : (xs : List (ClosedTrade F T)) → IsBucketed xs (build now xs)
  unfolding build
  build-IsBucketed xs = rw (add_trades-reverse xs) (finalize_all-IsBucketed xs)
