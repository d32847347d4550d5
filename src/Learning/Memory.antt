-- ===== src/Learning/Memory.antt =====
-- src/learning/memory.rs: statistics of the closed trades, in buckets.
pub mod Buckets
pub mod Calibration
pub mod Streak
pub mod Tally
use crypto_scalper.Prelude.{
  ℕ_eq, reverse, ℕ, zero, suc, ◌+◌, ◌/◌, ◌%◌, ◌^◌, String, Bool, true, false, not, Option, none,
  some, List, [], ◌∷◌, ◌++◌, map, ltb, ◌==◌, if◌then◌else◌, string_eq,
}
use crypto_scalper.Prelude.Dict.{pair_eq, map_values, upsert, Dict}
use crypto_scalper.Prelude.Int.{ℤ, pos, negsuc, ◌+ℤ◌}
use crypto_scalper.Float.{Float, ◌⊕◌, ◌⊘◌, ◌<?◌, ◌≤?◌, nought}
use crypto_scalper.Time.{Time}

pub record ClosedTrade (F T : Type 0) : Type 0 where
  pub symbol : String
  pub direction : String
  pub strategy : String
  pub regime : String
  pub entry_time : T
  pub exit_time : T
  pub pnl_usd : F
  pub pnl_pct : F
  pub ta_confidence : Option ℕ  -- u8
  pub llm_confidence : Option ℕ  -- u8

-- The counters are `u32`.
pub record StrategyStats (F : Type 0) : Type 0 where
  pub trades : ℕ
  pub wins : ℕ
  pub losses : ℕ
  pub net_pnl_usd : F
  pub gross_profit : F
  pub gross_loss : F
  pub avg_pnl_usd : F
  pub avg_pnl_pct : F
  pub recent_streak : ℤ
  pub last_5_outcomes : List Bool

unfoldable pub incr_u32 : ℕ → ℕ
incr_u32 n = (n + 1) % 2 ^ 32

-- The outcomes after one more, of which five are kept.
unfoldable pub push_outcome : Bool → List Bool → List Bool
push_outcome w (a ∷ b ∷ c ∷ d ∷ e ∷ []) = b ∷ c ∷ d ∷ e ∷ w ∷ []
push_outcome w ws = ws ++ w ∷ []

unfoldable pub step_of : Bool → ℤ
step_of true = pos 1
step_of false = negsuc 0

unfoldable pub same_outcome : Bool → Bool → Bool
same_outcome true w = w
same_outcome false w = not w

-- The loop over the outcomes, the last one first, once `last` is set.
unfoldable pub streak_from : Bool → ℤ → List Bool → ℤ
streak_from prev streak [] = streak
streak_from prev streak (w ∷ ws) =
    let rest = streak_from prev (streak +ℤ step_of w) ws in
    if same_outcome prev w then rest else streak

unfoldable pub streak_of : List Bool → ℤ
streak_of [] = pos 0
streak_of (w ∷ ws) = streak_from w (step_of w) ws

module _ {F : Type 0} ⦃f : Float F⦄ where
  unfoldable pub default_stats : StrategyStats F
  default_stats = record {
    trades = 0;
    wins = 0;
    losses = 0;
    net_pnl_usd = nought;
    gross_profit = nought;
    gross_loss = nought;
    avg_pnl_usd = nought;
    avg_pnl_pct = nought;
    recent_streak = pos 0;
    last_5_outcomes = [];
  }

  unfoldable pub win_rate : StrategyStats F → F
  win_rate s = if s.trades == 0 then nought else f.of_ℕ s.wins ⊘ f.of_ℕ s.trades

  unfoldable pub profit_factor : StrategyStats F → F
  profit_factor s =
      if s.gross_loss ≤? nought
      then if nought <? s.gross_profit then f.infinity else nought
      else s.gross_profit ⊘ s.gross_loss

  unfoldable pub average_out : StrategyStats F → StrategyStats F
  average_out s =
      if ltb 0 s.trades
      then record s {
        avg_pnl_usd = s.net_pnl_usd ⊘ f.of_ℕ s.trades;
        avg_pnl_pct = s.avg_pnl_pct ⊘ f.of_ℕ s.trades;
      }
      else s

  unfoldable pub finalize : StrategyStats F → StrategyStats F
  finalize s = record (average_out s) { recent_streak = streak_of (reverse s.last_5_outcomes) }

module _ {F T : Type 0} ⦃f : Float F⦄ where
  unfoldable pub is_win : ClosedTrade F T → Bool
  is_win t = nought <? t.pnl_usd

  unfoldable pub count_outcome : ClosedTrade F T → StrategyStats F → StrategyStats F
  count_outcome t s =
      if is_win t
      then record s { wins = incr_u32 s.wins; gross_profit = s.gross_profit ⊕ t.pnl_usd }
      else record s { losses = incr_u32 s.losses; gross_loss = s.gross_loss ⊕ f.abs t.pnl_usd }

  unfoldable pub update : ClosedTrade F T → StrategyStats F → StrategyStats F
  update t s =
      let counted = count_outcome t s in
      record counted {
        trades = incr_u32 s.trades;
        net_pnl_usd = s.net_pnl_usd ⊕ t.pnl_usd;
        avg_pnl_pct = s.avg_pnl_pct ⊕ t.pnl_pct;
        last_5_outcomes = push_outcome (is_win t) s.last_5_outcomes;
      }

pub record PerformanceMemory (F : Type 0) : Type 0 where
  pub overall : StrategyStats F
  pub by_strategy : Dict String (StrategyStats F)
  pub by_strategy_regime : Dict (String × String) (StrategyStats F)
  pub by_strategy_symbol : Dict (String × String) (StrategyStats F)
  pub by_symbol : Dict String (StrategyStats F)
  pub by_hour_utc : Dict ℕ (StrategyStats F)
  pub llm_calibration : List (StrategyStats F)  -- ten buckets
  pub recent_hour_pnl : F
  pub recent_hour_trades : ℕ  -- u32

-- `f` on the element at an index.
unfoldable pub modify_at {ℓ} : {A : Type ℓ} → ℕ → (A → A) → List A → List A
modify_at i f [] = []
modify_at zero f (x ∷ xs) = f x ∷ xs
modify_at (suc i) f (x ∷ xs) = x ∷ modify_at i f xs

module _ {F : Type 0} ⦃f : Float F⦄ where
  unfoldable pub default_memory : PerformanceMemory F
  default_memory = record {
    overall = default_stats;
    by_strategy = [];
    by_strategy_regime = [];
    by_strategy_symbol = [];
    by_symbol = [];
    by_hour_utc = [];
    llm_calibration =
        default_stats ∷ default_stats ∷ default_stats ∷ default_stats ∷ default_stats
        ∷ default_stats ∷ default_stats ∷ default_stats ∷ default_stats ∷ default_stats ∷ [];
    recent_hour_pnl = nought;
    recent_hour_trades = 0;
  }

module _ {F T : Type 0} ⦃f : Float F⦄ where
  -- The bucket of a reported confidence: `(c / 10).min(9)`.
  unfoldable pub calibrate :
      ClosedTrade F T → Option ℕ → List (StrategyStats F) → List (StrategyStats F)
  calibrate t none buckets = buckets
  calibrate t (some c) buckets = modify_at (if ltb (c / 10) 9 then c / 10 else 9) (update t) buckets

module _ {F T : Type 0} ⦃f : Float F⦄ ⦃t : Time T⦄ where
  -- The trade closed within the hour before `now`.
  unfoldable pub is_within_hour : T → ClosedTrade F T → Bool
  is_within_hour now x = not (t.elapsed_gt_hours now x.exit_time 1)

  unfoldable pub add_trade : T → ClosedTrade F T → PerformanceMemory F → PerformanceMemory F
  add_trade now x mem =
      let within = is_within_hour now x in
      record {
        overall = update x mem.overall;
        by_strategy = upsert default_stats x.strategy (update x) mem.by_strategy;
        by_strategy_regime =
            upsert default_stats (x.strategy, x.regime) (update x) mem.by_strategy_regime;
        by_strategy_symbol =
            upsert default_stats (x.strategy, x.symbol) (update x) mem.by_strategy_symbol;
        by_symbol = upsert default_stats x.symbol (update x) mem.by_symbol;
        by_hour_utc = upsert default_stats (t.hour x.exit_time) (update x) mem.by_hour_utc;
        llm_calibration = calibrate x x.llm_confidence mem.llm_calibration;
        recent_hour_pnl = if within then mem.recent_hour_pnl ⊕ x.pnl_usd else mem.recent_hour_pnl;
        recent_hour_trades =
            if within then incr_u32 mem.recent_hour_trades else mem.recent_hour_trades;
      }

  unfoldable pub add_trades : T → List (ClosedTrade F T) → PerformanceMemory F → PerformanceMemory F
  add_trades now [] mem = mem
  add_trades now (x ∷ xs) mem = add_trades now xs (add_trade now x mem)

module _ {F : Type 0} ⦃f : Float F⦄ where
  unfoldable pub finalize_all : PerformanceMemory F → PerformanceMemory F
  finalize_all mem = record mem {
    overall = finalize mem.overall;
    by_strategy = map_values finalize mem.by_strategy;
    by_strategy_regime = map_values finalize mem.by_strategy_regime;
    by_strategy_symbol = map_values finalize mem.by_strategy_symbol;
    by_symbol = map_values finalize mem.by_symbol;
    by_hour_utc = map_values finalize mem.by_hour_utc;
    llm_calibration = map finalize mem.llm_calibration;
  }

module _ {F T : Type 0} ⦃f : Float F⦄ ⦃t : Time T⦄ where
  -- The trades come with the newest first.
  unfoldable pub build : T → List (ClosedTrade F T) → PerformanceMemory F
  build now trades = finalize_all (add_trades now (reverse trades) default_memory)
