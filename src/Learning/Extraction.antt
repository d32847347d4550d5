-- ===== src/Learning/Extraction.antt =====
-- src/learning/lessons.rs: the lessons that the statistics of past trades give.
pub mod Bans
use crypto_scalper.Learning.Lessons.{
  llm_calibration, drawdown_cooldown, regime_blacklist, strategy_derate, strategy_boost,
  lose_streak, symbol_derate, Lesson,
}
use crypto_scalper.Learning.Memory.{
  profit_factor, win_rate, default_stats, StrategyStats, PerformanceMemory,
}
use crypto_scalper.Prelude.{
  drop, ℕ, ◌+◌, ◌%◌, ◌^◌, String, ◌&&◌, none, some, List, [], ◌∷◌, ◌++◌, ltb, leb, if◌then◌else◌,
  string_eq,
}
use crypto_scalper.Prelude.Int.{ℤ, pos, negsuc, pos_part, neg_part, leb_ℤ}
use crypto_scalper.Prelude.Dict.{Dict}
use crypto_scalper.Float.{Float, ◌⊕◌, ◌⊗◌, ◌⊘◌, ◌<?◌, ◌≤?◌, dec, lit, nought}
use crypto_scalper.Time.{Time}
use crypto_scalper.Text.{Text}

-- The cooldowns are `i64` of the source, taken as not negative.
pub record LessonConfig (F : Type 0) : Type 0 where
  pub min_trades_for_significance : ℕ  -- u32
  pub lose_streak_trigger : ℤ  -- i32
  pub lose_streak_cooldown_minutes : ℕ
  pub derate_win_rate : F
  pub boost_win_rate : F
  pub regime_blacklist_win_rate : F
  pub regime_blacklist_min_trades : ℕ  -- u32
  pub drawdown_cooldown_pct : F
  pub drawdown_cooldown_minutes : ℕ
  pub llm_overconf_actual_wr : F
  pub equity_for_drawdown : F

unfoldable pub abs_ℤ : ℤ → ℤ
abs_ℤ z = pos (pos_part z + neg_part z)

module _ {F : Type 0} ⦃f : Float F⦄ where
  unfoldable pub default_lesson_config : LessonConfig F
  default_lesson_config = record {
    min_trades_for_significance = 8;
    lose_streak_trigger = negsuc 2;
    lose_streak_cooldown_minutes = 30;
    derate_win_rate = dec 35 2;
    boost_win_rate = dec 65 2;
    regime_blacklist_win_rate = dec 3 1;
    regime_blacklist_min_trades = 12;
    drawdown_cooldown_pct = f.neg (lit 5);
    drawdown_cooldown_minutes = 60;
    llm_overconf_actual_wr = dec 4 1;
    equity_for_drawdown = lit 5000;
  }

  -- One more of the buckets that are added up.
  unfoldable pub combine_one : StrategyStats F → StrategyStats F → StrategyStats F
  combine_one out s = record out {
    trades = (out.trades + s.trades) % 2 ^ 32;
    wins = (out.wins + s.wins) % 2 ^ 32;
    losses = (out.losses + s.losses) % 2 ^ 32;
    net_pnl_usd = out.net_pnl_usd ⊕ s.net_pnl_usd;
    gross_profit = out.gross_profit ⊕ s.gross_profit;
    gross_loss = out.gross_loss ⊕ s.gross_loss;
  }

  unfoldable pub combine_from : StrategyStats F → List (StrategyStats F) → StrategyStats F
  combine_from out [] = out
  combine_from out (s ∷ stats) = combine_from (combine_one out s) stats

  unfoldable pub combine : List (StrategyStats F) → StrategyStats F
  combine stats = combine_from default_stats stats

  unfoldable pub high_confidence : PerformanceMemory F → StrategyStats F
  high_confidence mem = combine (drop 8 mem.llm_calibration)

module _ {F T : Type 0} ⦃f : Float F⦄ ⦃t : Time T⦄ (cfg : LessonConfig F) (now : T) where
  unfoldable pub drawdown_lessons : PerformanceMemory F → List (Lesson F T)
  drawdown_lessons mem =
      let dd_pct = mem.recent_hour_pnl ⊘ cfg.equity_for_drawdown ⊗ lit 100 in
      if dd_pct ≤? cfg.drawdown_cooldown_pct && leb 2 mem.recent_hour_trades
      then record {
        kind = drawdown_cooldown;
        strategy = none;
        regime = none;
        symbol = none;
        size_multiplier = nought;
        ta_threshold_delta = pos 0;
        llm_min_confidence_floor = none;
        valid_until = t.add_minutes now cfg.drawdown_cooldown_minutes;
        reason = Text.hour_drawdown dd_pct mem.recent_hour_trades;
      }
        ∷ []
      else []

  unfoldable pub streak_lesson : String → String → StrategyStats F → Lesson F T
  streak_lesson strategy symbol s = record {
    kind = lose_streak;
    strategy = some strategy;
    regime = none;
    symbol = some symbol;
    size_multiplier = nought;
    ta_threshold_delta = pos 0;
    llm_min_confidence_floor = none;
    valid_until = t.add_minutes now cfg.lose_streak_cooldown_minutes;
    reason = Text.streak_paused (abs_ℤ s.recent_streak) strategy symbol;
  }

  unfoldable pub streak_lessons : Dict (String × String) (StrategyStats F) → List (Lesson F T)
  streak_lessons [] = []
  streak_lessons (((strategy, symbol), s) ∷ m) =
      let rest = streak_lessons m in
      if leb_ℤ s.recent_streak cfg.lose_streak_trigger
      then streak_lesson strategy symbol s ∷ rest
      else rest

  unfoldable pub derate_lesson : String → StrategyStats F → Lesson F T
  derate_lesson strategy s = record {
    kind = strategy_derate;
    strategy = some strategy;
    regime = none;
    symbol = none;
    size_multiplier = dec 5 1;
    ta_threshold_delta = pos 10;
    llm_min_confidence_floor = some 80;
    valid_until = t.add_hours now 6;
    reason = Text.derated (win_rate s ⊗ lit 100) strategy s.trades;
  }

  unfoldable pub boost_lesson : String → StrategyStats F → Lesson F T
  boost_lesson strategy s = record {
    kind = strategy_boost;
    strategy = some strategy;
    regime = none;
    symbol = none;
    size_multiplier = dec 12 1;
    ta_threshold_delta = negsuc 4;
    llm_min_confidence_floor = none;
    valid_until = t.add_hours now 6;
    reason = Text.boosted (win_rate s ⊗ lit 100) (profit_factor s) strategy s.trades;
  }

  -- The body of the loop over the strategies.
  unfoldable pub rate_strategy : String → StrategyStats F → List (Lesson F T)
  rate_strategy strategy s =
      if ltb s.trades cfg.min_trades_for_significance
      then []
      else if win_rate s <? cfg.derate_win_rate
      then derate_lesson strategy s ∷ []
      else if cfg.boost_win_rate ≤? win_rate s && dec 15 1 ≤? profit_factor s
      then boost_lesson strategy s ∷ []
      else []

  unfoldable pub strategy_lessons : Dict String (StrategyStats F) → List (Lesson F T)
  strategy_lessons [] = []
  strategy_lessons ((strategy, s) ∷ m) = rate_strategy strategy s ++ strategy_lessons m

  unfoldable pub blacklist_lesson : String → String → StrategyStats F → Lesson F T
  blacklist_lesson strategy regime s = record {
    kind = regime_blacklist;
    strategy = some strategy;
    regime = some regime;
    symbol = none;
    size_multiplier = nought;
    ta_threshold_delta = pos 0;
    llm_min_confidence_floor = none;
    valid_until = t.add_hours now 12;
    reason = Text.blacklisted (win_rate s ⊗ lit 100) strategy regime s.trades;
  }

  unfoldable pub blacklist_lessons : Dict (String × String) (StrategyStats F) → List (Lesson F T)
  blacklist_lessons [] = []
  blacklist_lessons (((strategy, regime), s) ∷ m) =
      let rest = blacklist_lessons m in
      if leb cfg.regime_blacklist_min_trades s.trades && win_rate s <? cfg.regime_blacklist_win_rate
      then blacklist_lesson strategy regime s ∷ rest
      else rest

  unfoldable pub calibration_lessons : StrategyStats F → List (Lesson F T)
  calibration_lessons high_conf =
      if leb cfg.min_trades_for_significance high_conf.trades
        && win_rate high_conf <? cfg.llm_overconf_actual_wr
      then record {
        kind = llm_calibration;
        strategy = none;
        regime = none;
        symbol = none;
        size_multiplier = lit 1;
        ta_threshold_delta = pos 0;
        llm_min_confidence_floor = some 90;
        valid_until = t.add_hours now 12;
        reason = Text.overconfident (win_rate high_conf ⊗ lit 100) high_conf.trades;
      }
        ∷ []
      else []

  unfoldable pub symbol_lesson : String → StrategyStats F → Lesson F T
  symbol_lesson symbol s = record {
    kind = symbol_derate;
    strategy = none;
    regime = none;
    symbol = some symbol;
    size_multiplier = nought;
    ta_threshold_delta = pos 0;
    llm_min_confidence_floor = none;
    valid_until = t.add_hours now 24;
    reason = Text.symbol_loses symbol s.net_pnl_usd s.trades (win_rate s ⊗ lit 100);
  }

  unfoldable pub symbol_lessons : Dict String (StrategyStats F) → List (Lesson F T)
  symbol_lessons [] = []
  symbol_lessons ((symbol, s) ∷ m) =
      let rest = symbol_lessons m in
      if leb cfg.min_trades_for_significance s.trades
        && (s.net_pnl_usd <? nought && win_rate s <? cfg.derate_win_rate)
      then symbol_lesson symbol s ∷ rest
      else rest

  unfoldable pub extract : PerformanceMemory F → List (Lesson F T)
  extract mem =
      drawdown_lessons mem
      ++ (streak_lessons mem.by_strategy_symbol
          ++ (strategy_lessons mem.by_strategy
              ++ (blacklist_lessons mem.by_strategy_regime
                  ++ (calibration_lessons (high_confidence mem) ++ symbol_lessons mem.by_symbol))))
