-- ===== src/Examples/Learning.antt =====
-- The learning agent and the quant engine on concrete inputs.
use crypto_scalper.Learning.Memory.Tally.{stats_of}
use crypto_scalper.Quant.{
  total_trades, default_quant_config, average_or_one, avg_loss, avg_win, outcomes_win_rate,
  QuantEngine, TradeOutcomes,
}
use crypto_scalper.Quant.Sizing.{kelly_of, is_warm, compute_sizing}
use crypto_scalper.Portfolio.{kelly_fraction}
use crypto_scalper.Learning.Memory.Streak.{finalize-streak_iff, all_lost}
use crypto_scalper.Learning.Extraction.{default_lesson_config}
use crypto_scalper.Learning.Policy.{evaluate}
use crypto_scalper.Quant.Limits.{
  IsSized, return_call, calls-IsLimited, trade_call, compute_sizing_bounds, losing_record_ignored,
  calls, IsLimited, EngineCall,
}
use crypto_scalper.Learning.Memory.{is_win, default_memory, build, ClosedTrade, finalize}
use crypto_scalper.Learning.Memory.Buckets.{build-IsBucketed, IsBucketed}
use crypto_scalper.Agents.Learning.{refresh-bans, refresh, LearningState}
use crypto_scalper.Quant.Types.{QuantSizingInput}
use crypto_scalper.Prelude.{ℕ, ◌≡◌, refl, false, some, List, [], ◌∷◌, map, arith, ok, string_eq}
use crypto_scalper.Prelude.Int.{negsuc, leb_ℤ}
use crypto_scalper.Data.Types.{long}
use crypto_scalper.Examples.Inputs.{usd, loss}
use crypto_scalper.Float.Fixed.{fixed_float, Fixed, Fixed-IsOrdered}
use crypto_scalper.Time.{seconds_time}

abbrev closed_with : Fixed → ClosedTrade Fixed ℕ
closed_with pnl = record {
  symbol = "BTCUSDT";
  direction = "LONG";
  strategy = "momentum";
  regime = "RANGING";
  entry_time = 900;
  exit_time = 1000;
  pnl_usd = pnl;
  pnl_pct = pnl;
  ta_confidence = some 70;
  llm_confidence = some 85;
}

-- Three losses after a win, the newest first.
abbrev journal : List (ClosedTrade Fixed ℕ)
journal =
    closed_with (loss 1) ∷ closed_with (loss 2) ∷ closed_with (loss 1) ∷ closed_with (usd 4) ∷ []

abbrev engine : QuantEngine Fixed
engine = record {
  cfg = default_quant_config;
  kalman = [];
  ic_trackers = [];
  returns = [];
  trade_outcomes = record { wins = []; losses = [] };
}

abbrev learned : LearningState Fixed ℕ
learned = record { memory = default_memory; lessons = []; quant_engine = some engine }

refresh-bans_example :
    (evaluate 1100 "momentum" "VOLATILE" "BTCUSDT"
      (refresh default_lesson_config 1000 1000 (ok journal) learned).lessons).allowed
    ≡ false
unfolding default_lesson_config is_win
refresh-bans_example =
    refresh-bans default_lesson_config 2 1000 1000 1100 journal learned "momentum" "VOLATILE"
      "BTCUSDT" (ground arith) refl refl refl

build-IsBucketed_example : IsBucketed 1000 journal (build 1000 journal)
build-IsBucketed_example = build-IsBucketed 1000 journal

finalize-streak_iff_example :
    leb_ℤ (finalize (stats_of journal)).recent_streak (negsuc 2) ≡ all_lost 3 (map is_win journal)
finalize-streak_iff_example = finalize-streak_iff 2 journal (ground arith)

abbrev engine_calls : List (EngineCall Fixed)
engine_calls =
    trade_call (usd 3) ∷ trade_call (loss 1) ∷ return_call "BTCUSDT" (fixed_float.dec 1 2) ∷ []

calls-IsLimited_example : IsLimited (calls engine_calls engine)
calls-IsLimited_example =
    calls-IsLimited engine_calls engine
      (record { wins = ground arith; losses = ground arith; returns = tt })

abbrev question : QuantSizingInput Fixed
question = record {
  symbol = "BTCUSDT";
  strategy = "momentum";
  side = long;
  entry = usd 100;
  stop_loss = usd 99;
  equity = usd 1000;
  base_risk_pct = usd 1;
}

-- Nineteen losses and a win, a record whose Kelly fraction is zero.
abbrev losing_record : TradeOutcomes Fixed
losing_record = record {
  wins = usd 1 ∷ [];
  losses =
      usd 1
      ∷ usd 1
      ∷ usd 1
      ∷ usd 1
      ∷ usd 1
      ∷ usd 1
      ∷ usd 1
      ∷ usd 1
      ∷ usd 1
      ∷ usd 1
      ∷ usd 1
      ∷ usd 1
      ∷ usd 1
      ∷ usd 1
      ∷ usd 1
      ∷ usd 1
      ∷ usd 1
      ∷ usd 1
      ∷ usd 1
      ∷ [];
}

losing_record_ignored_example :
    ((compute_sizing (record engine { trade_outcomes = losing_record }) question).size_multiplier
      ≡ (compute_sizing engine question).size_multiplier)
    × ((compute_sizing (record engine { trade_outcomes = losing_record }) question).var_rejected
        ≡ (compute_sizing engine question).var_rejected)
unfolding kelly_of is_warm default_quant_config total_trades kelly_fraction outcomes_win_rate
    avg_win average_or_one avg_loss
losing_record_ignored_example = losing_record_ignored engine losing_record question refl refl

compute_sizing_bounds_example : IsSized Fixed-IsOrdered engine question
unfolding default_quant_config
compute_sizing_bounds_example = compute_sizing_bounds Fixed-IsOrdered engine question refl
