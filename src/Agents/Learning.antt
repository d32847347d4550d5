-- ===== src/Agents/Learning.antt =====
-- src/agents/learning.rs: the agent that rebuilds the policy from the journal and feeds the quant
-- engine. What the journal answers is an argument.
use crypto_scalper.Learning.Extraction.Bans.{losing_pair_banned}
use crypto_scalper.Learning.Policy.{evaluate}
use crypto_scalper.Learning.Lessons.{Lesson}
use crypto_scalper.Learning.Memory.Streak.{all_lost}
use crypto_scalper.Learning.Extraction.{extract, LessonConfig}
use crypto_scalper.Learning.Memory.{is_win, build, PerformanceMemory, ClosedTrade}
use mathlib.Core.Option
use crypto_scalper.Quant.{QuantEngine, record_trade}
use crypto_scalper.Prelude.Dict.{pair_eq}
use crypto_scalper.Prelude.{
  ℕ, suc, ◌≤◌, String, ◌≡◌, true, false, Option, none, some, List, [], ◌∷◌, map, Result, ok, err,
  string_eq, filter,
}
use crypto_scalper.Prelude.Int.{negsuc}
use crypto_scalper.Float.{Float}
use crypto_scalper.Time.{Time}
use crypto_scalper.Text.{Text}

-- The policy that the agents share, and the engine where one is configured.
pub record LearningState (F T : Type 0) : Type 0 where
  pub memory : PerformanceMemory F
  pub lessons : List (Lesson F T)
  pub quant_engine : Option (QuantEngine F)

module _ {F T : Type 0} ⦃f : Float F⦄ where
  unfoldable pub feed_all : List (ClosedTrade F T) → QuantEngine F → QuantEngine F
  feed_all [] e = e
  feed_all (x ∷ xs) e = feed_all xs (record_trade x.pnl_usd e)

  -- `if let Some(qe) = quant_engine`.
  unfoldable pub feed_engine :
      List (ClosedTrade F T) → Option (QuantEngine F) → Option (QuantEngine F)
  feed_engine trades none = none
  feed_engine trades (some e) = some (feed_all trades e)

  unfoldable pub on_close : F → LearningState F T → LearningState F T
  on_close pnl_usd s = record s { quant_engine = Option.map (record_trade pnl_usd) s.quant_engine }

module _ {F T : Type 0} ⦃f : Float F⦄ ⦃t : Time T⦄ where
  -- One round of the loop: the memory is built at one instant, the lessons are extracted at another.
  unfoldable pub refresh :
      LessonConfig F
      → T
      → T
      → Result (List (ClosedTrade F T)) (Text F)
      → LearningState F T
      → LearningState F T
  refresh cfg built now (err e) s = s
  refresh cfg built now (ok trades) s =
      let memory = build built trades in
      record {
        memory = memory;
        lessons = extract cfg now memory;
        quant_engine = feed_engine trades s.quant_engine;
      }

  -- After a refresh that reads the journal, at whatever instant it runs, a strategy whose last m + 1
  -- closed trades on a symbol were lost is banned on it in every regime until the cooldown after this
  -- refresh is over, where the trigger is a streak of m + 1 losses, at most five.
  pub refresh-bans :
      (cfg : LessonConfig F) (m : ℕ) (built now now' : T) (xs : List (ClosedTrade F T))
      (s : LearningState F T) (strategy regime symbol : String)
      → m ≤ 4
      → cfg.lose_streak_trigger ≡ negsuc m
      → all_lost
          (suc m)
          (map is_win (filter (λ x. pair_eq.beq (x.strategy, x.symbol) (strategy, symbol)) xs))
        ≡ true
      → t.after now' (t.add_minutes now cfg.lose_streak_cooldown_minutes) ≡ false
      → (evaluate now' strategy regime symbol (refresh cfg built now (ok xs) s).lessons).allowed
        ≡ false
  unfolding refresh
  refresh-bans cfg m built now now' xs s strategy regime symbol =
      losing_pair_banned cfg now m built now' xs strategy regime symbol
