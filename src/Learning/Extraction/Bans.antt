-- ===== src/Learning/Extraction/Bans.antt =====
-- From the closed trades to the verdict on a candidate: src/learning/memory.rs, lessons.rs, policy.rs.
use crypto_scalper.Learning.Memory.Tally.{stats_of}
use crypto_scalper.Learning.Memory.Streak.{finalize-streak_iff, all_lost}
use crypto_scalper.Learning.Memory.Buckets.{build-IsBucketed, finished}
use crypto_scalper.Learning.Policy.{evaluate}
use crypto_scalper.Prelude.Dict.{pair_eq, Dict, lookup}
use crypto_scalper.Learning.Policy.Verdict.{evaluate-allowed_iff, IsPermissive}
use crypto_scalper.Learning.Memory.{
  finalize, is_win, build, PerformanceMemory, ClosedTrade, StrategyStats,
}
use crypto_scalper.Learning.Lessons.{Lesson, bans, is_block, admits, applies}
use crypto_scalper.Learning.Extraction.{
  drawdown_lessons, extract, LessonConfig, streak_lessons, streak_lesson,
}
use crypto_scalper.Prelude.{
  All-right, All-if_head, All-left, All-if_tail, ℕ, suc, ◌≤◌, String, ◌≡◌, refl, ap, ◌∙◌, inl, inr,
  true, false, some, List, [], ◌∷◌, map, arith, Bool-cases, string_eq, filter, All,
}
use crypto_scalper.Prelude.Int.{negsuc, leb_ℤ}
use crypto_scalper.Float.{Float}
use crypto_scalper.Time.{Time}

module _ {F T : Type 0} ⦃f : Float F⦄ ⦃t : Time T⦄ (cfg : LessonConfig F) (now : T) where
  streak_lessons-head :
      (P : Lesson F T → Type 0) (a b : String) (v : StrategyStats F)
      (m : Dict (String × String) (StrategyStats F))
      → leb_ℤ v.recent_streak cfg.lose_streak_trigger ≡ true
      → All P (streak_lessons cfg now (((a, b), v) ∷ m))
      → P (streak_lesson cfg now a b v)
  unfolding streak_lessons
  streak_lessons-head P a b v m l p = All-if_head P _ _ _ l p

  streak_lessons-tail :
      (P : Lesson F T → Type 0) (k : String × String) (v : StrategyStats F)
      (m : Dict (String × String) (StrategyStats F))
      → All P (streak_lessons cfg now ((k, v) ∷ m))
      → All P (streak_lessons cfg now m)
  unfolding streak_lessons
  streak_lessons-tail P (a, b) v m p = All-if_tail P _ (streak_lesson cfg now a b v) _ p

  module _ (now' : T) (strategy regime symbol : String)
      (h : t.after now' (t.add_minutes now cfg.lose_streak_cooldown_minutes) ≡ false) where
    streak_lesson-bans :
        (a b : String) (s : StrategyStats F)
        → pair_eq.beq (a, b) (strategy, symbol) ≡ true
        → ¬ IsPermissive now' strategy regime symbol (streak_lesson cfg now a b s)
    unfolding streak_lesson applies admits is_block bans
    streak_lesson-bans a b s same p = ground (arith, h, p)

    streak_lessons-bans :
        (s : StrategyStats F) (m : Dict (String × String) (StrategyStats F))
        → leb_ℤ s.recent_streak cfg.lose_streak_trigger ≡ true
        → lookup (strategy, symbol) m ≡ some s
        → ¬ All (IsPermissive now' strategy regime symbol) (streak_lessons cfg now m)
    unfolding lookup
    streak_lessons-bans s [] l e p = ground arith
    streak_lessons-bans s (((a, b), v) ∷ m) l e p =
        elim (Bool-cases (pair_eq.beq (a, b) (strategy, symbol))) [
          | inl same ↦ streak_lesson-bans a b v same (
              streak_lessons-head (IsPermissive now' strategy regime symbol) a b v m (ground arith)
                p)
          | inr other ↦
              streak_lessons-bans s m l (ground arith) (streak_lessons-tail _ (a, b) v m p)
        ]

    extract-bans :
        (s : StrategyStats F) (mem : PerformanceMemory F)
        → leb_ℤ s.recent_streak cfg.lose_streak_trigger ≡ true
        → lookup (strategy, symbol) mem.by_strategy_symbol ≡ some s
        → (evaluate now' strategy regime symbol (extract cfg now mem)).allowed ≡ false
    unfolding extract
    extract-bans s mem l e =
        elim (Bool-cases (evaluate now' strategy regime symbol (extract cfg now mem)).allowed) [
          | inl allowed ↦ absurd (
              streak_lessons-bans s mem.by_strategy_symbol l e (
                All-left _ (streak_lessons cfg now mem.by_strategy_symbol) _ (
                  All-right _ (drawdown_lessons cfg now mem) _ (
                    (evaluate-allowed_iff now' strategy regime symbol (extract cfg now mem)).0
                      allowed))))
          | inr banned ↦ banned
        ]

  lookup-pair :
      (built : T) (xs : List (ClosedTrade F T)) (strategy symbol : String)
      → lookup (strategy, symbol) (build built xs).by_strategy_symbol
        ≡ finished (filter (λ x. pair_eq.beq (x.strategy, x.symbol) (strategy, symbol)) xs)
  lookup-pair built xs strategy symbol = (build-IsBucketed built xs).of_pair (strategy, symbol)

  finished-some :
      (m : ℕ) (xs : List (ClosedTrade F T))
      → all_lost (suc m) (map is_win xs) ≡ true
      → finished xs ≡ some (finalize (stats_of xs))
  finished-some m [] h = ground arith
  finished-some m (x ∷ xs) h = refl

  -- Where the streak that triggers a lesson is m + 1 losses, at most five, and the last m + 1 closed
  -- trades of a strategy on a symbol were lost, the lessons extracted from these trades ban that
  -- strategy on that symbol in every regime until the cooldown after the extraction is over, whenever
  -- the trades were closed and whenever the extraction runs.
  pub losing_pair_banned :
      (m : ℕ) (built now' : T) (xs : List (ClosedTrade F T)) (strategy regime symbol : String)
      → m ≤ 4
      → cfg.lose_streak_trigger ≡ negsuc m
      → all_lost
          (suc m)
          (map is_win (filter (λ x. pair_eq.beq (x.strategy, x.symbol) (strategy, symbol)) xs))
        ≡ true
      → t.after now' (t.add_minutes now cfg.lose_streak_cooldown_minutes) ≡ false
      → (evaluate now' strategy regime symbol (extract cfg now (build built xs))).allowed ≡ false
  losing_pair_banned m built now' xs strategy regime symbol b c lost h =
      let mine = filter (λ x. pair_eq.beq (x.strategy, x.symbol) (strategy, symbol)) xs in
      extract-bans now' strategy regime symbol h (finalize (stats_of mine)) (build built xs)
        (ap (leb_ℤ (finalize (stats_of mine)).recent_streak) c
          ∙ (finalize-streak_iff m mine b ∙ lost))
        (lookup-pair built xs strategy symbol ∙ finished-some m mine lost)
