-- ===== src/Learning/Memory/Streak.antt =====
-- The streak and the counters of src/learning/memory.rs.
use crypto_scalper.Learning.Memory.Tally.{stats_of}
use crypto_scalper.Prelude.{
  ◌^◌, ◌<◌, length, filter, reverse-reverse, reverse, take, ℕ, zero, suc, ◌+◌, ◌≤◌, ◌≡◌, refl, ap,
  ◌∙◌, Bool, true, false, not, ◌&&◌, List, [], ◌∷◌, map, arith, string_eq,
}
use crypto_scalper.Learning.Memory.{
  incr_u32, average_out, streak_of, count_outcome, finalize, is_win, step_of, StrategyStats,
  ClosedTrade, same_outcome, push_outcome, update, streak_from, default_stats,
}
use crypto_scalper.Prelude.Int.{pos, negsuc, leb_ℤ}
use crypto_scalper.Float.{Float}

-- The first `n` outcomes are there and are losses.
abbrev pub all_lost : ℕ → List Bool → Bool
all_lost zero ws = true
all_lost (suc n) [] = false
all_lost (suc n) (w ∷ ws) = not w && all_lost n ws

push_outcome-reverse :
    (w : Bool) (ws : List Bool) → push_outcome w (reverse (take 5 ws)) ≡ reverse (take 5 (w ∷ ws))
unfolding push_outcome
push_outcome-reverse w [] = refl
push_outcome-reverse w (a ∷ []) = refl
push_outcome-reverse w (a ∷ b ∷ []) = refl
push_outcome-reverse w (a ∷ b ∷ c ∷ []) = refl
push_outcome-reverse w (a ∷ b ∷ c ∷ d ∷ []) = refl
push_outcome-reverse w (a ∷ b ∷ c ∷ d ∷ e ∷ ws) = refl

streak_from-le :
    (k : ℕ) (ws : List Bool) → leb_ℤ (streak_from false (negsuc k) ws) (negsuc k) ≡ true
unfolding streak_from same_outcome step_of
streak_from-le k [] = ground arith
streak_from-le k (true ∷ ws) = ground arith
streak_from-le k (false ∷ ws) = ground (arith, streak_from-le (suc k) ws)

-- A losing streak grows by the losses that follow it.
streak_from-lost :
    (k j i : ℕ) (ws : List Bool)
    → i ≤ j
    → leb_ℤ (streak_from false (negsuc k) (take j ws)) (negsuc (k + i)) ≡ all_lost i ws
unfolding streak_from same_outcome step_of
streak_from-lost k zero zero ws h = ground arith
streak_from-lost k (suc j) zero ws h = ground (arith, streak_from-le k (take (suc j) ws))
streak_from-lost k zero (suc i) ws h = absurd (omega arith)
streak_from-lost k (suc j) (suc i) [] h = ground arith
streak_from-lost k (suc j) (suc i) (true ∷ ws) h = ground arith
streak_from-lost k (suc j) (suc i) (false ∷ ws) h =
    ground (arith, streak_from-lost (suc k) j i ws (omega arith))

module _ {F T : Type 0} ⦃f : Float F⦄ where
  update-outcomes :
      (x : ClosedTrade F T) (s : StrategyStats F)
      → (update x s).last_5_outcomes ≡ push_outcome (is_win x) s.last_5_outcomes
  unfolding update
  update-outcomes x s = refl

  stats_of-outcomes :
      (xs : List (ClosedTrade F T))
      → (stats_of xs).last_5_outcomes ≡ reverse (take 5 (map is_win xs))
  unfolding default_stats
  stats_of-outcomes [] = refl
  stats_of-outcomes (x ∷ xs) =
      update-outcomes x (stats_of xs)
      ∙ (ap (push_outcome (is_win x)) (stats_of-outcomes xs)
          ∙ push_outcome-reverse (is_win x) (map is_win xs))

streak_from-won :
    (k m : ℕ) (ws : List Bool) → leb_ℤ (streak_from true (pos k) ws) (negsuc m) ≡ false
unfolding streak_from same_outcome step_of
streak_from-won k m [] = ground arith
streak_from-won k m (true ∷ ws) = ground (arith, streak_from-won (k + 1) m ws)
streak_from-won k m (false ∷ ws) = ground arith

streak_of-lost :
    (m : ℕ) (ws : List Bool)
    → m ≤ 4
    → leb_ℤ (streak_of (take 5 ws)) (negsuc m) ≡ all_lost (suc m) ws
unfolding streak_of step_of
streak_of-lost m [] h = ground arith
streak_of-lost m (true ∷ ws) h = streak_from-won 1 m (take 4 ws)
streak_of-lost m (false ∷ ws) h = ground (arith, streak_from-lost 0 4 m ws h)

module _ {F T : Type 0} ⦃f : Float F⦄ where
  finalize-streak :
      (xs : List (ClosedTrade F T))
      → (finalize (stats_of xs)).recent_streak ≡ streak_of (take 5 (map is_win xs))
  unfolding finalize
  finalize-streak xs =
      ap (λ ws. streak_of (reverse ws)) (stats_of-outcomes xs)
      ∙ ap streak_of (reverse-reverse (take 5 (map is_win xs)))

  -- The recent streak of a bucket is at or below -(m + 1) exactly when its last m + 1 trades are there
  -- and lost, up to five.
  pub finalize-streak_iff :
      (m : ℕ) (xs : List (ClosedTrade F T))
      → m ≤ 4
      → leb_ℤ (finalize (stats_of xs)).recent_streak (negsuc m) ≡ all_lost (suc m) (map is_win xs)
  finalize-streak_iff m xs h =
      ap (λ z. leb_ℤ z (negsuc m)) (finalize-streak xs) ∙ streak_of-lost m (map is_win xs) h

  -- The counters of a bucket.
  pub record IsTally (xs : List (ClosedTrade F T)) (s : StrategyStats F) : Type 0 where
    pub trades : s.trades ≡ length xs
    pub wins : s.wins ≡ length (filter is_win xs)
    pub losses : s.wins + s.losses ≡ s.trades

  update-IsTally :
      (x : ClosedTrade F T) (xs : List (ClosedTrade F T)) (s : StrategyStats F)
      → length xs + 1 < 2 ^ 32
      → IsTally xs s
      → IsTally (x ∷ xs) (update x s)
  unfolding update count_outcome incr_u32
  update-IsTally x xs s b c = ground arith

  stats_of-IsTally : (xs : List (ClosedTrade F T)) → length xs < 2 ^ 32 → IsTally xs (stats_of xs)
  unfolding default_stats
  stats_of-IsTally [] b = record { trades = refl; wins = refl; losses = refl }
  stats_of-IsTally (x ∷ xs) b =
      update-IsTally x xs (stats_of xs) (omega arith) (stats_of-IsTally xs (omega arith))

  -- Over fewer than 2^32 trades the counters of a bucket are exact: its trades, its wins, and wins and
  -- losses together the trades.
  pub finalize-IsTally :
      (xs : List (ClosedTrade F T)) → length xs < 2 ^ 32 → IsTally xs (finalize (stats_of xs))
  unfolding finalize average_out
  finalize-IsTally xs b = let c = stats_of-IsTally xs b in ground arith
