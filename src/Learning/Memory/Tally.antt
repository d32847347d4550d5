-- ===== src/Learning/Memory/Tally.antt =====
-- The statistics of trades in src/learning/memory.rs, and what they count.
use crypto_scalper.Learning.Memory.{
  finalize, update, StrategyStats, default_stats, ClosedTrade, incr_u32, is_win, count_outcome,
  average_out,
}
use crypto_scalper.Prelude.{
  ap, ◌≡◌, refl, List, [], ◌∷◌, string_eq, filter, arith, ℕ, ltb, if◌then◌else◌, Bool, not,
}
use crypto_scalper.Float.{Float, ◌⊕◌, ◌⊘◌, nought}

module _ {F : Type 0} ⦃f : Float F⦄ where
  -- A sum over a number of trades, zero where there is none.
  abbrev pub average : F → ℕ → F
  average sum n = if ltb 0 n then sum ⊘ f.of_ℕ n else nought

module _ {F T : Type 0} ⦃f : Float F⦄ where
  -- The statistics of trades, the newest first.
  abbrev pub stats_of : List (ClosedTrade F T) → StrategyStats F
  stats_of [] = default_stats
  stats_of (x ∷ xs) = update x (stats_of xs)

  -- The sum of the profits, the newest added last.
  abbrev pub pnl_sum : List (ClosedTrade F T) → F
  pnl_sum [] = nought
  pnl_sum (x ∷ xs) = pnl_sum xs ⊕ x.pnl_usd

  abbrev pub wrapped_count : List (ClosedTrade F T) → ℕ
  wrapped_count [] = 0
  wrapped_count (x ∷ xs) = incr_u32 (wrapped_count xs)

  abbrev pub pct_sum : List (ClosedTrade F T) → F
  pct_sum [] = nought
  pct_sum (x ∷ xs) = pct_sum xs ⊕ x.pnl_pct

  abbrev pub loss_sum : List (ClosedTrade F T) → F
  loss_sum [] = nought
  loss_sum (x ∷ xs) = loss_sum xs ⊕ f.abs x.pnl_usd

  abbrev pub is_loss : ClosedTrade F T → Bool
  is_loss x = not (is_win x)

  -- The statistics before they are averaged.
  record IsCount (xs : List (ClosedTrade F T)) (s : StrategyStats F) : Type 0 where
    trades : s.trades ≡ wrapped_count xs
    wins : s.wins ≡ wrapped_count (filter is_win xs)
    losses : s.losses ≡ wrapped_count (filter is_loss xs)
    net : s.net_pnl_usd ≡ pnl_sum xs
    profit : s.gross_profit ≡ pnl_sum (filter is_win xs)
    loss : s.gross_loss ≡ loss_sum (filter is_loss xs)
    average_usd : s.avg_pnl_usd ≡ nought
    sum_pct : s.avg_pnl_pct ≡ pct_sum xs

  update-IsCount :
      (x : ClosedTrade F T) (xs : List (ClosedTrade F T)) (s : StrategyStats F)
      → IsCount xs s
      → IsCount (x ∷ xs) (update x s)
  unfolding update count_outcome
  update-IsCount x xs s c = record {
    trades = ap incr_u32 c.trades;
    wins = ground (arith, c.wins);
    losses = ground (arith, c.losses);
    net = ground (arith, c.net);
    profit = ground (arith, c.profit);
    loss = ground (arith, c.loss);
    average_usd = ground (arith, c.average_usd);
    sum_pct = ground (arith, c.sum_pct);
  }

  stats_of-IsCount : (xs : List (ClosedTrade F T)) → IsCount xs (stats_of xs)
  unfolding default_stats
  stats_of-IsCount [] = record {
    trades = refl;
    wins = refl;
    losses = refl;
    net = refl;
    profit = refl;
    loss = refl;
    average_usd = refl;
    sum_pct = refl;
  }
  stats_of-IsCount (x ∷ xs) = update-IsCount x xs (stats_of xs) (stats_of-IsCount xs)

  -- What finished statistics of trades, the newest first, say: the numbers of trades, wins and losses,
  -- as `u32`, the profit, its two parts and its averages.
  pub record IsTally (xs : List (ClosedTrade F T)) (s : StrategyStats F) : Type 0 where
    pub trades : s.trades ≡ wrapped_count xs
    pub wins : s.wins ≡ wrapped_count (filter is_win xs)
    pub losses : s.losses ≡ wrapped_count (filter is_loss xs)
    pub net : s.net_pnl_usd ≡ pnl_sum xs
    pub profit : s.gross_profit ≡ pnl_sum (filter is_win xs)
    pub loss : s.gross_loss ≡ loss_sum (filter is_loss xs)
    pub average_usd : s.avg_pnl_usd ≡ average (pnl_sum xs) (wrapped_count xs)
    pub average_pct :
        s.avg_pnl_pct
        ≡ (if ltb 0 (wrapped_count xs) then pct_sum xs ⊘ f.of_ℕ (wrapped_count xs) else pct_sum xs)

  finalize-IsTally :
      (xs : List (ClosedTrade F T)) (s : StrategyStats F) → IsCount xs s → IsTally xs (finalize s)
  unfolding finalize average_out
  finalize-IsTally xs s c = record {
    trades = ground (arith, c.trades);
    wins = ground (arith, c.wins);
    losses = ground (arith, c.losses);
    net = ground (arith, c.net);
    profit = ground (arith, c.profit);
    loss = ground (arith, c.loss);
    average_usd = ground (arith, c.trades, c.net, c.average_usd);
    average_pct = ground (arith, c.trades, c.sum_pct);
  }

  pub stats_of-IsTally : (xs : List (ClosedTrade F T)) → IsTally xs (finalize (stats_of xs))
  stats_of-IsTally xs = finalize-IsTally xs (stats_of xs) (stats_of-IsCount xs)
