-- ===== src/Execution/Risk/Validity.antt =====
-- The invariant of the risk manager of src/execution/risk.rs, over any sequence of calls.
use crypto_scalper.Prelude.{◌≡◌, ◌<◌, ◌^◌, is_some, List, [], ◌∷◌, arith}
use crypto_scalper.Float.{Float, ◌≼◌, ◌⊕◌, nought, lit, IsNumber}
use crypto_scalper.Float.Laws.{IsOrdered}
use crypto_scalper.Float.Order.{le_of_not_lt, clamp_bounds}
use crypto_scalper.Execution.Risk.{
  RiskManager, RiskLimits, RiskCall, set_equity_to, set_multiplier_to, closed, new, set_equity,
  set_size_multiplier, freeze, unfreeze, on_position_opened, book_pnl, trip_on_drawdown,
  trip_on_daily_loss, on_position_closed, reset_daily, apply,
}
use crypto_scalper.Execution.Risk.Circuit.{run}

module _ {F : Type 0} ⦃f : Float F⦄ where
  -- The equity never stands above the peak, the multiplier lies in [0, 2], the position counter is
  -- a `u32`, and a trip or a freeze is set exactly when its reason is.
  pub record IsValid (i : RiskManager F) : Type 0 where
    pub below_peak : i.equity ≼ i.peak_equity
    pub multiplier_low : nought ≼ i.size_multiplier
    pub multiplier_high : i.size_multiplier ≼ lit 2
    pub counter : i.open_positions < 2 ^ 32
    pub trip_explained : i.tripped ≡ is_some i.trip_reason
    pub freeze_explained : i.frozen ≡ is_some i.freeze_reason

  -- A call whose amount is a number, and a result whose booking leaves the equity a number.
  abbrev pub IsUsable : RiskCall F → RiskManager F → Type 0
  IsUsable (set_equity_to e) i = IsNumber e
  IsUsable (set_multiplier_to m) i = IsNumber m
  IsUsable (closed pnl) i = IsNumber (i.equity ⊕ pnl)
  IsUsable _ i = Unit {0}

  abbrev pub AllUsable : List (RiskCall F) → RiskManager F → Type 0
  AllUsable [] i = Unit {0}
  AllUsable (c ∷ cs) i = IsUsable c i × AllUsable cs (apply c i)

module _ {F : Type 0} ⦃f : Float F⦄ (laws : IsOrdered F) where
  new-IsValid : (limits : RiskLimits F) (equity : F) → IsNumber equity → IsValid (new limits equity)
  unfolding new
  new-IsValid limits equity n =
      ground (arith, laws.dec_mono 0 0 1 0 (omega arith), laws.dec_mono 1 0 2 0 (omega arith), n)

  set_equity-IsValid :
      (e : F) (i : RiskManager F) → IsNumber e → IsValid i → IsValid (set_equity e i)
  unfolding set_equity
  set_equity-IsValid e i n v =
      ground (arith, le_of_not_lt laws i.peak_equity e (laws.numbers_of_le _ _ v.below_peak).1 n, n)

  set_size_multiplier-IsValid :
      (m : F) (i : RiskManager F) → IsNumber m → IsValid i → IsValid (set_size_multiplier m i)
  unfolding set_size_multiplier
  set_size_multiplier-IsValid m i n v =
      let bounds = clamp_bounds laws m nought (lit 2) n (laws.dec_mono 0 0 2 0 (omega arith)) in
      record {
        below_peak = v.below_peak;
        multiplier_low = bounds.0;
        multiplier_high = bounds.1;
        counter = v.counter;
        trip_explained = v.trip_explained;
        freeze_explained = v.freeze_explained;
      }

  book_pnl-IsValid :
      (pnl : F) (i : RiskManager F)
      → IsNumber (i.equity ⊕ pnl)
      → IsValid i
      → IsValid (book_pnl pnl i)
  unfolding book_pnl
  book_pnl-IsValid pnl i n v = ground (
    arith,
    le_of_not_lt laws i.peak_equity (i.equity ⊕ pnl) (laws.numbers_of_le _ _ v.below_peak).1 n,
    n,
  )

  trip_on_drawdown-IsValid : (i : RiskManager F) → IsValid i → IsValid (trip_on_drawdown i)
  unfolding trip_on_drawdown
  trip_on_drawdown-IsValid i v = ground arith

  trip_on_daily_loss-IsValid : (i : RiskManager F) → IsValid i → IsValid (trip_on_daily_loss i)
  unfolding trip_on_daily_loss
  trip_on_daily_loss-IsValid i v = ground arith

  pub apply-IsValid :
      (c : RiskCall F) (i : RiskManager F) → IsUsable c i → IsValid i → IsValid (apply c i)
  unfolding apply freeze unfreeze on_position_opened on_position_closed reset_daily
  apply-IsValid (set_equity_to e) i u v = set_equity-IsValid e i u v
  apply-IsValid (set_multiplier_to m) i u v = set_size_multiplier-IsValid m i u v
  apply-IsValid (closed pnl) i u v =
      trip_on_daily_loss-IsValid _ (trip_on_drawdown-IsValid _ (book_pnl-IsValid pnl i u v))
  apply-IsValid _ i u v = ground arith

  run-IsValid_from :
      (cs : List (RiskCall F)) (i : RiskManager F) → AllUsable cs i → IsValid i → IsValid (run cs i)
  unfolding run
  run-IsValid_from [] i u v = v
  run-IsValid_from (c ∷ cs) i (u, us) v = run-IsValid_from cs (apply c i) us (apply-IsValid c i u v)

  -- A manager that starts from an equity that is a number stays valid under every sequence of calls
  -- whose amounts are numbers and whose results leave the equity a number.
  pub run-IsValid :
      (limits : RiskLimits F) (equity : F) (cs : List (RiskCall F))
      → IsNumber equity
      → AllUsable cs (new limits equity)
      → IsValid (run cs (new limits equity))
  run-IsValid limits equity cs n u =
      run-IsValid_from cs (new limits equity) u (new-IsValid limits equity n)
