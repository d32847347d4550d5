-- ===== src/Execution/Risk/Circuit.antt =====
-- The circuit breaker of src/execution/risk.rs: when it trips, and that only a new day closes it.
use crypto_scalper.Prelude.{
  ◌≡◌, ◌≢◌, ◌↔◌, ◌⊎◌, refl, ◌∙◌, true, some, List, [], ◌∷◌, All, err, arith,
}
use crypto_scalper.Float.{Float, ◌≼◌}
use crypto_scalper.Text.{Text}
use crypto_scalper.Execution.Risk.{
  RiskManager, RiskCall, new_day, set_equity, set_size_multiplier, freeze, unfreeze,
  on_position_opened, book_pnl, drawdown_of, daily_loss_of, trip_on_drawdown, trip_on_daily_loss,
  on_position_closed, snapshot, can_open_position, apply,
}

module _ {F : Type 0} ⦃f : Float F⦄ where
  -- After a position is closed the circuit is tripped exactly when it was tripped before, or the
  -- snapshot now shows a drawdown at its limit or a daily loss at its limit.
  pub closed-trips_iff :
      (i : RiskManager F) (pnl : F)
      → let j = on_position_closed pnl i in
        (j.tripped ≡ true) ↔ (
          (i.tripped ≡ true)
          ⊎ (i.limits.max_drawdown_pct ≼ (snapshot j).drawdown_pct)
          ⊎ (i.limits.max_daily_loss_pct ≼ (snapshot j).daily_loss_pct))
  unfolding on_position_closed trip_on_daily_loss trip_on_drawdown book_pnl snapshot drawdown_of
      daily_loss_of
  closed-trips_iff i pnl = ground arith

  -- Calls other than `reset_daily`.
  abbrev pub IsIntraday : RiskCall F → Type 0
  IsIntraday c = c ≢ new_day

  unfoldable pub run : List (RiskCall F) → RiskManager F → RiskManager F
  run [] i = i
  run (c ∷ cs) i = run cs (apply c i)

  apply-tripped :
      (c : RiskCall F) (i : RiskManager F)
      → IsIntraday c
      → i.tripped ≡ true
      → ((apply c i).tripped ≡ true) × ((apply c i).trip_reason ≡ i.trip_reason)
  unfolding apply set_equity set_size_multiplier freeze unfreeze on_position_opened
      on_position_closed trip_on_daily_loss trip_on_drawdown book_pnl
  apply-tripped new_day i d h = absurd (d refl)
  apply-tripped _ i d h = ground arith

  run-tripped :
      (cs : List (RiskCall F)) (i : RiskManager F)
      → All IsIntraday cs
      → i.tripped ≡ true
      → ((run cs i).tripped ≡ true) × ((run cs i).trip_reason ≡ i.trip_reason)
  unfolding run
  run-tripped [] i d h = (h, refl)
  run-tripped (c ∷ cs) i (d, ds) h =
      let (still, same) = apply-tripped c i d h in
      let (last, reason) = run-tripped cs (apply c i) ds still in (last, reason ∙ same)

  -- While no day ends, a tripped circuit stays tripped for the reason it tripped, whatever is called,
  -- and every request to open a position is refused with that reason.
  pub run-refuses :
      (cs : List (RiskCall F)) (i : RiskManager F) (t : Text F)
      → All IsIntraday cs
      → i.tripped ≡ true
      → i.trip_reason ≡ some t
      → can_open_position (run cs i) ≡ err (Text.circuit_tripped t)
  unfolding can_open_position
  run-refuses cs i t d h e = ground (arith, run-tripped cs i d h)
