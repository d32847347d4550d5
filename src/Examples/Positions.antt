-- ===== src/Examples/Positions.antt =====
-- The exit rules of src/execution/position.rs at concrete prices.
use crypto_scalper.Prelude.{ℕ, ◌≡◌, refl, true, some, [], ◌∷◌, string_eq}
use crypto_scalper.Prelude.Dict.{lookup}
use crypto_scalper.Float.{◌≼◌}
use crypto_scalper.Float.Fixed.{Fixed, fixed_float, Fixed-IsOrdered, Fixed-IsRounded}
use crypto_scalper.Time.{seconds_time}
use crypto_scalper.Examples.Inputs.{usd, long_at_100}
use crypto_scalper.Execution.Position.{
  Position, Book, keep, exit, stop_loss, take_profit, time_exit, default_config, check_position,
  check_exits, held_too_long, check_side, check_long, activate_trailing, move_to_breakeven,
  trail_long, trail_dist,
}
use crypto_scalper.Execution.Position.Breakeven.{check_position-at_entry, breakeven_disarms}
use crypto_scalper.Execution.Position.Rules.{check_position-IsTighter}
use crypto_scalper.Execution.Position.Book.{survives, lookup-check_exits}

abbrev at_breakeven : Position Fixed ℕ
at_breakeven = record long_at_100 { stop_loss = usd 100; breakeven_activated = true }

-- Half a unit of risk earned moves the stop to the entry; the stop and the target are hit at once.
first_rounds :
    (check_position default_config 1060 (fixed_float.dec 1006 1) long_at_100 ≡ keep at_breakeven)
    × (check_position default_config 1060 (usd 98) long_at_100 ≡ exit long_at_100 stop_loss)
    × (check_position default_config 1060 (usd 104) long_at_100 ≡ exit long_at_100 take_profit)
    × (check_position default_config 9999 (usd 100) long_at_100 ≡ exit long_at_100 time_exit)
unfolding check_position default_config held_too_long check_side check_long activate_trailing
    move_to_breakeven trail_long trail_dist
first_rounds = (refl, refl, refl, refl)

check_position-at_entry_example :
    check_position default_config 9999 (usd 50) at_breakeven ≡ keep at_breakeven
check_position-at_entry_example =
    check_position-at_entry Fixed-IsRounded default_config 9999 (usd 50) at_breakeven refl refl

breakeven_disarms_example :
    check_position default_config 9999 (usd 50) at_breakeven ≡ keep at_breakeven
breakeven_disarms_example =
    breakeven_disarms Fixed-IsRounded default_config 1060 9999 (fixed_float.dec 1006 1) (usd 50)
      long_at_100 at_breakeven refl first_rounds.0 refl refl refl

check_position-IsTighter_example : usd 99 ≼ usd 100
check_position-IsTighter_example =
    check_position-IsTighter Fixed-IsOrdered default_config 1060 (fixed_float.dec 1006 1)
      long_at_100 at_breakeven refl first_rounds.0

abbrev book : Book Fixed ℕ
book = ("a", long_at_100) ∷ ("b", record long_at_100 { client_id = "b"; symbol = "ETHUSDT" }) ∷ []

lookup-check_exits_example :
    lookup "a" (check_exits "BTCUSDT" (usd 98) default_config 1060 book).0
    ≡ survives "BTCUSDT" default_config 1060 (usd 98) (some long_at_100)
unfolding lookup
lookup-check_exits_example =
    lookup-check_exits "BTCUSDT" (usd 98) default_config 1060 "a" book (refl, (refl, tt))
