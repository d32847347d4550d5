-- ===== src/Examples/Operators.antt =====
-- The watchdog of src/agents/watchdog.rs and the operator's commands of src/agents/control.rs.
use crypto_scalper.Prelude.{ℕ, String, ◌≡◌, refl, ◌↔◌, false, List, [], ◌∷◌, string_eq, All}
use crypto_scalper.Prelude.Int.{pos}
use crypto_scalper.Text.{Text}
use crypto_scalper.Time.{seconds_time}
use crypto_scalper.Float.Fixed.{Fixed, fixed_float}
use crypto_scalper.Agents.Control.Access.{poll-IsGranted, IsGranted}
use crypto_scalper.Examples.Inputs.{long_at_100, manager}
use crypto_scalper.Execution.Risk.{new}
use crypto_scalper.Agents.Watchdog.Liveness.{check-frozen_iff, IsAlive, watch-obey}
use crypto_scalper.Agents.Control.{
  is_either, command_of, handle_command, same_id, contains, is_refused, on_update, obey, poll,
  Update,
}
use crypto_scalper.Agents.Messages.{data_agent, feeds_agent, freeze, agent_eq}
use crypto_scalper.Agents.Watchdog.{
  watch, Watchdog, WatchdogEvent, check, WatchdogConfig, tick, heartbeat,
}

abbrev watch_cfg : WatchdogConfig
watch_cfg = record { watched = data_agent ∷ feeds_agent ∷ []; liveness_timeout_secs = pos 180 }

abbrev started : Watchdog ℕ
started = record { last_seen = (data_agent, 1000) ∷ (feeds_agent, 1000) ∷ []; frozen = false }

-- The feeds fall silent, the check at 1200 freezes, and they come back.
abbrev night : List (WatchdogEvent ℕ)
night =
    heartbeat data_agent 1100 ∷ tick 1200 ∷ tick 1210 ∷ heartbeat feeds_agent 1220 ∷ tick 1230 ∷ []

check-frozen_iff_example :
    ((check {F = Fixed} watch_cfg 1200 started).0.frozen ≡ false)
    ↔ All (IsAlive watch_cfg 1200 started.last_seen) watch_cfg.watched
check-frozen_iff_example = check-frozen_iff Fixed watch_cfg 1200 started

watch-obey_example :
    (obey (watch watch_cfg night started).1 manager).frozen
    ≡ (watch {F = Fixed} watch_cfg night started).0.frozen
unfolding new
watch-obey_example = watch-obey watch_cfg night started manager refl

abbrev updates : List Update
updates =
    record { update_id = pos 7; from_id = pos 42; text = "/freeze" }
    ∷ record { update_id = pos 8; from_id = pos 13; text = "/unfreeze" }
    ∷ []

abbrev same : String → String
same s = s

poll-IsGranted_example :
    IsGranted same
      (pos 42 ∷ [])
      updates
      (poll same (pos 42 ∷ []) manager (long_at_100 ∷ []) updates (pos 0)).1
poll-IsGranted_example =
    poll-IsGranted same (pos 42 ∷ []) manager (long_at_100 ∷ []) updates (pos 0)

-- Only the first user's command goes out.
stranger_ignored :
    (poll same (pos 42 ∷ []) manager (long_at_100 ∷ []) updates (pos 0)).1
    ≡ freeze (Text.plain "operator command") ∷ []
unfolding poll on_update is_refused contains same_id handle_command command_of is_either
stranger_ignored = refl
