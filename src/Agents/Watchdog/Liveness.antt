-- ===== src/Agents/Watchdog/Liveness.antt =====
-- The watchdog of src/agents/watchdog.rs: when it freezes, and the commands that it sends.
use crypto_scalper.Execution.Risk.{RiskManager}
use crypto_scalper.Agents.Control.{obey_one, obey}
use crypto_scalper.Prelude.{
  ◌≡◌, refl, ◌↔◌, Bool, true, false, Option, none, some, List, [], ◌∷◌, ◌++◌, arith, string_eq, All,
}
use crypto_scalper.Prelude.Int.{ℤ, ltb_ℤ}
use crypto_scalper.Prelude.Dict.{Dict, lookup}
use crypto_scalper.Float.{Float}
use crypto_scalper.Time.{Time}
use crypto_scalper.Text.{Text}
use crypto_scalper.Agents.Messages.{AgentId, ControlCommand, freeze, unfreeze, agent_eq}
use crypto_scalper.Agents.Watchdog.{
  WatchdogEvent, Watchdog, watch, decide, check, stale_age, stale_of, on_watch, WatchdogConfig,
  tick, heartbeat,
}
use crypto_scalper.Execution.Risk

module _ {T : Type 0} ⦃t : Time T⦄ where
  -- The last sign of the agent, if any, is not older than the timeout.
  abbrev pub IsAlive : WatchdogConfig → T → Dict AgentId T → AgentId → Type 0
  IsAlive cfg now m a =
      (seen : T)
      → lookup a m ≡ some seen
      → ltb_ℤ cfg.liveness_timeout_secs (t.num_seconds now seen) ≡ false

  alive_of_no_age :
      (cfg : WatchdogConfig) (now : T) (o : Option T) (seen : T)
      → stale_age cfg now o ≡ none
      → o ≡ some seen
      → ltb_ℤ cfg.liveness_timeout_secs (t.num_seconds now seen) ≡ false
  unfolding stale_age
  alive_of_no_age cfg now o seen h e = ground arith

  no_age_of_alive :
      (cfg : WatchdogConfig) (now : T) (o : Option T)
      → ((seen : T)
          → o ≡ some seen
          → ltb_ℤ cfg.liveness_timeout_secs (t.num_seconds now seen) ≡ false)
      → stale_age cfg now o ≡ none
  unfolding stale_age
  no_age_of_alive cfg now none h = refl
  no_age_of_alive cfg now (some s) h = ground (arith, h s)

  stale_of-IsAlive :
      (cfg : WatchdogConfig) (now : T) (m : Dict AgentId T) (watched : List AgentId)
      → stale_of cfg now m watched ≡ []
      → All (IsAlive cfg now m) watched
  unfolding stale_of
  stale_of-IsAlive cfg now m [] h = tt
  stale_of-IsAlive cfg now m (a ∷ watched) h = (
    λ seen e. alive_of_no_age cfg now (lookup a m) seen (ground arith) e,
    stale_of-IsAlive cfg now m watched (ground arith),
  )

  IsAlive-stale_of :
      (cfg : WatchdogConfig) (now : T) (m : Dict AgentId T) (watched : List AgentId)
      → All (IsAlive cfg now m) watched
      → stale_of cfg now m watched ≡ []
  unfolding stale_of
  IsAlive-stale_of cfg now m [] h = refl
  IsAlive-stale_of cfg now m (a ∷ watched) (h, hs) =
      ground (arith, no_age_of_alive cfg now (lookup a m) h, IsAlive-stale_of cfg now m watched hs)

module _ (F : Type 0) {T : Type 0} ⦃t : Time T⦄ where
  decide-frozen_iff :
      (stale : List (AgentId × ℤ)) (w : Watchdog T)
      → ((decide {F = F} stale w).0.frozen ≡ false) ↔ (stale ≡ [])
  unfolding decide
  decide-frozen_iff [] w = ground arith
  decide-frozen_iff (s ∷ stale) w = ground arith

  -- After a check the watchdog is not frozen exactly when every watched agent is alive.
  pub check-frozen_iff :
      (cfg : WatchdogConfig) (now : T) (w : Watchdog T)
      → ((check {F = F} cfg now w).0.frozen ≡ false) ↔ All (IsAlive cfg now w.last_seen) cfg.watched
  unfolding check
  check-frozen_iff cfg now w = (
    λ h. stale_of-IsAlive cfg now w.last_seen cfg.watched ((decide-frozen_iff _ w).0 h),
    λ a. (decide-frozen_iff _ w).1 (IsAlive-stale_of cfg now w.last_seen cfg.watched a),
  )

-- Freezes and unfreezes in turn, from one flag to another.
pub data Alternates {F : Type 0} : Bool → Bool → List (ControlCommand F) → Type 0 where
  quiet : {b : Bool} → Alternates b b []
  froze :
      {c : Bool} {r : Text F} {cs : List (ControlCommand F)}
      → Alternates true c cs
      → Alternates false c (freeze r ∷ cs)
  thawed :
      {c : Bool} {cs : List (ControlCommand F)}
      → Alternates false c cs
      → Alternates true c (unfreeze ∷ cs)

module _ {F : Type 0} where
  Alternates-append :
      {a b c : Bool} {xs ys : List (ControlCommand F)}
      → Alternates a b xs
      → Alternates b c ys
      → Alternates a c (xs ++ ys)
  Alternates-append quiet k = k
  Alternates-append (froze h) k = froze (Alternates-append h k)
  Alternates-append (thawed h) k = thawed (Alternates-append h k)

module _ {T : Type 0} where
  abbrev with_flag : Bool → Dict AgentId T → Watchdog T
  with_flag flag m = record { last_seen = m; frozen = flag }

module _ {F T : Type 0} ⦃t : Time T⦄ where
  decide_steps :
      (stale : List (AgentId × ℤ)) (flag : Bool) (m : Dict AgentId T)
      → Alternates {F = F} flag
          (decide {F = F} stale (with_flag flag m)).0.frozen
          (decide {F = F} stale (with_flag flag m)).1
  unfolding decide
  decide_steps [] false m = quiet
  decide_steps [] true m = thawed quiet
  decide_steps (s ∷ stale) false m = froze quiet
  decide_steps (s ∷ stale) true m = quiet

  on_watch_steps :
      (cfg : WatchdogConfig) (e : WatchdogEvent T) (w : Watchdog T)
      → Alternates {F = F} w.frozen (on_watch {F = F} cfg e w).0.frozen (on_watch {F = F} cfg e w).1
  unfolding on_watch check
  on_watch_steps cfg (heartbeat from ts) w = quiet
  on_watch_steps cfg (tick now) w =
      decide_steps (stale_of cfg now w.last_seen cfg.watched) w.frozen w.last_seen

  -- Over any run of heartbeats and checks the published commands are freezes and unfreezes in turn,
  -- from the flag before to the flag after.
  watch-Alternates :
      (cfg : WatchdogConfig) (es : List (WatchdogEvent T)) (w : Watchdog T)
      → Alternates {F = F} w.frozen (watch {F = F} cfg es w).0.frozen (watch {F = F} cfg es w).1
  unfolding watch
  watch-Alternates cfg [] w = quiet
  watch-Alternates cfg (e ∷ es) w =
      Alternates-append (on_watch_steps cfg e w) (watch-Alternates cfg es _)

module _ {F : Type 0} ⦃f : Float F⦄ where
  obey-frozen :
      {b c : Bool} {cs : List (ControlCommand F)}
      → Alternates b c cs
      → (risk : RiskManager F) → risk.frozen ≡ b
      → (obey cs risk).frozen ≡ c
  unfolding obey obey_one Risk.freeze Risk.unfreeze
  obey-frozen quiet risk h = h
  obey-frozen (froze k) risk h = obey-frozen k _ refl
  obey-frozen (thawed k) risk h = obey-frozen k _ refl

module _ {F T : Type 0} ⦃f : Float F⦄ ⦃t : Time T⦄ where
  -- The risk manager that follows the watchdog's commands is frozen exactly when the watchdog is,
  -- after any run that starts with equal flags.
  pub watch-obey :
      (cfg : WatchdogConfig) (es : List (WatchdogEvent T)) (w : Watchdog T) (risk : RiskManager F)
      → risk.frozen ≡ w.frozen
      → (obey (watch cfg es w).1 risk).frozen ≡ (watch {F = F} cfg es w).0.frozen
  watch-obey cfg es w risk h = obey-frozen (watch-Alternates cfg es w) risk h
