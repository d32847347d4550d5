-- ===== src/Agents/Watchdog.antt =====
-- src/agents/watchdog.rs: the liveness of the agents, and the freeze when one falls silent.
use crypto_scalper.Prelude.{
  Bool, true, false, Option, none, some, List, [], ◌∷◌, ◌++◌, map, if◌then◌else◌, string_eq,
}
use crypto_scalper.Prelude.Int.{ℤ, ltb_ℤ}
use crypto_scalper.Prelude.Dict.{Dict, lookup, insert}
use crypto_scalper.Time.{Time}
use crypto_scalper.Text.{Text}
use crypto_scalper.Agents.Messages.{agent_str, AgentId, ControlCommand, freeze, unfreeze, agent_eq}
pub mod Liveness

pub record WatchdogConfig : Type 0 where
  pub watched : List AgentId
  pub liveness_timeout_secs : ℤ

-- `last_seen` and `frozen`, which the two tasks share.
pub record Watchdog (T : Type 0) : Type 0 where
  pub last_seen : Dict AgentId T
  pub frozen : Bool

pub data WatchdogEvent (T : Type 0) : Type 0 where
  heartbeat : AgentId → T → WatchdogEvent T
  tick : T → WatchdogEvent T  -- the periodic check, at a time

module _ {T : Type 0} where
  -- The seed of the check task: every watched agent counts as seen now.
  unfoldable pub seed : T → List AgentId → Dict AgentId T → Dict AgentId T
  seed now [] m = m
  seed now (a ∷ watched) m = seed now watched (insert a now m)

module _ {T : Type 0} ⦃t : Time T⦄ where
  -- The age of an agent that is too old; an agent that was never seen has none.
  unfoldable pub stale_age : WatchdogConfig → T → Option T → Option ℤ
  stale_age cfg now none = none
  stale_age cfg now (some seen) =
      let age = t.num_seconds now seen in
      if ltb_ℤ cfg.liveness_timeout_secs age then some age else none

  unfoldable pub stale_of : WatchdogConfig → T → Dict AgentId T → List AgentId → List (AgentId × ℤ)
  stale_of cfg now m [] = []
  stale_of cfg now m (a ∷ watched) =
      let rest = stale_of cfg now m watched in
      elim (stale_age cfg now (lookup a m)) [ none ↦ rest | some age ↦ (a, age) ∷ rest ]

-- `"{}({}s)"` of each, joined.
unfoldable pub summary : {F : Type 0} → List (AgentId × ℤ) → Text F
summary stale = Text.stale_agents (map (λ (a, age). (agent_str a, age)) stale)

module _ {F T : Type 0} ⦃t : Time T⦄ where
  unfoldable pub decide : List (AgentId × ℤ) → Watchdog T → Watchdog T × List (ControlCommand F)
  decide [] w = if w.frozen then (record w { frozen = false }, unfreeze ∷ []) else (w, [])
  decide (s ∷ stale) w =
      if w.frozen then (w, []) else (record w { frozen = true }, freeze (summary (s ∷ stale)) ∷ [])

  unfoldable pub check : WatchdogConfig → T → Watchdog T → Watchdog T × List (ControlCommand F)
  check cfg now w = decide (stale_of cfg now w.last_seen cfg.watched) w

  unfoldable pub on_watch :
      WatchdogConfig → WatchdogEvent T → Watchdog T → Watchdog T × List (ControlCommand F)
  on_watch cfg (heartbeat from ts) w = (record w { last_seen = insert from ts w.last_seen }, [])
  on_watch cfg (tick now) w = check cfg now w

  unfoldable pub watch :
      WatchdogConfig → List (WatchdogEvent T) → Watchdog T → Watchdog T × List (ControlCommand F)
  watch cfg [] w = (w, [])
  watch cfg (e ∷ es) w =
      let (w', sent) = on_watch cfg e w in let (w'', rest) = watch cfg es w' in (w'', sent ++ rest)
