-- ===== src/DeadMan/Heartbeat.antt =====
-- `deadManHeartbeat`, `deadManClearAll` and `staleDeadManOwners` in server/src/engine/deadMan.ts,
-- with the executor of server/src/agent/deadManExecutor.ts. `W` is the exchange and the network.
use hyper_solid.Prelude.{
  ℕ, String, Bool, true, false, not, Option, none, some, List, [], ◌∷◌, string_eq, dedup, has, keep,
  if◌then◌else◌,
}
use hyper_solid.DeadMan.Budget.{DeadManDecision, skip, send, Budgets, decide, commit}
use hyper_solid.DeadMan.Health.{DeadManHealthEvent, quiet, Healths, record_health}

-- A call of the exchange: whether it was confirmed or threw, and the world after it.
abbrev pub ScheduleCancel : Type 0 → Type 0
ScheduleCancel W = Option ℕ → W → Bool × W

-- `makeDeadManExecutor`: without a client nothing is sent, and an exception is `false`.
unfoldable pub executor_arm :
    {W : Type 0} → (String → Option (ScheduleCancel W)) → String → ℕ → W → Bool × W
executor_arm client_for owner time_ms w = elim (client_for owner) [
  | none ↦ (false, w)
  | some schedule_cancel ↦ schedule_cancel (some time_ms) w
]

unfoldable pub executor_clear :
    {W : Type 0} → (String → Option (ScheduleCancel W)) → String → W → Bool × W
executor_clear client_for owner w = elim (client_for owner) [
  | none ↦ (false, w)
  | some schedule_cancel ↦ schedule_cancel none w
]

-- `DeadManHeartbeatDeps`: `health` holds the alert threshold of the tracker, where there is one.
pub record HeartbeatDeps (W : Type 0) : Type 0 where
  pub arm : String → ℕ → W → Bool × W
  pub ttl_ms : ℕ
  pub health : Option ℕ

-- A confirmed arm.
pub record Arm : Type 0 where
  pub owner : String
  pub at : ℕ
  pub time : ℕ
  pub counts : Bool

-- The state of the switch, with the confirmed arms and the health events (newest first).
pub record Vigil (W : Type 0) : Type 0 where
  pub budgets : Budgets
  pub healths : Healths
  pub arms : List Arm
  pub events : List (String × DeadManHealthEvent)
  pub world : W

abbrev is_quiet : DeadManHealthEvent → Bool
is_quiet quiet = true
is_quiet _ = false

module _ {W : Type 0} where
  abbrev pub fresh : W → Vigil W
  fresh w = record { budgets = []; healths = []; arms = []; events = []; world = w }

  unfoldable pub try_arm : HeartbeatDeps W → ℕ → String → DeadManDecision → Vigil W → Bool × Vigil W
  unfolding commit
  try_arm deps now owner skip v = (false, v)
  try_arm deps now owner (send time counts) v =
      let (armed, w) = deps.arm owner time v.world in
      if armed
      then (
        true,
        record v {
          budgets = commit v.budgets owner now time counts;
          arms = record { owner = owner; at = now; time = time; counts = counts } ∷ v.arms;
          world = w;
        },
      )
      else (false, record v { world = w })

  unfoldable pub note_health : HeartbeatDeps W → String → Bool → Vigil W → Vigil W
  unfolding record_health
  note_health deps owner armed v = elim deps.health [
    | none ↦ v
    | some alert_after ↦
        let (ev, healths) = record_health alert_after v.healths owner armed in
        record v {
          healths = healths;
          events = if is_quiet ev then v.events else (owner, ev) ∷ v.events;
        }
  ]

  unfoldable pub heartbeat_of : HeartbeatDeps W → ℕ → String → Vigil W → Vigil W
  unfolding decide try_arm note_health
  heartbeat_of deps now owner v =
      let (armed, v') = try_arm deps now owner (decide v.budgets owner now deps.ttl_ms) v in
      note_health deps owner armed v'

  unfoldable pub each_owner : HeartbeatDeps W → ℕ → List String → Vigil W → Vigil W
  unfolding heartbeat_of
  each_owner deps now [] v = v
  each_owner deps now (owner ∷ owners) v =
      each_owner deps now owners (heartbeat_of deps now owner v)

  -- `deadManHeartbeat`: a time, and the owners that run something then
  unfoldable pub heartbeat : HeartbeatDeps W → ℕ → List String → Vigil W → Vigil W
  unfolding each_owner
  heartbeat deps now active_owners v = each_owner deps now (dedup active_owners) v

  -- The heartbeats of a run, first to last.
  unfoldable pub heartbeats : HeartbeatDeps W → List (ℕ × List String) → Vigil W → Vigil W
  unfolding heartbeat
  heartbeats deps [] v = v
  heartbeats deps ((now, owners) ∷ beats) v = heartbeats deps beats (heartbeat deps now owners v)

  clear_each : (String → W → Bool × W) → List String → W → W
  clear_each clear [] w = w
  clear_each clear (owner ∷ owners) w = clear_each clear owners (clear owner w).1

  -- `deadManClearAll`
  unfoldable pub clear_all : (String → W → Bool × W) → List String → W → W
  unfolding clear_each
  clear_all clear active_owners w = clear_each clear (dedup active_owners) w

unfoldable pub stale_dead_man_owners : List String → List String → List String
stale_dead_man_owners running_owners opted_in_owners =
    keep (λ o. not (has o opted_in_owners)) (dedup running_owners)
