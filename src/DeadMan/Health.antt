-- ===== src/DeadMan/Health.antt =====
-- `makeDeadManHealth` in server/src/engine/deadMan.ts: the alerts about owners left unprotected.
use hyper_solid.Prelude.{
  ℕ, ◌+◌, String, Bool, true, false, not, ◌&&◌, get_or, Dict, lookup, insert, string_eq, leb,
  if◌then◌else◌,
}

pub data DeadManHealthEvent : Type 0 where
  quiet : DeadManHealthEvent
  alert : (consecutive_failures : ℕ) → DeadManHealthEvent
  recovered : DeadManHealthEvent

pub record HealthState : Type 0 where
  pub failures : ℕ
  pub alerting : Bool

abbrev pub healthy : HealthState
healthy = record { failures = 0; alerting = false }

-- One heartbeat of one owner.
unfoldable pub next_health : ℕ → HealthState → Bool → DeadManHealthEvent × HealthState
next_health alert_after s armed =
    let failures = s.failures + 1 in
    if armed
    then (
      if s.alerting then DeadManHealthEvent.recovered else DeadManHealthEvent.quiet,
      record { failures = 0; alerting = false },
    )
    else if not s.alerting && leb alert_after failures
    then (DeadManHealthEvent.alert failures, record { failures = failures; alerting = true })
    else (DeadManHealthEvent.quiet, record { failures = failures; alerting = s.alerting })

abbrev pub Healths : Type 0
Healths = Dict String HealthState

unfoldable pub record_health : ℕ → Healths → String → Bool → DeadManHealthEvent × Healths
unfolding next_health
record_health alert_after state owner armed =
    let (ev, s) = next_health alert_after (get_or (lookup owner state) healthy) armed in
    (ev, insert owner s state)
