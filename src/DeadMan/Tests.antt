-- ===== src/DeadMan/Tests.antt =====
-- A run of the dead-man switch, and its theorems there.
use hyper_solid.Prelude.{
  ℕ, ◌+◌, ◌≤◌, String, Bool, true, false, not, ◌&&◌, ◌≡◌, refl, some, List, [], ◌∷◌, arith, has,
  distinct, string_eq, ltb,
}
use mathlib.Core.Option.{map}
use hyper_solid.DeadMan.Budget.{decide_budget, next_budget, day_of}
use hyper_solid.DeadMan.Health.{DeadManHealthEvent, record_health}
use hyper_solid.DeadMan.Heartbeat.{HeartbeatDeps, fresh, heartbeats, stale_dead_man_owners}
use hyper_solid.DeadMan.Limit.{counted_on, arms_per_day}
use hyper_solid.DeadMan.Alerts.{healths_after, health_events}
use hyper_solid.DeadMan.Owners.{stale_owners}
use hyper_solid.DeadMan.Device.{
  ArmBudget, decide_arm, next_arm, on_server, as_server, device_as_server,
}

-- The exchange confirms every call but the second, and a schedule lasts a millisecond.
abbrev deps : HeartbeatDeps ℕ
deps = record {
  arm = λ owner time w. (not (ltb w 2 && ltb 0 w), w + 1);
  ttl_ms = 1;
  health = some 3;
}

abbrev beats : List (ℕ × List String)
beats =
    (10, "0xA" ∷ "0xB" ∷ "0xA" ∷ [])
    ∷ (20, "0xA" ∷ [])
    ∷ (30, "0xA" ∷ [])
    ∷ (40, "0xA" ∷ "0xB" ∷ [])
    ∷ []

counted_run : counted_on "0xA" 0 (heartbeats deps beats (fresh 0)).arms ≡ 4
unfolding heartbeats day_of
counted_run = refl

arms_per_day_example : counted_on "0xA" 0 (heartbeats deps beats (fresh 0)).arms ≤ 10
arms_per_day_example = arms_per_day deps beats 0 "0xA" 0 refl

abbrev history : List (String × Bool)
history = ("0xA", false) ∷ ("0xB", true) ∷ ("0xA", false) ∷ []

health_events_example :
    (record_health 3 (healths_after 3 history) "0xA" false).0 ≡ DeadManHealthEvent.alert 3
health_events_example = health_events 3 history "0xA" false (omega arith)

stale_owners_example :
    (has "0xB" (stale_dead_man_owners ("0xA" ∷ "0xB" ∷ "0xB" ∷ []) ("0xA" ∷ [])) ≡ true)
    × (distinct (stale_dead_man_owners ("0xA" ∷ "0xB" ∷ "0xB" ∷ []) ("0xA" ∷ [])) ≡ true)
stale_owners_example = stale_owners ("0xA" ∷ "0xB" ∷ "0xB" ∷ []) ("0xA" ∷ []) "0xB"

abbrev budget : ArmBudget
budget = record { arm_day = 0; arm_count = 10; armed = 5 }

device_as_server_example :
    (as_server (decide_arm (some budget) 7 100) ≡ decide_budget (map on_server (some budget)) 7 100)
    × (on_server (next_arm (some budget) 7 107 true)
        ≡ next_budget (map on_server (some budget)) 7 107 true)
device_as_server_example = device_as_server (some budget) 7 100 107 true
