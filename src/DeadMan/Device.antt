-- ===== src/DeadMan/Device.antt =====
-- The budget of dead-man arms that the device keeps, mobile/src/lib/deadManBudget.ts.
use hyper_solid.Prelude.{
  ℕ, ◌+◌, ◌/◌, Bool, true, false, ◌≡◌, refl, Option, none, some, ltb, leb, nat_eqb, if◌then◌else◌,
  arith,
}
use mathlib.Core.Option.{map}
use hyper_solid.DeadMan.Budget.{DeadManDecision, OwnerBudget, day_of, decide_budget, next_budget}

abbrev pub arm_max_per_day : ℕ
arm_max_per_day = 10

abbrev arm_day_ms : ℕ
arm_day_ms = 86_400_000

pub record ArmBudget : Type 0 where
  pub arm_day : ℕ
  pub arm_count : ℕ
  pub armed : ℕ

pub data ArmDecision : Type 0 where
  skip_arm : ArmDecision
  arm_at : (time : ℕ) → (counts : Bool) → ArmDecision

abbrev pub arms_on : ℕ → Option ArmBudget → ℕ
arms_on day none = 0
arms_on day (some prev) = if nat_eqb prev.arm_day day then prev.arm_count else 0

abbrev pub armed_past : Option ArmBudget → ℕ
armed_past none = 0
armed_past (some prev) = prev.armed

unfoldable pub decide_arm : Option ArmBudget → ℕ → ℕ → ArmDecision
decide_arm prev now_ms ttl_ms =
    let time = now_ms + ttl_ms in
    let count = arms_on (now_ms / arm_day_ms) prev in
    if ltb now_ms (armed_past prev)
    then ArmDecision.arm_at time false
    else if leb arm_max_per_day count
    then ArmDecision.skip_arm
    else ArmDecision.arm_at time true

unfoldable pub next_arm : Option ArmBudget → ℕ → ℕ → Bool → ArmBudget
next_arm prev now_ms time counts = record {
  arm_day = now_ms / arm_day_ms;
  arm_count = arms_on (now_ms / arm_day_ms) prev + (if counts then 1 else 0);
  armed = time;
}

-- What the server keeps in place of the device's budget, and decides in place of its decision.
abbrev pub on_server : ArmBudget → OwnerBudget
on_server b = record { day = b.arm_day; count = b.arm_count; armed_until = b.armed }

abbrev pub as_server : ArmDecision → DeadManDecision
as_server ArmDecision.skip_arm = DeadManDecision.skip
as_server (ArmDecision.arm_at time counts) = DeadManDecision.send time counts

-- The device decides as the server does, and keeps what the server keeps.
pub device_as_server :
    (prev : Option ArmBudget) (now_ms ttl_ms time : ℕ) (counts : Bool)
    → (as_server (decide_arm prev now_ms ttl_ms) ≡ decide_budget (map on_server prev) now_ms ttl_ms)
      × (on_server (next_arm prev now_ms time counts)
          ≡ next_budget (map on_server prev) now_ms time counts)
unfolding decide_arm next_arm decide_budget next_budget day_of
device_as_server none now_ms ttl_ms time counts = (ground arith, refl)
device_as_server (some prev) now_ms ttl_ms time counts = (ground arith, refl)
