-- ===== src/DeadMan/Budget.antt =====
-- The budget of dead-man arms in server/src/engine/deadMan.ts, and its copy on the device in
-- mobile/src/lib/deadManBudget.ts. Times are whole milliseconds, as `Date.now()` gives them.
use hyper_solid.Prelude.{
  ℕ, ◌+◌, ◌/◌, String, Bool, true, false, Option, none, some, Dict, lookup, insert, string_eq, ltb,
  leb, nat_eqb, if◌then◌else◌,
}

abbrev pub deadman_max_per_day : ℕ
deadman_max_per_day = 10

abbrev pub day_ms : ℕ
day_ms = 86_400_000

pub data DeadManDecision : Type 0 where
  skip : DeadManDecision
  send : (time : ℕ) → (counts : Bool) → DeadManDecision

pub record OwnerBudget : Type 0 where
  pub day : ℕ
  pub count : ℕ
  pub armed_until : ℕ

-- `Math.floor(nowMs / DAY_MS)`
unfoldable pub day_of : ℕ → ℕ
day_of now_ms = now_ms / day_ms

-- `prev && prev.day === day ? prev.count : 0`
abbrev pub count_on : ℕ → Option OwnerBudget → ℕ
count_on day none = 0
count_on day (some prev) = if nat_eqb prev.day day then prev.count else 0

abbrev pub armed_until : Option OwnerBudget → ℕ
armed_until none = 0
armed_until (some prev) = prev.armed_until

unfoldable pub decide_budget : Option OwnerBudget → ℕ → ℕ → DeadManDecision
decide_budget prev now_ms ttl_ms =
    let time = now_ms + ttl_ms in
    let count = count_on (day_of now_ms) prev in
    if ltb now_ms (armed_until prev)
    then DeadManDecision.send time false
    else if leb deadman_max_per_day count
    then DeadManDecision.skip
    else DeadManDecision.send time true

unfoldable pub next_budget : Option OwnerBudget → ℕ → ℕ → Bool → OwnerBudget
next_budget prev now_ms time counts = record {
  day = day_of now_ms;
  count = count_on (day_of now_ms) prev + (if counts then 1 else 0);
  armed_until = time;
}

-- `makeDeadManBudget`: the budget of each owner.
abbrev pub Budgets : Type 0
Budgets = Dict String OwnerBudget

unfoldable pub decide : Budgets → String → ℕ → ℕ → DeadManDecision
unfolding decide_budget
decide state owner now_ms ttl_ms = decide_budget (lookup owner state) now_ms ttl_ms

unfoldable pub commit : Budgets → String → ℕ → ℕ → Bool → Budgets
unfolding next_budget
commit state owner now_ms time counts =
    insert owner (next_budget (lookup owner state) now_ms time counts) state
