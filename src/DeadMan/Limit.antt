-- ===== src/DeadMan/Limit.antt =====
-- The exchange's limit on dead-man arms, over whole runs of heartbeats.
use hyper_solid.Prelude.{
  ℕ, ◌+◌, ◌≤◌, ◌<◌, String, Bool, true, false, ◌&&◌, ◌≡◌, refl, ◌⊎◌, inl, inr, Option, none, some,
  List, [], ◌∷◌, arith, lookup, lookup-insert_other, lookup-insert_self, insert, Option-cases,
  string_eq, ◌==◌, leb, nat_eqb, if◌then◌else◌, dedup, Bool-cases, subst,
}
use hyper_solid.DeadMan.Budget.{
  OwnerBudget, Budgets, day_of, count_on, decide_budget, next_budget, decide, commit,
  DeadManDecision, skip, send, deadman_max_per_day,
}
use hyper_solid.DeadMan.Heartbeat.{
  Arm, Vigil, HeartbeatDeps, fresh, try_arm, note_health, heartbeat_of, each_owner, heartbeat,
  heartbeats,
}

-- The confirmed arms of an owner on a day that count against the limit.
abbrev pub counted_on : String → ℕ → List Arm → ℕ
counted_on owner day [] = 0
counted_on owner day (a ∷ arms) =
    (if a.counts && a.owner == owner && nat_eqb (day_of a.at) day then 1 else 0)
    + counted_on owner day arms

abbrev last_day : Option OwnerBudget → ℕ
last_day none = 0
last_day (some b) = b.day

-- The budget of an owner agrees with the arms on the day at hand and later.
abbrev Tracks : ℕ → Option OwnerBudget → String → List Arm → Type 0
Tracks today b owner arms =
    (last_day b ≤ today)
    × ((day : ℕ) → (day < today) ⊎ (count_on day b ≡ counted_on owner day arms))
    × ((day : ℕ) → counted_on owner day arms ≤ deadman_max_per_day)

day_of_le : (a b : ℕ) → a ≤ b → day_of a ≤ day_of b
unfolding day_of
day_of_le a b h = omega arith

later-Tracks :
    (today later : ℕ) (b : Option OwnerBudget) (owner : String) (arms : List Arm)
    → today ≤ later
    → Tracks today b owner arms
    → Tracks later b owner arms
later-Tracks today later b owner arms le (last, same, few) =
    (omega arith, λ day. elim (same day) [ inl h ↦ inl (omega arith) | inr h ↦ inr h ], few)

other-Tracks :
    (today : ℕ) (b : Option OwnerBudget) (owner : String) (a : Arm) (arms : List Arm)
    → (a.owner == owner) ≡ false
    → Tracks today b owner arms
    → Tracks today b owner (a ∷ arms)
other-Tracks today b owner a arms other (last, same, few) =
    (last, λ day. ground (arith, other, same day), λ day. ground (arith, other, few day))

own-Tracks :
    (now time : ℕ) (b : Option OwnerBudget) (owner : String) (counts : Bool) (arms : List Arm)
    → (owner == owner) ≡ true
    → ((counts ≡ false) ⊎ (count_on (day_of now) b < deadman_max_per_day))
    → Tracks (day_of now) b owner arms
    → Tracks
        (day_of now)
        (some (next_budget b now time counts))
        owner
        (record { owner = owner; at = now; time = time; counts = counts } ∷ arms)
unfolding next_budget
own-Tracks now time b owner counts arms self room (last, same, few) = (
  omega arith,
  λ day. ground (arith, self, same day, same (day_of now), room),
  λ day. ground (arith, self, same day, few day, room),
)

self_same : (owner : String) → (owner == owner) ≡ true
self_same owner = (string_eq.same_iff owner owner).1 refl

-- What `decide` lets through fits the day: a refresh does not count, and an arm finds room.
fits :
    (b : Option OwnerBudget) (now ttl time : ℕ) (counts : Bool)
    → decide_budget b now ttl ≡ DeadManDecision.send time counts
    → (counts ≡ false) ⊎ (count_on (day_of now) b < deadman_max_per_day)
unfolding decide_budget
fits b now ttl time counts e = ground arith

committed-Tracks :
    (now time : ℕ) (owner other : String) (counts : Bool) (state : Budgets) (arms : List Arm)
    → ((owner == other) ≡ true) ⊎ ((owner == other) ≡ false)
    → ((counts ≡ false) ⊎ (count_on (day_of now) (lookup owner state) < deadman_max_per_day))
    → ((o : String) → Tracks (day_of now) (lookup o state) o arms)
    → Tracks
        (day_of now)
        (lookup other (commit state owner now time counts))
        other
        (record { owner = owner; at = now; time = time; counts = counts } ∷ arms)
unfolding commit
committed-Tracks now time owner other counts state arms (inl h) room within =
    subst
      (λ o.
        Tracks (day_of now)
          (lookup o (insert owner (next_budget (lookup owner state) now time counts) state)) o
          (record { owner = owner; at = now; time = time; counts = counts } ∷ arms))
      ((string_eq.same_iff owner other).0 h)
      (rw (lookup-insert_self owner (next_budget (lookup owner state) now time counts) state) (
        own-Tracks now time (lookup owner state) owner counts arms (self_same owner) room
          (within owner)))
committed-Tracks now time owner other counts state arms (inr h) room within =
    rw (lookup-insert_other owner other (next_budget (lookup owner state) now time counts) state h)
      (other-Tracks (day_of now) (lookup other state) other
        (record { owner = owner; at = now; time = time; counts = counts }) arms h (within other))

-- The clock does not run back.
abbrev pub ascending : ℕ → List (ℕ × List String) → Bool
ascending now [] = true
ascending now ((later, _) ∷ beats) = leb now later && ascending later beats

module _ {W : Type 0} where
  abbrev Within : ℕ → Vigil W → Type 0
  Within now v = (owner : String) → Tracks (day_of now) (lookup owner v.budgets) owner v.arms

  try_arm-Within :
      (deps : HeartbeatDeps W) (now : ℕ) (owner : String) (d : DeadManDecision) (v : Vigil W)
      → decide v.budgets owner now deps.ttl_ms ≡ d
      → Within now v
      → Within now (try_arm deps now owner d v).1
  unfolding try_arm decide
  try_arm-Within deps now owner skip v e within = within
  try_arm-Within deps now owner (send time counts) v e within =
      elim (Bool-cases (deps.arm owner time v.world).0) [
        | inl h ↦ rw h (λ other.
            committed-Tracks now time owner other counts v.budgets v.arms
              (Bool-cases (owner == other))
              (fits (lookup owner v.budgets) now deps.ttl_ms time counts e) within)
        | inr h ↦ rw h within
      ]

  note_health-Within :
      (deps : HeartbeatDeps W) (now : ℕ) (owner : String) (armed : Bool) (v : Vigil W)
      → Within now v
      → Within now (note_health deps owner armed v)
  unfolding note_health
  note_health-Within deps now owner armed v within = elim (Option-cases deps.health) [
    | inl e ↦ rw e within
    | inr (alert_after, e) ↦ rw e within
  ]

  each_owner-Within :
      (deps : HeartbeatDeps W) (now : ℕ) (owners : List String) (v : Vigil W)
      → Within now v
      → Within now (each_owner deps now owners v)
  unfolding each_owner heartbeat_of
  each_owner-Within deps now [] v within = within
  each_owner-Within deps now (owner ∷ owners) v within = each_owner-Within deps now owners _ (
      note_health-Within deps now owner _ _
        (try_arm-Within deps now owner (decide v.budgets owner now deps.ttl_ms) v refl within))

  heartbeats-counted_on :
      (deps : HeartbeatDeps W) (now : ℕ) (beats : List (ℕ × List String)) (v : Vigil W)
      → ascending now beats ≡ true
      → Within now v
      → (owner : String) (day : ℕ)
      → counted_on owner day (heartbeats deps beats v).arms ≤ deadman_max_per_day
  unfolding heartbeats heartbeat
  heartbeats-counted_on deps now [] v asc within owner day = (within owner).2 day
  heartbeats-counted_on deps now ((later, owners) ∷ beats) v asc within owner day =
      let le : now ≤ later = ground arith in
      heartbeats-counted_on deps later beats _ (ground arith)
        (each_owner-Within deps later (dedup owners) v (λ o.
          later-Tracks (day_of now) (day_of later) _ o v.arms (day_of_le now later le) (within o)))
        owner day

  fresh-Within : (w : W) → Within 0 (fresh w)
  fresh-Within w owner = (omega arith, λ day. inr refl, λ day. omega arith)

  -- Over any run of heartbeats on a clock that does not run back, whatever the exchange answers, the
  -- confirmed arms of an owner on a UTC day that count against the limit are at most ten.
  pub arms_per_day :
      (deps : HeartbeatDeps W) (beats : List (ℕ × List String)) (w : W) (owner : String) (day : ℕ)
      → ascending 0 beats ≡ true
      → counted_on owner day (heartbeats deps beats (fresh w)).arms ≤ 10
  arms_per_day deps beats w owner day asc =
      heartbeats-counted_on deps 0 beats (fresh w) asc (fresh-Within w) owner day
