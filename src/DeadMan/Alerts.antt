-- ===== src/DeadMan/Alerts.antt =====
-- What the health tracker of server/src/engine/deadMan.ts reports, from the outcomes alone.
use hyper_solid.Prelude.{
  ℕ, ◌+◌, ◌≤◌, String, Bool, true, false, ◌≡◌, refl, ◌⊎◌, inl, inr, Bool-cases, get_or, List, [],
  ◌∷◌, arith, lookup, lookup-insert_self, lookup-insert_other, string_eq, ◌==◌, leb, nat_eqb,
  if◌then◌else◌, subst,
}
use hyper_solid.DeadMan.Health.{
  DeadManHealthEvent, HealthState, healthy, next_health, Healths, record_health,
}

-- The outcomes of an owner among those of all, newest first.
abbrev pub outcomes_of : String → List (String × Bool) → List Bool
outcomes_of owner [] = []
outcomes_of owner ((o, armed) ∷ history) =
    if o == owner then armed ∷ outcomes_of owner history else outcomes_of owner history

-- The failures since the last success.
abbrev pub trailing : List Bool → ℕ
trailing [] = 0
trailing (true ∷ outcomes) = 0
trailing (false ∷ outcomes) = trailing outcomes + 1

-- What the tracker keeps after a history of heartbeats.
unfoldable pub healths_after : ℕ → List (String × Bool) → Healths
unfolding record_health
healths_after alert_after [] = []
healths_after alert_after ((owner, armed) ∷ history) =
    (record_health alert_after (healths_after alert_after history) owner armed).1

-- An alert on the failure that reaches the threshold, and a recovery on the first success past it.
abbrev pub expected : ℕ → List Bool → Bool → DeadManHealthEvent
expected alert_after outcomes true =
    if leb alert_after (trailing outcomes)
    then DeadManHealthEvent.recovered
    else DeadManHealthEvent.quiet
expected alert_after outcomes false =
    if nat_eqb (trailing outcomes + 1) alert_after
    then DeadManHealthEvent.alert alert_after
    else DeadManHealthEvent.quiet

abbrev state_of : ℕ → List Bool → HealthState
state_of alert_after outcomes = record {
  failures = trailing outcomes;
  alerting = leb alert_after (trailing outcomes);
}

next_health_lem :
    (alert_after : ℕ) (outcomes : List Bool) (armed : Bool)
    → 1 ≤ alert_after
    → next_health alert_after (state_of alert_after outcomes) armed
      ≡ (expected alert_after outcomes armed, state_of alert_after (armed ∷ outcomes))
unfolding next_health
next_health_lem alert_after outcomes true h = ground arith
next_health_lem alert_after outcomes false h = ground arith

module _ (alert_after : ℕ) (h : 1 ≤ alert_after) where
  recorded :
      (state : Healths) (history : List (String × Bool)) (o owner : String) (armed : Bool)
      → ((o == owner) ≡ true) ⊎ ((o == owner) ≡ false)
      → ((k : String)
          → get_or (lookup k state) healthy ≡ state_of alert_after (outcomes_of k history))
      → get_or (lookup owner (record_health alert_after state o armed).1) healthy
        ≡ state_of alert_after (outcomes_of owner ((o, armed) ∷ history))
  unfolding record_health
  recorded state history o owner armed (inl e) known =
      subst
        (λ k.
          get_or (lookup k (record_health alert_after state o armed).1) healthy
          ≡ state_of alert_after (outcomes_of k ((o, armed) ∷ history)))
        ((string_eq.same_iff o owner).0 e)
        (rw
          (
            lookup-insert_self o _ state,
            known o,
            next_health_lem alert_after (outcomes_of o history) armed h,
            (string_eq.same_iff o o).1 refl,
          )
          refl)
  recorded state history o owner armed (inr e) known =
      rw (lookup-insert_other o owner _ state e, e) (known owner)

  lookup-healths_after :
      (history : List (String × Bool)) (owner : String)
      → get_or (lookup owner (healths_after alert_after history)) healthy
        ≡ state_of alert_after (outcomes_of owner history)
  unfolding healths_after
  lookup-healths_after [] owner = ground arith
  lookup-healths_after ((o, armed) ∷ history) owner =
      recorded (healths_after alert_after history) history o owner armed (Bool-cases (o == owner))
        (lookup-healths_after history)

-- Whatever the other owners went through, and for a threshold of at least one, the tracker alerts
-- about an owner exactly on the failure that is that many in a row, and reports a recovery exactly
-- on the first success after an alert.
pub health_events :
    (alert_after : ℕ) (history : List (String × Bool)) (owner : String) (armed : Bool)
    → 1 ≤ alert_after
    → (record_health alert_after (healths_after alert_after history) owner armed).0
      ≡ expected alert_after (outcomes_of owner history) armed
unfolding record_health
health_events alert_after history owner armed h = rw (
  lookup-healths_after alert_after h history owner,
  next_health_lem alert_after (outcomes_of owner history) armed h,
)
