-- ===== src/Intents/Steps.antt =====
-- Runs of the app's order flow: submissions, cancellations and updates that the exchange pushes.
use hyper_solid.Prelude.{ℕ, String, List, [], ◌∷◌}
use hyper_solid.Scheduler.Context.{Outcome}
use hyper_solid.Intents.Ledger.{NormalizedStatus, IntentInput, reconcile}
use hyper_solid.Intents.Submit.{Desk, Times, submit_built, cancel_by_cloid, cancel_by_oid}

pub data Event (N : Type 0) : Type 0 where
  submit : String → IntentInput N → Times → Event N
  update : String → NormalizedStatus → ℕ → Event N
  cancel : String → ℕ → Event N
  cancel_oid : ℕ → ℕ → Event N

module _ {N W : Type 0} (client : String → W → Outcome NormalizedStatus × W) where
  unfoldable pub step : Event N → Desk N W → Desk N W
  unfolding submit_built reconcile cancel_by_cloid cancel_by_oid
  step (submit cloid input times) d = submit_built client cloid input times d
  step (update cloid status now) d = record d { ledger = reconcile cloid status now d.ledger }
  step (cancel cloid now) d = cancel_by_cloid cloid now d
  step (cancel_oid oid now) d = cancel_by_oid oid now d

  unfoldable pub run : List (Event N) → Desk N W → Desk N W
  unfolding step
  run [] d = d
  run (e ∷ es) d = run es (step e d)
