-- ===== src/Intents/Settled.antt =====
-- Once an order is settled in mobile/src/lib/hyperliquid/intentLedger.ts it stays so, and
-- mobile/src/services/exchange.ts does not send it again.
use hyper_solid.Prelude.{
  ℕ, String, true, false, ◌≡◌, refl, inl, inr, Bool-cases, Option-cases, none, some, List, [], ◌∷◌,
  arith, lookup, insert, lookup-insert, lookup-insert_other, ap, suc, string_eq, ◌==◌,
  if◌then◌else◌,
}
use hyper_solid.Scheduler.Context.{Outcome, Outcome-cases}
use hyper_solid.Intents.Ledger.{
  NormalizedStatus, IntentInput, OrderIntent, Ledger, open_intent, mark_submitted, mark_canceled,
  reconcile, is_settled, should_submit, change, is_terminal_status, cancel_intent, reconciled,
  get_by_oid, retried, fresh, moved, submitted,
}
use hyper_solid.Intents.Submit.{
  Desk, Times, send_order, submit_built, cancel_by_cloid, cancel_by_oid,
}
use hyper_solid.Intents.Steps.{Event, submit, update, cancel, cancel_oid, step, run}

abbrev pub times_sent : String → List String → ℕ
times_sent k [] = 0
times_sent k (c ∷ cs) = let rest = times_sent k cs in if c == k then suc rest else rest

module _ {N : Type 0} where
  insert_settled :
      (cloid k : String) (i j : OrderIntent N) (ledger : Ledger N)
      → lookup cloid ledger ≡ some i
      → (is_terminal_status i.status ≡ true → is_terminal_status j.status ≡ true)
      → is_settled k ledger ≡ true
      → is_settled k (insert cloid j ledger) ≡ true
  unfolding is_settled
  insert_settled cloid k i j ledger e keeps settled = elim (Bool-cases (cloid == k)) [
    | inl h ↦
        let same = ap (λ c. lookup c ledger) ((string_eq.same_iff cloid k).0 h) in
        ground (arith, h, lookup-insert cloid k j ledger, same)
    | inr h ↦ ground (arith, h, lookup-insert cloid k j ledger)
  ]

  insert_new_settled :
      (cloid k : String) (j : OrderIntent N) (ledger : Ledger N)
      → lookup cloid ledger ≡ none
      → is_settled k ledger ≡ true
      → is_settled k (insert cloid j ledger) ≡ true
  unfolding is_settled
  insert_new_settled cloid k j ledger e settled = elim (Bool-cases (cloid == k)) [
    | inl h ↦
        let same = ap (λ c. lookup c ledger) ((string_eq.same_iff cloid k).0 h) in
        absurd (ground (arith, e, same, settled))
    | inr h ↦ ground (arith, h, lookup-insert cloid k j ledger)
  ]

  change_settled :
      (cloid k : String) (f : OrderIntent N → OrderIntent N) (ledger : Ledger N)
      → ((i : OrderIntent N)
          → is_terminal_status i.status ≡ true
          → is_terminal_status (f i).status ≡ true)
      → is_settled k ledger ≡ true
      → is_settled k (change cloid f ledger) ≡ true
  change_settled cloid k f ledger keeps settled = elim (Option-cases (lookup cloid ledger)) [
    | inl e ↦ rw (e, change) settled
    | inr (i, e) ↦ rw (e, change) (insert_settled cloid k i (f i) ledger e (keeps i) settled)
  ]

  open_intent_settled :
      (cloid k : String) (input : IntentInput N) (now : ℕ) (ledger : Ledger N)
      → is_settled k ledger ≡ true
      → is_settled k (open_intent cloid input now ledger) ≡ true
  unfolding open_intent
  open_intent_settled cloid k input now ledger settled = elim (Option-cases (lookup cloid ledger)) [
    | inl e ↦
        rw (e, open_intent) (insert_new_settled cloid k (fresh cloid input now) ledger e settled)
    | inr (i, e) ↦
        rw (e, open_intent) (insert_settled cloid k i (retried now i) ledger e (λ t. t) settled)
  ]

  mark_canceled_settled :
      (cloid k : String) (now : ℕ) (ledger : Ledger N)
      → is_settled k ledger ≡ true
      → is_settled k (mark_canceled cloid now ledger) ≡ true
  unfolding mark_canceled
  mark_canceled_settled cloid k now ledger =
      change_settled cloid k (cancel_intent now) ledger (λ i t. ground arith)

  reconcile_settled :
      (cloid k : String) (status : NormalizedStatus) (now : ℕ) (ledger : Ledger N)
      → is_settled k ledger ≡ true
      → is_settled k (reconcile cloid status now ledger) ≡ true
  unfolding reconcile
  reconcile_settled cloid k status now ledger =
      change_settled cloid k (reconciled status now) ledger (λ i t. ground arith)

  -- The one write that can take an order out of a settled state leaves the other orders alone.
  mark_submitted_settled :
      (cloid k : String) (now : ℕ) (ledger : Ledger N)
      → (cloid == k) ≡ false
      → is_settled k ledger ≡ true
      → is_settled k (mark_submitted cloid now ledger) ≡ true
  unfolding mark_submitted is_settled
  mark_submitted_settled cloid k now ledger other settled =
      elim (Option-cases (lookup cloid ledger)) [
        | inl e ↦ rw (e, change) settled
        | inr (i, e) ↦
            rw
              (
                e,
                change,
                is_settled,
                lookup-insert_other cloid k (moved submitted now i) ledger other,
              )
              settled
      ]

  settled_not_sent :
      (k : String) (ledger : Ledger N) → is_settled k ledger ≡ true → should_submit k ledger ≡ false
  unfolding is_settled should_submit
  settled_not_sent k ledger settled = ground arith

  sent_other :
      (cloid k : String) (ledger : Ledger N)
      → should_submit cloid ledger ≡ true
      → is_settled k ledger ≡ true
      → (cloid == k) ≡ false
  sent_other cloid k ledger h settled = elim (Bool-cases (cloid == k)) [
    | inl e ↦
        let same = ap (λ c. should_submit c ledger) ((string_eq.same_iff cloid k).0 e) in
        absurd (ground (arith, h, same, settled_not_sent k ledger settled))
    | inr e ↦ e
  ]

module _ {N W : Type 0} (client : String → W → Outcome NormalizedStatus × W) where
  -- An order is settled and has not been sent since.
  abbrev Done : String → List String → Desk N W → Type 0
  Done k before d = (is_settled k d.ledger ≡ true) × (times_sent k d.sent ≡ times_sent k before)

  send_order-Done :
      (k cloid : String) (before : List String) (times : Times) (d : Desk N W)
      → (cloid == k) ≡ false
      → Done k before d
      → Done k before (send_order client cloid times d)
  unfolding send_order
  send_order-Done k cloid before times d other (settled, same) =
      let marked = mark_submitted_settled cloid k times.marked_at d.ledger other settled in
      elim (Outcome-cases (client cloid d.world).0) [
        | inl (status, e) ↦
            rw (e, other) (reconcile_settled cloid k status times.settled_at _ marked, same)
        | inr e ↦ rw (e, other) (marked, same)
      ]

  submit_built-Done :
      (k cloid : String) (before : List String) (input : IntentInput N) (times : Times)
      (d : Desk N W)
      → Done k before d
      → Done k before (submit_built client cloid input times d)
  unfolding submit_built
  submit_built-Done k cloid before input times d (settled, same) =
      let ledger = open_intent cloid input times.opened_at d.ledger in
      let opened = open_intent_settled cloid k input times.opened_at d.ledger settled in
      elim (Bool-cases (should_submit cloid ledger)) [
        | inl h ↦ rw h (
            send_order-Done k cloid before times (record d { ledger = ledger })
              (sent_other cloid k ledger h opened) (opened, same))
        | inr h ↦ rw h (opened, same)
      ]

  step-Done :
      (k : String) (before : List String) (e : Event N) (d : Desk N W)
      → Done k before d
      → Done k before (step client e d)
  unfolding step cancel_by_cloid cancel_by_oid
  step-Done k before (submit cloid input times) d done =
      submit_built-Done k cloid before input times d done
  step-Done k before (update cloid status now) d (settled, same) =
      (reconcile_settled cloid k status now d.ledger settled, same)
  step-Done k before (cancel cloid now) d (settled, same) =
      (mark_canceled_settled cloid k now d.ledger settled, same)
  step-Done k before (cancel_oid oid now) d (settled, same) =
      elim (Option-cases (get_by_oid oid d.ledger)) [
        | inl e ↦ rw (e, cancel_by_oid) (settled, same)
        | inr (i, e) ↦
            rw (e, cancel_by_oid) (mark_canceled_settled i.cloid k now d.ledger settled, same)
      ]

  run-Done :
      (k : String) (before : List String) (es : List (Event N)) (d : Desk N W)
      → Done k before d
      → Done k before (run client es d)
  unfolding run
  run-Done k before [] d done = done
  run-Done k before (e ∷ es) d done = run-Done k before es _ (step-Done k before e d done)

  -- Once the ledger holds an order as filled, rejected or canceled, it stays settled and is never sent
  -- again, whatever is submitted, canceled or pushed by the exchange after that, late updates and
  -- retries of the same order included.
  pub settled_never_resent :
      (k : String) (es : List (Event N)) (d : Desk N W)
      → is_settled k d.ledger ≡ true
      → (is_settled k (run client es d).ledger ≡ true)
        × (times_sent k (run client es d).sent ≡ times_sent k d.sent)
  settled_never_resent k es d settled = run-Done k d.sent es d (settled, refl)
