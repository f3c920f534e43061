-- ===== src/Intents/Identity.antt =====
-- What an entry of the ledger in mobile/src/lib/hyperliquid/intentLedger.ts is: the order that it was
-- opened for, whatever happens to its status.
use hyper_solid.Prelude.{
  ℕ, ◌≤◌, String, ◌≡◌, refl, inl, inr, Bool-cases, Option-cases, none, some, arith, lookup, insert,
  lookup-insert, string_eq, ◌==◌, ap, ◌∙◌, sym, subst, get_or,
}
use hyper_solid.Intents.Ledger.{
  NormalizedStatus, IntentInput, OrderIntent, Ledger, open_intent, mark_submitted, mark_canceled,
  reconcile, change, cancel_intent, reconciled, retried, fresh,
}

module _ {N : Type 0} where
  -- The order is the same one, tried no fewer times.
  abbrev pub SameOrder : OrderIntent N → OrderIntent N → Type 0
  SameOrder i j =
      (j.cloid ≡ i.cloid)
      × (j.coin ≡ i.coin)
      × (j.side ≡ i.side)
      × (j.size ≡ i.size)
      × (j.price ≡ i.price)
      × (j.created_at ≡ i.created_at)
      × (i.attempts ≤ j.attempts)

  -- The entry of an id is still there for the same order.
  abbrev pub StillThere : String → OrderIntent N → Ledger N → Type 0
  StillThere k i ledger = (j : OrderIntent N) × (lookup k ledger ≡ some j) × SameOrder i j

  insert-StillThere :
      (cloid k : String) (i j old : OrderIntent N) (ledger : Ledger N)
      → lookup cloid ledger ≡ some old
      → SameOrder old j
      → lookup k ledger ≡ some i
      → StillThere k i (insert cloid j ledger)
  insert-StillThere cloid k i j old ledger e same here = elim (Bool-cases (cloid == k)) [
    | inl h ↦
        let one : some old ≡ some i =
          sym e ∙ (ap (λ c. lookup c ledger) ((string_eq.same_iff cloid k).0 h) ∙ here) in
        (
          j,
          rw (lookup-insert cloid k j ledger, h) refl,
          subst (λ o. SameOrder o j) (ap (λ o. get_or o old) one) same,
        )
    | inr h ↦ (
      i,
      rw (lookup-insert cloid k j ledger, h) here,
      (refl, refl, refl, refl, refl, refl, omega arith),
    )
  ]

  new-StillThere :
      (cloid k : String) (i j : OrderIntent N) (ledger : Ledger N)
      → lookup cloid ledger ≡ none
      → lookup k ledger ≡ some i
      → StillThere k i (insert cloid j ledger)
  new-StillThere cloid k i j ledger e here = elim (Bool-cases (cloid == k)) [
    | inl h ↦
        let same = ap (λ c. lookup c ledger) ((string_eq.same_iff cloid k).0 h) in
        absurd (ground (arith, e, same, here))
    | inr h ↦ (
      i,
      rw (lookup-insert cloid k j ledger, h) here,
      (refl, refl, refl, refl, refl, refl, omega arith),
    )
  ]

  change-StillThere :
      (cloid k : String) (f : OrderIntent N → OrderIntent N) (i : OrderIntent N) (ledger : Ledger N)
      → ((old : OrderIntent N) → SameOrder old (f old))
      → lookup k ledger ≡ some i
      → StillThere k i (change cloid f ledger)
  change-StillThere cloid k f i ledger same here = elim (Option-cases (lookup cloid ledger)) [
    | inl e ↦ rw (e, change) (i, here, (refl, refl, refl, refl, refl, refl, omega arith))
    | inr (old, e) ↦
        rw (e, change) (insert-StillThere cloid k i (f old) old ledger e (same old) here)
  ]

  cancel_intent-SameOrder : (now : ℕ) (i : OrderIntent N) → SameOrder i (cancel_intent now i)
  cancel_intent-SameOrder now i = ground arith

  reconciled-SameOrder :
      (status : NormalizedStatus) (now : ℕ) (i : OrderIntent N)
      → SameOrder i (reconciled status now i)
  reconciled-SameOrder status now i = ground arith

  -- Opening an order again makes no second entry and changes nothing of it but the number of tries.
  opened-StillThere :
      (cloid k : String) (input : IntentInput N) (now : ℕ) (i : OrderIntent N) (ledger : Ledger N)
      → lookup k ledger ≡ some i
      → StillThere k i (open_intent cloid input now ledger)
  unfolding open_intent
  opened-StillThere cloid k input now i ledger here = elim (Option-cases (lookup cloid ledger)) [
    | inl e ↦ rw (e, open_intent) (new-StillThere cloid k i (fresh cloid input now) ledger e here)
    | inr (old, e) ↦
        rw (e, open_intent)
          (insert-StillThere cloid k i (retried now old) old ledger e
            (refl, refl, refl, refl, refl, refl, omega arith) here)
  ]

module _ {N : Type 0} where
  -- An order that the ledger holds is kept by every operation as the same order: its id, coin, side,
  -- size, price and time of creation never change, and it is tried no fewer times, also when it is
  -- opened again with another input.
  pub intent_kept :
      (k cloid : String) (input : IntentInput N) (status : NormalizedStatus) (now : ℕ)
      (i : OrderIntent N) (ledger : Ledger N)
      → lookup k ledger ≡ some i
      → StillThere k i (open_intent cloid input now ledger)
        × StillThere k i (mark_submitted cloid now ledger)
        × StillThere k i (mark_canceled cloid now ledger)
        × StillThere k i (reconcile cloid status now ledger)
  unfolding mark_submitted mark_canceled reconcile
  intent_kept k cloid input status now i ledger here = (
    opened-StillThere cloid k input now i ledger here,
    change-StillThere cloid k _ i ledger (λ old. (refl, refl, refl, refl, refl, refl, omega arith))
        here,
    change-StillThere cloid k _ i ledger (cancel_intent-SameOrder now) here,
    change-StillThere cloid k _ i ledger (reconciled-SameOrder status now) here,
  )
