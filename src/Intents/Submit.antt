-- ===== src/Intents/Submit.antt =====
-- How mobile/src/services/exchange.ts submits and cancels orders by the ledger of intents. `W` is the
-- exchange; what it answers to an order is taken as `normalizeOrderStatus` reads it.
use hyper_solid.Prelude.{ℕ, String, none, some, List, ◌∷◌, string_eq, if◌then◌else◌}
use hyper_solid.Scheduler.Context.{Outcome, ok, thrown}
use hyper_solid.Intents.Ledger.{
  NormalizedStatus, IntentInput, Ledger, open_intent, mark_submitted, mark_canceled, reconcile,
  should_submit, get_by_oid,
}

-- The app's side of the exchange, with the ids of the orders sent (newest first).
pub record Desk (N W : Type 0) : Type 0 where
  pub ledger : Ledger N
  pub sent : List String
  pub world : W

-- The clock as `open`, `markSubmitted` and `reconcile` read it in turn.
pub record Times : Type 0 where
  pub opened_at : ℕ
  pub marked_at : ℕ
  pub settled_at : ℕ

module _ {N W : Type 0} where
  -- `await this.client.order(params)` under an id: sent, whether or not an answer comes back
  unfoldable pub send_order :
      (String → W → Outcome NormalizedStatus × W) → String → Times → Desk N W → Desk N W
  unfolding mark_submitted reconcile
  send_order client cloid times d =
      let marked = mark_submitted cloid times.marked_at d.ledger in
      let (answer, w) = client cloid d.world in
      record {
        ledger = elim answer [
          | ok status ↦ reconcile cloid status times.settled_at marked
          | thrown ↦ marked
        ];
        sent = cloid ∷ d.sent;
        world = w;
      }

  -- `submitBuilt`
  unfoldable pub submit_built :
      (String → W → Outcome NormalizedStatus × W)
      → String
      → IntentInput N
      → Times
      → Desk N W
      → Desk N W
  unfolding open_intent should_submit send_order
  submit_built client cloid input times d =
      let opened = record d { ledger = open_intent cloid input times.opened_at d.ledger } in
      if should_submit cloid opened.ledger then send_order client cloid times opened else opened

  -- `cancelOrderByCloid`, once the exchange has confirmed it
  unfoldable pub cancel_by_cloid : String → ℕ → Desk N W → Desk N W
  unfolding mark_canceled
  cancel_by_cloid cloid now d = record d { ledger = mark_canceled cloid now d.ledger }

  -- `cancelOrder`, once the exchange has confirmed it
  unfoldable pub cancel_by_oid : ℕ → ℕ → Desk N W → Desk N W
  unfolding cancel_by_cloid get_by_oid
  cancel_by_oid oid now d = elim (get_by_oid oid d.ledger) [
    | none ↦ d
    | some i ↦ cancel_by_cloid i.cloid now d
  ]
