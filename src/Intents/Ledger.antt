-- ===== src/Intents/Ledger.antt =====
-- The ledger of order intents, mobile/src/lib/hyperliquid/intentLedger.ts. `N` is the type of sizes
-- and prices, which the ledger only stores. Each operation takes the time that its clock reads.
use hyper_solid.Prelude.{
  ℕ, ◌+◌, String, Bool, true, false, not, ◌&&◌, Option, none, some, List, [], ◌∷◌, map, Dict,
  lookup, insert, keep, string_eq, nat_eqb, if◌then◌else◌,
}
use hyper_solid.Strategies.Types.{Side}

pub data IntentStatus : Type 0 where
  pending submitted opened filled rejected canceled : IntentStatus

-- mobile/src/lib/hyperliquid/order.ts
pub data OrderStatusKind : Type 0 where
  is_resting is_filled is_rejected is_canceled is_waiting is_unknown : OrderStatusKind

pub record NormalizedStatus : Type 0 where
  pub kind : OrderStatusKind
  pub message : String
  pub code : Option String
  pub oid : Option ℕ
  pub cloid : Option String
  pub total_sz : Option String
  pub avg_px : Option String

pub record OrderIntent (N : Type 0) : Type 0 where
  pub cloid : String
  pub coin : String
  pub side : Side
  pub size : N
  pub price : N
  pub status : IntentStatus
  pub attempts : ℕ
  pub oid : Option ℕ
  pub reason : Option String
  pub created_at : ℕ
  pub updated_at : ℕ

pub record IntentInput (N : Type 0) : Type 0 where
  pub coin : String
  pub side : Side
  pub size : N
  pub price : N

abbrev pub is_terminal_status : IntentStatus → Bool
is_terminal_status filled = true
is_terminal_status rejected = true
is_terminal_status canceled = true
is_terminal_status _ = false

abbrev pub intent_status_from_kind : OrderStatusKind → IntentStatus
intent_status_from_kind is_resting = opened
intent_status_from_kind is_waiting = opened
intent_status_from_kind is_filled = filled
intent_status_from_kind is_rejected = rejected
intent_status_from_kind is_canceled = canceled
intent_status_from_kind is_unknown = submitted

abbrev pub is_unsent : IntentStatus → Bool
is_unsent pending = true
is_unsent submitted = true
is_unsent _ = false

-- `next === "rejected" || next === "canceled"`
abbrev pub has_reason : IntentStatus → Bool
has_reason rejected = true
has_reason canceled = true
has_reason _ = false

-- `if (status.oid !== undefined) intent.oid = status.oid;`
abbrev pub newer_oid : Option ℕ → Option ℕ → Option ℕ
newer_oid (some oid) old = some oid
newer_oid none old = old

abbrev has_oid : ℕ → Option ℕ → Bool
has_oid oid none = false
has_oid oid (some o) = nat_eqb o oid

-- `MemoryIntentStore`
abbrev pub Ledger : Type 0 → Type 0
Ledger N = Dict String (OrderIntent N)

module _ {N : Type 0} where
  -- What `open` does to an intent that is there, and the one that it makes.
  abbrev pub retried : ℕ → OrderIntent N → OrderIntent N
  retried now i = record i { attempts = i.attempts + 1; updated_at = now }

  abbrev pub fresh : String → IntentInput N → ℕ → OrderIntent N
  fresh cloid input now = record {
    cloid = cloid;
    coin = input.coin;
    side = input.side;
    size = input.size;
    price = input.price;
    status = pending;
    attempts = 1;
    oid = none;
    reason = none;
    created_at = now;
    updated_at = now;
  }

  -- `open`, under the id of the input or a new one
  unfoldable pub open_intent : String → IntentInput N → ℕ → Ledger N → Ledger N
  open_intent cloid input now ledger = elim (lookup cloid ledger) [
    | none ↦ insert cloid (fresh cloid input now) ledger
    | some existing ↦ insert cloid (retried now existing) ledger
  ]

  -- `if (!i) return undefined;`, and a write of the intent otherwise
  abbrev pub change : String → (OrderIntent N → OrderIntent N) → Ledger N → Ledger N
  change cloid f ledger = elim (lookup cloid ledger) [
    | none ↦ ledger
    | some i ↦ insert cloid (f i) ledger
  ]

  abbrev pub moved : IntentStatus → ℕ → OrderIntent N → OrderIntent N
  moved status now i = record i { status = status; updated_at = now }

  unfoldable pub mark_submitted : String → ℕ → Ledger N → Ledger N
  mark_submitted cloid now = change cloid (moved submitted now)

  abbrev pub cancel_intent : ℕ → OrderIntent N → OrderIntent N
  cancel_intent now i = if is_terminal_status i.status then i else moved canceled now i

  unfoldable pub mark_canceled : String → ℕ → Ledger N → Ledger N
  mark_canceled cloid now = change cloid (cancel_intent now)

  abbrev pub reconciled : NormalizedStatus → ℕ → OrderIntent N → OrderIntent N
  reconciled status now i =
      let next = intent_status_from_kind status.kind in
      if is_terminal_status i.status && not (is_terminal_status next) then i else record i {
        status = next;
        oid = newer_oid status.oid i.oid;
        reason = if has_reason next then some status.message else i.reason;
        updated_at = now;
      }

  unfoldable pub reconcile : String → NormalizedStatus → ℕ → Ledger N → Ledger N
  reconcile cloid status now = change cloid (reconciled status now)

  unfoldable pub is_settled : String → Ledger N → Bool
  is_settled cloid ledger = elim (lookup cloid ledger) [
    | none ↦ false
    | some i ↦ is_terminal_status i.status
  ]

  unfoldable pub should_submit : String → Ledger N → Bool
  should_submit cloid ledger = elim (lookup cloid ledger) [
    | none ↦ true
    | some i ↦ is_unsent i.status
  ]

  unfoldable pub pending_intents : Ledger N → List (OrderIntent N)
  pending_intents ledger = keep (λ i. is_unsent i.status) (map (λ kv. kv.1) ledger)

  -- `getByOid`
  unfoldable pub get_by_oid : ℕ → Ledger N → Option (OrderIntent N)
  get_by_oid oid [] = none
  get_by_oid oid ((_, i) ∷ ledger) = if has_oid oid i.oid then some i else get_by_oid oid ledger
