-- ===== src/Intents/Tests.antt =====
-- The app's order flow on a concrete ledger, and its theorems there.
use hyper_solid.Prelude.{ℕ, ◌+◌, String, true, ◌≡◌, refl, none, some, List, [], ◌∷◌, string_eq}
use hyper_solid.Strategies.Types.{buy}
use hyper_solid.Scheduler.Context.{Outcome, ok}
use hyper_solid.Intents.Ledger.{
  NormalizedStatus, is_resting, IntentInput, OrderIntent, filled, open_intent, mark_submitted,
  mark_canceled, reconcile, is_settled,
}
use hyper_solid.Intents.Submit.{Desk, Times}
use hyper_solid.Intents.Steps.{Event, submit, update, cancel, run}
use hyper_solid.Intents.Settled.{times_sent, settled_never_resent}
use hyper_solid.Intents.Identity.{StillThere, intent_kept}

abbrev input : IntentInput ℕ
input = record { coin = "BTC"; side = buy; size = 2; price = 50 }

abbrev times : Times
times = record { opened_at = 1; marked_at = 2; settled_at = 3 }

abbrev filled_intent : OrderIntent ℕ
filled_intent = record {
  cloid = "0x1";
  coin = "BTC";
  side = buy;
  size = 2;
  price = 50;
  status = filled;
  attempts = 1;
  oid = some 7;
  reason = none;
  created_at = 0;
  updated_at = 0;
}

abbrev desk : Desk ℕ ℕ
desk = record { ledger = ("0x1", filled_intent) ∷ []; sent = "0x1" ∷ []; world = 0 }

-- The exchange answers that the order rests.
abbrev client : String → ℕ → Outcome NormalizedStatus × ℕ
client cloid w = (
  ok (record {
    kind = is_resting;
    message = "";
    code = none;
    cloid = none;
    total_sz = none;
    avg_px = none;
    oid = some 8;
  }),
  w + 1,
)

abbrev late : NormalizedStatus
late = record {
  kind = is_resting;
  message = "late";
  code = none;
  cloid = none;
  total_sz = none;
  avg_px = none;
  oid = some 7;
}

abbrev events : List (Event ℕ)
events =
    submit "0x1" input times ∷ update "0x1" late 9 ∷ submit "0x2" input times ∷ cancel "0x1" 10 ∷ []

settled_never_resent_example :
    (is_settled "0x1" (run client events desk).ledger ≡ true)
    × (times_sent "0x1" (run client events desk).sent ≡ 1)
unfolding is_settled
settled_never_resent_example = settled_never_resent client "0x1" events desk refl

intent_kept_example :
    StillThere "0x1" filled_intent (open_intent "0x2" input 4 desk.ledger)
    × StillThere "0x1" filled_intent (mark_submitted "0x2" 4 desk.ledger)
    × StillThere "0x1" filled_intent (mark_canceled "0x2" 4 desk.ledger)
    × StillThere "0x1" filled_intent (reconcile "0x2" late 4 desk.ledger)
intent_kept_example = intent_kept "0x1" "0x2" input late 4 filled_intent desk.ledger refl
