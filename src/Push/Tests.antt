-- ===== src/Push/Tests.antt =====
-- The notifications on concrete deps, and their theorems there.
use hyper_solid.Prelude.{
  All, ℕ, ◌+◌, String, true, false, not, ◌≡◌, refl, Option, none, some, List, [], ◌∷◌, map, length,
  subst, ap, ◌++◌, ◌/◌, ◌%◌, arith,
}
use hyper_solid.Number.{Cents, pos, cents_number}
use hyper_solid.Strategies.Store.{find}
use hyper_solid.Scheduler.Context.{Outcome, ok}
use hyper_solid.Scheduler.Fixtures.{entries}
use hyper_solid.Push.QuietHours.{QuietHours, is_within_quiet_hours, quiet_split}
use hyper_solid.Number.{Cents, pos}
use hyper_solid.Push.Stores.{PrefRow, get_prefs, set_prefs, is_enabled}
use hyper_solid.Push.Kept.{get_prefs-set_prefs}
use hyper_solid.Push.Notifier.{
  fills, alerts, Notification, PushMessage, PushTicket, NotifierDeps, NotifyResult, notify, send_to,
  category_on, note_tickets, note_ticket, prune, deliver, messages, send_chunks, held_back,
}
use hyper_solid.Push.Counts.{Accounted, notify_accounts, concat, value_or}
use hyper_solid.Push.Gates.{with_quiet, alerts_ignore_quiet}
use hyper_solid.Push.Receipts.{PollDeps, poll_push_receipts}
use hyper_solid.Push.Polled.{Tallied, Answered, Ended, poll_tallies}
use hyper_solid.Push.Completed.{was_completed}
use hyper_solid.Push.Once.{Write, fill, trigger, writes, times_announced, one_if, announced_once}

abbrev night : QuietHours
night = record { enabled = true; start = 1320; stop = 420; tz = "UTC" }

abbrev minute : ℕ → String → Option ℕ
minute now tz = some ((now / 60_000) % 1440)

quiet_split_example :
    is_within_quiet_hours minute night 0
    ≡ not (is_within_quiet_hours minute (record night { start = 420; stop = 1320 }) 0)
quiet_split_example = quiet_split minute night 0 0 refl refl refl

-- Two devices; the ticket of every message is an error of an unregistered device.
abbrev ticket : PushTicket
ticket = record { is_ok = false; id = none; unregistered = true }

abbrev deps : NotifierDeps ℕ
deps = record {
  chunk = λ ms. ok (ms ∷ []);
  send = λ ms w. (ok (map (λ _. ticket) ms), w);
  tokens_for_owner = λ owner w.
      (ok (record { token = "a"; locale = none } ∷ record { token = "b"; locale = none } ∷ []), w);
  delete_token = λ token w. (ok tt, w + 1);
  is_enabled = none;
  is_quiet_now = some (λ owner w. (ok true, w));
  record_receipt = none;
  is_valid = λ token. true;
}

abbrev render : Option String → Outcome Notification
render locale = ok (record { title = "t"; body = "b" })

abbrev two_errors : NotifyResult
two_errors = record { tokens = 2; sent = 0; errors = 2; pruned = 2 }

ticket_each : (ms : List PushMessage) → length (map (λ _. ticket) ms) ≡ length ms
ticket_each [] = refl
ticket_each (m ∷ ms) = omega (arith, ticket_each ms)

one_each :
    (chunk : List PushMessage) (w : ℕ) (tickets : List PushTicket)
    → (deps.send chunk w).0 ≡ ok tickets
    → length tickets ≡ length chunk
one_each chunk w tickets e =
    subst (λ o. length (value_or [] o) ≡ length chunk) e (ticket_each chunk)

append_nil : (ms : List PushMessage) → ms ++ [] ≡ ms
append_nil [] = refl
append_nil (m ∷ ms) = ap (λ t. m ∷ t) (append_nil ms)

parts :
    (ms : List PushMessage) (chunks : List (List PushMessage))
    → deps.chunk ms ≡ ok chunks
    → concat chunks ≡ ms
parts ms chunks e = subst (λ o. concat (value_or [] o) ≡ ms) e (append_nil ms)

notify_accounts_example : Accounted two_errors
unfolding notify category_on held_back send_to deliver messages send_chunks note_tickets note_ticket
    prune
notify_accounts_example = notify_accounts deps one_each parts "0xA" alerts render 0 two_errors refl

alerts_ignore_quiet_example :
    notify (with_quiet deps none) "0xA" alerts render 0 ≡ notify deps "0xA" alerts render 0
alerts_ignore_quiet_example = alerts_ignore_quiet deps none "0xA" render 0

abbrev poll_deps : PollDeps ℕ
poll_deps = record {
  pending = λ w. (ok (("r1", "a") ∷ ("r2", "b") ∷ []), w);
  remove = λ ids w. (ok tt, w);
  prune_older = λ w. (ok tt, w);
  chunk_ids = λ ids. ok (ids ∷ []);
  fetch = λ ids w. (ok (("r1", record { is_ok = false; unregistered = true }) ∷ []), w);
  delete_token = λ token w. (ok tt, w + 1);
}

poll_tallies_example :
    (let p = poll_push_receipts poll_deps 0 in
      Tallied p.result p.processed
      × All (Answered poll_deps) p.processed
      × Ended poll_deps p.processed p.world)
poll_tallies_example = poll_tallies poll_deps 0

abbrev recorded : List (Write Cents)
recorded = trigger "s" (pos 1) ∷ trigger "s" (pos 2) ∷ fill "t" (pos 5) (pos 9) ∷ []

announced_once_example :
    times_announced "s"
        (writes recorded (record { inner = entries.store; announced = [] })).announced
      + one_if (was_completed (find "s" entries.store))
    ≡ one_if (
        was_completed
          (find "s" (writes recorded (record { inner = entries.store; announced = [] })).inner))
announced_once_example = announced_once "s" recorded entries.store

abbrev pref_rows : List (PrefRow Cents)
pref_rows = record { owner = "0xa"; category = fills; enabled = false; updated_at = pos 1 } ∷ []

get_prefs-set_prefs_example :
    get_prefs
      (λ s. s)
      "0xa"
      (set_prefs
        (λ s. s)
        "0xa"
        (record { fills = none; alerts = some false; lifecycle = none })
        (pos 2)
        pref_rows)
    ≡ record { fills = false; alerts = false; lifecycle = true }
unfolding get_prefs is_enabled
get_prefs-set_prefs_example =
    get_prefs-set_prefs (λ s. s) "0xa" "0xa"
      (record { fills = none; alerts = some false; lifecycle = none }) (pos 2) pref_rows
