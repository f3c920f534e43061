-- ===== src/Push/Receipts.antt =====
-- `pollPushReceipts` in server/src/push/receiptPoller.ts. `W` is the databases and the push service.
use hyper_solid.Prelude.{
  ℕ, ◌+◌, String, Bool, true, false, Option, none, some, List, [], ◌∷◌, ◌++◌, map, Dict, lookup,
  insert, is_empty, string_eq, if◌then◌else◌,
}
use hyper_solid.Scheduler.Context.{Outcome, ok, thrown, Effect}

-- `ExpoPushReceipt`: `unregistered` stands for `details?.error === "DeviceNotRegistered"`.
pub record PushReceipt : Type 0 where
  pub is_ok : Bool
  pub unregistered : Bool

pub record PollDeps (W : Type 0) : Type 0 where
  pub pending : Effect W (List (String × String))
  pub remove : List String → Effect W (Unit {0})
  pub prune_older : Effect W (Unit {0})
  pub chunk_ids : List String → Outcome (List (List String))
  pub fetch : List String → Effect W (Dict String PushReceipt)
  pub delete_token : String → Effect W (Unit {0})

pub record PollResult : Type 0 where
  pub checked : ℕ
  pub ok_count : ℕ
  pub pruned : ℕ
  pub errors : ℕ

abbrev pub nothing_polled : PollResult
nothing_polled = record { checked = 0; ok_count = 0; pruned = 0; errors = 0 }

-- The counts, the ids processed and the world.
pub record Poll (W : Type 0) : Type 0 where
  pub result : PollResult
  pub processed : List String
  pub world : W

-- `new Map(rows.map((r) => [r.receiptId, r.token]))`
abbrev pub tokens_into : Dict String String → List (String × String) → Dict String String
tokens_into tokens [] = tokens
tokens_into tokens ((id, token) ∷ rows) = tokens_into (insert id token tokens) rows

module _ {W : Type 0} (deps : PollDeps W) where
  unfoldable pub drop_token : Option String → Poll W → Poll W
  drop_token none s = s
  drop_token (some token) s =
      let (answer, w) = deps.delete_token token s.world in
      elim answer [
        | thrown ↦ record s { world = w }
        | ok _ ↦ record s { result = record s.result { pruned = s.result.pruned + 1 }; world = w }
      ]

  unfoldable pub note_receipt : Dict String String → String → PushReceipt → Poll W → Poll W
  unfolding drop_token
  note_receipt tokens id receipt s =
      let seen = record s {
        result = record s.result { checked = s.result.checked + 1 };
        processed = s.processed ++ (id ∷ []);
      } in
      if receipt.is_ok
      then record seen { result = record seen.result { ok_count = seen.result.ok_count + 1 } }
      else let failed = record seen {
        result = record seen.result { errors = seen.result.errors + 1 };
      } in
        if receipt.unregistered then drop_token (lookup id tokens) failed else failed

  -- `for (const receiptId of chunk)`, where a receipt that is not ready is left pending
  unfoldable pub note_receipts :
      Dict String String → Dict String PushReceipt → List String → Poll W → Poll W
  unfolding note_receipt
  note_receipts tokens found [] s = s
  note_receipts tokens found (id ∷ ids) s =
      note_receipts tokens found ids
        (elim (lookup id found) [ none ↦ s | some receipt ↦ note_receipt tokens id receipt s ])

  unfoldable pub poll_chunks : Dict String String → List (List String) → Poll W → Poll W
  unfolding note_receipts
  poll_chunks tokens [] s = s
  poll_chunks tokens (ids ∷ chunks) s =
      let (answer, w) = deps.fetch ids s.world in
      let s' = record s { world = w } in
      poll_chunks tokens chunks
        (elim answer [ thrown ↦ s' | ok found ↦ note_receipts tokens found ids s' ])

  -- The rows that were pending: false where something threw that is not caught further in.
  unfoldable pub poll_rows : List (String × String) → Poll W → Bool × Poll W
  unfolding poll_chunks
  poll_rows rows s =
      if is_empty rows then (true, s) else elim (deps.chunk_ids (map (λ row. row.0) rows)) [
        | thrown ↦ (false, s)
        | ok chunks ↦
            let s' = poll_chunks (tokens_into [] rows) chunks s in
            let (answer, w) = deps.remove s'.processed s'.world in
            (elim answer [ ok _ ↦ true | thrown ↦ false ], record s' { world = w })
      ]

  -- `pollPushReceipts`, which always gives its counts: the outer `catch` ends the work where it is.
  unfoldable pub poll_push_receipts : W → Poll W
  unfolding poll_rows
  poll_push_receipts w =
      let (rows, w') = deps.pending w in
      let start : Poll W = record { result = nothing_polled; processed = []; world = w' } in
      elim rows [
        | thrown ↦ start
        | ok rs ↦
            let (fine, s) = poll_rows rs start in
            if fine then record s { world = (deps.prune_older s.world).1 } else s
      ]
