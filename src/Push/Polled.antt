-- ===== src/Push/Polled.antt =====
-- What server/src/push/receiptPoller.ts reports of the receipts that it fetched.
use hyper_solid.Prelude.{
  ◌+◌, ◌≤◌, ◌++◌, ◌⊎◌, All, All-append, subst, sym, if◌then◌else◌, Bool, String, ◌≡◌, refl, inl,
  inr, Bool-cases, Option-cases, Option, none, some, List, [], ◌∷◌, length, length-append, arith,
  is_empty, Dict, lookup, string_eq, map,
}
use hyper_solid.Scheduler.Context.{Outcome, ok, thrown, Outcome-cases}
use hyper_solid.Push.Receipts.{
  PollDeps, PollResult, Poll, PushReceipt, nothing_polled, tokens_into, drop_token, note_receipt,
  note_receipts, poll_chunks, poll_rows, poll_push_receipts,
}

-- Each receipt checked is either fine or an error, a token is pruned only for an error, and as many ids
-- were processed as receipts were checked.
abbrev pub Tallied : PollResult → List String → Type 0
Tallied r processed =
    (r.checked ≡ r.ok_count + r.errors) × (r.pruned ≤ r.errors) × (length processed ≡ r.checked)

module _ {W : Type 0} (deps : PollDeps W) where
  drop_token-Tallied :
      (token : Option String) (s : Poll W)
      → s.result.pruned + 1 ≤ s.result.errors
      → Tallied s.result s.processed
      → Tallied (drop_token deps token s).result (drop_token deps token s).processed
  unfolding drop_token
  drop_token-Tallied none s room t = t
  drop_token-Tallied (some token) s room (sum, few, same) =
      elim (Outcome-cases (deps.delete_token token s.world).0) [
        | inl (_, e) ↦ rw (e, drop_token) (sum, room, same)
        | inr e ↦ rw (e, drop_token) (sum, few, same)
      ]

  note_receipt-Tallied :
      (tokens : Dict String String) (id : String) (receipt : PushReceipt) (s : Poll W)
      → Tallied s.result s.processed
      → Tallied
          (note_receipt deps tokens id receipt s).result
          (note_receipt deps tokens id receipt s).processed
  unfolding note_receipt
  note_receipt-Tallied tokens id receipt s (sum, few, same) =
      let len = length-append s.processed (id ∷ []) in
      elim (Bool-cases receipt.is_ok) [
        | inl h ↦ rw h (omega (arith, sum), few, omega (arith, len, same))
        | inr h ↦ elim (Bool-cases receipt.unregistered) [
          | inr g ↦ rw (h, g) (omega (arith, sum), omega (arith, few), omega (arith, len, same))
          | inl g ↦
              rw (h, g)
                (drop_token-Tallied (lookup id tokens) _ (omega (arith, few))
                  (omega (arith, sum), omega (arith, few), omega (arith, len, same)))
        ]
      ]

  note_receipts-Tallied :
      (tokens : Dict String String) (found : Dict String PushReceipt) (ids : List String)
      (s : Poll W)
      → Tallied s.result s.processed
      → Tallied
          (note_receipts deps tokens found ids s).result
          (note_receipts deps tokens found ids s).processed
  unfolding note_receipts
  note_receipts-Tallied tokens found [] s t = t
  note_receipts-Tallied tokens found (id ∷ ids) s t = elim (Option-cases (lookup id found)) [
    | inl e ↦ rw (e, note_receipts) (note_receipts-Tallied tokens found ids s t)
    | inr (receipt, e) ↦
        rw (e, note_receipts)
          (note_receipts-Tallied tokens found ids (note_receipt deps tokens id receipt s)
            (note_receipt-Tallied tokens id receipt s t))
  ]

  poll_chunks-Tallied :
      (tokens : Dict String String) (chunks : List (List String)) (s : Poll W)
      → Tallied s.result s.processed
      → Tallied
          (poll_chunks deps tokens chunks s).result
          (poll_chunks deps tokens chunks s).processed
  unfolding poll_chunks
  poll_chunks-Tallied tokens [] s t = t
  poll_chunks-Tallied tokens (ids ∷ chunks) s t =
      let s' = record s { world = (deps.fetch ids s.world).1 } in
      elim (Outcome-cases (deps.fetch ids s.world).0) [
        | inr e ↦ rw (e, poll_chunks) (poll_chunks-Tallied tokens chunks s' t)
        | inl (found, e) ↦
            rw (e, poll_chunks)
              (poll_chunks-Tallied tokens chunks (note_receipts deps tokens found ids s')
                (note_receipts-Tallied tokens found ids s' t))
      ]

  poll_rows-Tallied :
      (rows : List (String × String)) (s : Poll W)
      → Tallied s.result s.processed
      → Tallied (poll_rows deps rows s).1.result (poll_rows deps rows s).1.processed
  unfolding poll_rows
  poll_rows-Tallied rows s t = elim (Bool-cases (is_empty rows)) [
    | inl h ↦ rw h t
    | inr h ↦ elim (Outcome-cases (deps.chunk_ids (map (λ row. row.0) rows))) [
      | inr e ↦ rw (h, e) t
      | inl (chunks, e) ↦ rw (h, e) (poll_chunks-Tallied (tokens_into [] rows) chunks s t)
    ]
  ]

  -- The push service has answered a receipt of this id.
  abbrev pub Answered : String → Type 0
  Answered id =
      (ids : List String) × (w : W) × (found : Dict String PushReceipt) × (receipt : PushReceipt)
      × ((deps.fetch ids w).0 ≡ ok found)
      × (lookup id found ≡ some receipt)

  drop_token-processed :
      (token : Option String) (s : Poll W) → (drop_token deps token s).processed ≡ s.processed
  unfolding drop_token
  drop_token-processed none s = refl
  drop_token-processed (some token) s = elim (Outcome-cases (deps.delete_token token s.world).0) [
    | inl (_, e) ↦ rw (e, drop_token) refl
    | inr e ↦ rw (e, drop_token) refl
  ]

  note_receipt-processed :
      (tokens : Dict String String) (id : String) (receipt : PushReceipt) (s : Poll W)
      → (note_receipt deps tokens id receipt s).processed ≡ s.processed ++ id ∷ []
  unfolding note_receipt
  note_receipt-processed tokens id receipt s = elim (Bool-cases receipt.is_ok) [
    | inl h ↦ rw h refl
    | inr h ↦ elim (Bool-cases receipt.unregistered) [
      | inr g ↦ rw (h, g) refl
      | inl g ↦ rw (h, g) (drop_token-processed (lookup id tokens) _)
    ]
  ]

  note_receipts-Answered :
      (tokens : Dict String String) (found : Dict String PushReceipt) (asked ids : List String)
      (w : W) (s : Poll W)
      → (deps.fetch asked w).0 ≡ ok found
      → All Answered s.processed
      → All Answered (note_receipts deps tokens found ids s).processed
  unfolding note_receipts
  note_receipts-Answered tokens found asked [] w s got h = h
  note_receipts-Answered tokens found asked (id ∷ ids) w s got h =
      elim (Option-cases (lookup id found)) [
        | inl e ↦ rw (e, note_receipts) (note_receipts-Answered tokens found asked ids w s got h)
        | inr (receipt, e) ↦
            rw (e, note_receipts)
              (note_receipts-Answered tokens found asked ids w
                (note_receipt deps tokens id receipt s) got
                (subst (All Answered) (sym (note_receipt-processed tokens id receipt s)) (
                  All-append Answered s.processed (id ∷ []) h
                    ((asked, w, found, receipt, got, e), tt))))
      ]

  poll_chunks-Answered :
      (tokens : Dict String String) (chunks : List (List String)) (s : Poll W)
      → All Answered s.processed
      → All Answered (poll_chunks deps tokens chunks s).processed
  unfolding poll_chunks
  poll_chunks-Answered tokens [] s h = h
  poll_chunks-Answered tokens (ids ∷ chunks) s h =
      let s' = record s { world = (deps.fetch ids s.world).1 } in
      elim (Outcome-cases (deps.fetch ids s.world).0) [
        | inr e ↦ rw (e, poll_chunks) (poll_chunks-Answered tokens chunks s' h)
        | inl (found, e) ↦
            rw (e, poll_chunks)
              (poll_chunks-Answered tokens chunks (note_receipts deps tokens found ids s')
                (note_receipts-Answered tokens found ids ids s.world s' e h))
      ]

  -- Old receipts are pruned where the removal did not throw.
  abbrev pub closed : Outcome (Unit {0}) → W → W
  closed (ok _) w = (deps.prune_older w).1
  closed thrown w = w

  -- Nothing was processed, or the last that was done is to remove what was, and to prune.
  abbrev pub Ended : List String → W → Type 0
  Ended processed w =
      (processed ≡ [])
      ⊎ ((before : W) × (let (answer, removed) = deps.remove processed before in
            w ≡ closed answer removed))

  poll_rows-Ended :
      (rows : List (String × String)) (s : Poll W)
      → s.processed ≡ []
      → (let (fine, t) = poll_rows deps rows s in
          All Answered t.processed
          × Ended t.processed (if fine then (deps.prune_older t.world).1 else t.world))
  unfolding poll_rows
  poll_rows-Ended rows s none_yet =
      let start : All Answered s.processed = subst (All Answered) (sym none_yet) tt in
      elim (Bool-cases (is_empty rows)) [
        | inl h ↦ rw h (start, inl none_yet)
        | inr h ↦ elim (Outcome-cases (deps.chunk_ids (map (λ row. row.0) rows))) [
          | inr e ↦ rw (h, e) (start, inl none_yet)
          | inl (chunks, e) ↦
              let t = poll_chunks deps (tokens_into [] rows) chunks s in
              let each = poll_chunks-Answered (tokens_into [] rows) chunks s start in
              elim (Outcome-cases (deps.remove t.processed t.world).0) [
                | inr f ↦ rw (h, e, f) (each, inr (t.world, rw f refl))
                | inl (_, f) ↦ rw (h, e, f) (each, inr (t.world, rw f refl))
              ]
        ]
      ]

  -- Whatever fails on the way, each receipt that was checked is counted as fine or as an error, a token
  -- is pruned only for an error, and the ids that were processed are as many as the receipts that were
  -- checked, each the id of a receipt that the service has answered. Where there is one, the poll ends
  -- by removing just those ids and, if that does not throw, by pruning old ones.
  pub poll_tallies :
      (w : W)
      → (let p = poll_push_receipts deps w in
          Tallied p.result p.processed × All Answered p.processed × Ended p.processed p.world)
  unfolding poll_push_receipts
  poll_tallies w =
      let start : Poll W = record {
        result = nothing_polled;
        processed = [];
        world = (deps.pending w).1;
      } in
      elim (Outcome-cases (deps.pending w).0) [
        | inr e ↦ rw (e, poll_push_receipts) ((refl, omega arith, refl), tt, inl refl)
        | inl (rows, e) ↦
            let t = poll_rows-Tallied rows start (refl, omega arith, refl) in
            let (each, end) = poll_rows-Ended rows start refl in
            let r = poll_rows deps rows start in
            let after : Bool → Type 0 =
              λ b. Ended r.1.processed (if b then (deps.prune_older r.1.world).1 else r.1.world) in
            elim (Bool-cases (poll_rows deps rows start).0) [
              | inl h ↦ rw (e, poll_push_receipts, h) (t, each, subst after h end)
              | inr h ↦ rw (e, poll_push_receipts, h) (t, each, subst after h end)
            ]
      ]
