-- ===== src/Push/Gates.antt =====
-- The gates of server/src/push/notifier.ts: the categories that an owner has on, and quiet hours.
use hyper_solid.Prelude.{
  String, Bool, not, ◌≡◌, refl, ap, ◌∙◌, Option, List, [], ◌∷◌, keep, map, take, if◌then◌else◌,
  drop, length, inl, inr,
}
use hyper_solid.Scheduler.Context.{Outcome, ok, thrown, Effect, Outcome-cases}
use hyper_solid.Push.Notifier.{
  alerts, Notification, NotifierDeps, NotifyResult, PushTicket, PushMessage, PushTokenRow,
  no_result, category_on, held_back, send_to, notify, note_tickets, note_ticket, keep_receipt,
  prune, send_chunks, deliver, messages, first, rest, fail,
}

module _ {W : Type 0} (deps : NotifierDeps W) (quiet : Option (String → Effect W Bool)) where
  -- The same deps with other quiet hours.
  abbrev pub with_quiet : NotifierDeps W
  with_quiet = record deps { is_quiet_now = quiet }

  note_tickets_same :
      (tickets : List PushTicket) (tokens : List String) (s : NotifyResult × W)
      → note_tickets with_quiet tickets tokens s ≡ note_tickets deps tickets tokens s
  unfolding note_tickets note_ticket keep_receipt prune
  note_tickets_same [] tokens s = refl
  note_tickets_same (ticket ∷ tickets) tokens (r, w) =
      note_tickets_same tickets (rest tokens) (note_ticket deps ticket (first tokens) (r, w))

  answered :
      NotifierDeps W
      → List PushMessage
      → List String
      → NotifyResult
      → W
      → Outcome (List PushTicket)
      → NotifyResult × W
  answered d chunk tokens r w (ok tickets) =
      note_tickets d tickets (take (length chunk) tokens) (r, w)
  answered d chunk tokens r w thrown = (fail (length chunk) r, w)

  send_chunks_same :
      (chunks : List (List PushMessage)) (tokens : List String) (s : NotifyResult × W)
      → send_chunks with_quiet chunks tokens s ≡ send_chunks deps chunks tokens s
  unfolding send_chunks
  send_chunks_same [] tokens s = refl
  send_chunks_same (chunk ∷ chunks) tokens (r, w) =
      let later = drop (length chunk) tokens in
      let w' = (deps.send chunk w).1 in
      elim (Outcome-cases (deps.send chunk w).0) [
        | inl (tickets, e) ↦
            rw (e, send_chunks)
              (send_chunks_same chunks later _
                ∙ ap (send_chunks deps chunks later)
                    (note_tickets_same tickets (take (length chunk) tokens) (r, w')))
        | inr e ↦ rw (e, send_chunks) (send_chunks_same chunks later (fail (length chunk) r, w'))
      ]

  deliver_same :
      (render : Option String → Outcome Notification) (rows : List PushTokenRow) (w : W)
      → deliver with_quiet render rows w ≡ deliver deps render rows w
  unfolding deliver
  deliver_same render [] w = refl
  deliver_same render (row ∷ rows) w = elim (Outcome-cases (messages render (row ∷ rows))) [
    | inr f ↦ rw f refl
    | inl (ms, f) ↦ elim (Outcome-cases (deps.chunk ms)) [
      | inr g ↦ rw (f, g) refl
      | inl (chunks, g) ↦
          rw (f, g)
            (ap (λ s. (ok s.0, s.1))
              (send_chunks_same chunks (map (λ row. row.token) (row ∷ rows))
                (record no_result { tokens = length (row ∷ rows) }, w)))
    ]
  ]

  send_to_same :
      (render : Option String → Outcome Notification) (owner : String) (w : W)
      → send_to with_quiet render owner w ≡ send_to deps render owner w
  unfolding send_to
  send_to_same render owner w = elim (Outcome-cases (deps.tokens_for_owner owner w).0) [
    | inr e ↦ rw (e, send_to) refl
    | inl (rs, e) ↦
        rw (e, send_to)
          (deliver_same render (keep (λ row. deps.is_valid row.token) rs)
            (deps.tokens_for_owner owner w).1)
  ]

  -- An alert goes out, is counted and leaves everything outside as it would with any other quiet hours,
  -- or with none.
  pub alerts_ignore_quiet :
      (owner : String) (render : Option String → Outcome Notification) (w : W)
      → notify with_quiet owner alerts render w ≡ notify deps owner alerts render w
  unfolding notify held_back category_on
  alerts_ignore_quiet owner render w =
      let on = category_on deps owner alerts w in
      ap (λ sent. if not on.0 then (ok no_result, on.1) else sent) (send_to_same render owner on.1)
