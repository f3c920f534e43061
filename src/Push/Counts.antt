-- ===== src/Push/Counts.antt =====
-- What server/src/push/notifier.ts reports of the messages that it sent.
use hyper_solid.Prelude.{
  ℕ, ◌+◌, ◌≤◌, String, Bool, true, false, ◌≡◌, refl, inl, inr, Bool-cases, Option, none, some, List,
  [], ◌∷◌, ◌++◌, map, keep, take, drop, length, length-append, arith, ap, sym, ◌∙◌, subst,
}
use hyper_solid.Scheduler.Context.{Outcome, ok, thrown, Outcome-cases}
use hyper_solid.Push.Notifier.{
  PushCategory, PushMessage, PushTicket, PushTokenRow, Notification, NotifierDeps, NotifyResult,
  no_result, fail, prune, note_ticket, note_tickets, send_chunks, messages, deliver, send_to,
  category_on, held_back, notify, first, rest,
}

abbrev pub concat : {A : Type 0} → List (List A) → List A
concat [] = []
concat (xs ∷ xss) = xs ++ concat xss

-- A result counts so many more messages, and no more tokens pruned than errors.
abbrev Adds : ℕ → NotifyResult → NotifyResult → Type 0
Adds n r r' =
    (r'.tokens ≡ r.tokens)
    × (r'.sent + r'.errors ≡ r.sent + r.errors + n)
    × (r'.pruned + r.errors ≤ r.pruned + r'.errors)

Adds-trans : (m n : ℕ) (a b c : NotifyResult) → Adds m a b → Adds n b c → Adds (m + n) a c
Adds-trans m n a b c (t, s, p) (t', s', p') = (t' ∙ t, omega arith, omega arith)

module _ {W : Type 0} (deps : NotifierDeps W) where
  prune-Adds :
      (unregistered : Bool) (token : Option String) (r : NotifyResult) (w : W)
      → Adds 1 r (prune deps unregistered token (fail 1 r, w)).0
  unfolding prune
  prune-Adds false token r w = (refl, omega arith, omega arith)
  prune-Adds true none r w = (refl, omega arith, omega arith)
  prune-Adds true (some t) r w = ground arith

  note_ticket-Adds :
      (ticket : PushTicket) (token : Option String) (r : NotifyResult) (w : W)
      → Adds 1 r (note_ticket deps ticket token (r, w)).0
  unfolding note_ticket
  note_ticket-Adds ticket token r w = elim (Bool-cases ticket.is_ok) [
    | inl h ↦ rw h (refl, omega arith, omega arith)
    | inr h ↦ rw h (prune-Adds ticket.unregistered token r w)
  ]

  note_tickets-Adds :
      (tickets : List PushTicket) (tokens : List String) (s : NotifyResult × W)
      → Adds (length tickets) s.0 (note_tickets deps tickets tokens s).0
  unfolding note_tickets
  note_tickets-Adds [] tokens s = (refl, omega arith, omega arith)
  note_tickets-Adds (ticket ∷ tickets) tokens (r, w) =
      let s' = note_ticket deps ticket (first tokens) (r, w) in
      let (t, n, p) =
        Adds-trans 1 (length tickets) r s'.0 _ (note_ticket-Adds ticket (first tokens) r w)
          (note_tickets-Adds tickets (rest tokens) s') in
      (t, omega (arith, n), p)

  module _
      (one_each : (chunk : List PushMessage) (w : W) (tickets : List PushTicket)
        → (deps.send chunk w).0 ≡ ok tickets
        → length tickets ≡ length chunk) where
    send_chunk-Adds :
        (chunk : List PushMessage) (tokens : List String) (r : NotifyResult) (w w' : W)
        (answer : Outcome (List PushTicket))
        → (deps.send chunk w).0 ≡ answer
        → Adds
            (length chunk)
            r
            (elim answer as (λ _. NotifyResult × W) [
              | ok tickets ↦ note_tickets deps tickets (take (length chunk) tokens) (r, w')
              | thrown ↦ (fail (length chunk) r, w')
            ]).0
    send_chunk-Adds chunk tokens r w w' (ok tickets) e =
        subst (λ n. Adds n r (note_tickets deps tickets (take (length chunk) tokens) (r, w')).0)
          (one_each chunk w tickets e)
          (note_tickets-Adds tickets (take (length chunk) tokens) (r, w'))
    send_chunk-Adds chunk tokens r w w' thrown e = (refl, omega arith, omega arith)

    send_chunks-Adds :
        (chunks : List (List PushMessage)) (tokens : List String) (r : NotifyResult) (w : W)
        → Adds (length (concat chunks)) r (send_chunks deps chunks tokens (r, w)).0
    unfolding send_chunks
    send_chunks-Adds [] tokens r w = (refl, omega arith, omega arith)
    send_chunks-Adds (chunk ∷ chunks) tokens r w =
        let w' = (deps.send chunk w).1 in
        let s' = elim (deps.send chunk w).0 as (λ _. NotifyResult × W) [
          | ok tickets ↦ note_tickets deps tickets (take (length chunk) tokens) (r, w')
          | thrown ↦ (fail (length chunk) r, w')
        ] in
        subst (λ n. Adds n r (send_chunks deps chunks (drop (length chunk) tokens) s').0)
          (sym (length-append chunk (concat chunks)))
          (Adds-trans (length chunk) (length (concat chunks)) r s'.0 _
            (send_chunk-Adds chunk tokens r w w' (deps.send chunk w).0 refl)
            (send_chunks-Adds chunks (drop (length chunk) tokens) s'.0 s'.1))

abbrev pub value_or : {A : Type 0} → A → Outcome A → A
value_or a (ok b) = b
value_or a thrown = a

length-messages :
    (render : Option String → Outcome Notification) (rows : List PushTokenRow)
    (ms : List PushMessage)
    → messages render rows ≡ ok ms
    → length ms ≡ length rows
unfolding messages
length-messages render [] ms e = ground arith
length-messages render (row ∷ rows) ms e = elim (Outcome-cases (render row.locale)) [
  | inl (n, f) ↦ elim (Outcome-cases (messages render rows)) [
    | inl (ms', g) ↦ ground (arith, e, f, g, length-messages render rows ms' g)
    | inr g ↦ absurd (ground (arith, e, f, g))
  ]
  | inr f ↦ absurd (ground (arith, e, f))
]

-- Every message is counted once, and no token is pruned without an error.
abbrev pub Accounted : NotifyResult → Type 0
Accounted r = (r.tokens ≡ r.sent + r.errors) × (r.pruned ≤ r.errors)

module _ {W : Type 0} (deps : NotifierDeps W)
    (one_each : (chunk : List PushMessage) (w : W) (tickets : List PushTicket)
      → (deps.send chunk w).0 ≡ ok tickets
      → length tickets ≡ length chunk)
    (parts : (ms : List PushMessage) (chunks : List (List PushMessage))
      → deps.chunk ms ≡ ok chunks
      → concat chunks ≡ ms) where
  sent_all :
      (rows : List PushTokenRow) (ms : List PushMessage) (chunks : List (List PushMessage))
      (tokens : List String) (w : W)
      → length ms ≡ length rows
      → deps.chunk ms ≡ ok chunks
      → Accounted (send_chunks deps chunks tokens (record no_result { tokens = length rows }, w)).0
  sent_all rows ms chunks tokens w same e =
      let (t, n, p) =
        send_chunks-Adds deps one_each chunks tokens (record no_result { tokens = length rows })
          w in
      let len : length (concat chunks) ≡ length rows = ap length (parts ms chunks e) ∙ same in
      (omega (arith, t, n, len), omega (arith, p))

  deliver-Accounted :
      (render : Option String → Outcome Notification) (rows : List PushTokenRow) (w : W)
      (r : NotifyResult)
      → (deliver deps render rows w).0 ≡ ok r
      → Accounted r
  unfolding deliver
  deliver-Accounted render [] w r e = ground arith
  deliver-Accounted render (row ∷ rows) w r e =
      elim (Outcome-cases (messages render (row ∷ rows))) [
        | inr f ↦ absurd (ground (arith, e, f))
        | inl (ms, f) ↦ elim (Outcome-cases (deps.chunk ms)) [
          | inr g ↦ ground (arith, e, f, g)
          | inl (chunks, g) ↦
              let r0 : NotifyResult = record no_result { tokens = length (row ∷ rows) } in
              let s = send_chunks deps chunks (map (λ row. row.token) (row ∷ rows)) (r0, w) in
              let step : (deliver deps render (row ∷ rows) w).0 ≡ ok s.0 = rw (f, g) refl in
              subst Accounted (ap (λ o. value_or s.0 o) (sym step ∙ e))
                (sent_all (row ∷ rows) ms chunks _ w (length-messages render (row ∷ rows) ms f) g)
        ]
      ]

  send_to-Accounted :
      (render : Option String → Outcome Notification) (owner : String) (w : W) (r : NotifyResult)
      → (send_to deps render owner w).0 ≡ ok r
      → Accounted r
  unfolding send_to
  send_to-Accounted render owner w r e = elim (Outcome-cases (deps.tokens_for_owner owner w).0) [
    | inr f ↦ ground (arith, e, f)
    | inl (rs, f) ↦
        let rows = keep (λ row. deps.is_valid row.token) rs in
        let w' = (deps.tokens_for_owner owner w).1 in
        let step : (send_to deps render owner w).0 ≡ (deliver deps render rows w').0 =
          rw (f, send_to) refl in
        deliver-Accounted render rows w' r (sym step ∙ e)
  ]

  -- Where the push service answers each message of a chunk with a ticket, and chunks are the messages in
  -- order, a notification that returns has counted every message that it had for a valid token
  -- exactly once, as sent or as an error, whatever failed on the way, and has pruned no more tokens
  -- than it had errors.
  pub notify_accounts :
      (owner : String) (category : PushCategory) (render : Option String → Outcome Notification)
      (w : W) (r : NotifyResult)
      → (notify deps owner category render w).0 ≡ ok r
      → Accounted r
  unfolding notify
  notify_accounts owner category render w r e =
      let on = category_on deps owner category w in
      let held = held_back deps owner category on.1 in
      elim (Bool-cases on.0) [
        | inr f ↦ ground (arith, e, f)
        | inl f ↦ elim (Bool-cases held.0) [
          | inl g ↦ ground (arith, e, f, g)
          | inr g ↦
              let step : (notify deps owner category render w).0
                  ≡ (send_to deps render owner held.1).0 =
                rw (f, g) refl in
              send_to-Accounted render owner held.1 r (sym step ∙ e)
        ]
      ]
