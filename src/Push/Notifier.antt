-- ===== src/Push/Notifier.antt =====
-- `Notifier` in server/src/push/notifier.ts. `W` is the databases and the push service. A notification
-- is rendered once for each locale there and once for each row here, which is the same, since
-- `render` is a function of the locale.
use hyper_solid.Prelude.{
  ℕ, ◌+◌, String, Bool, true, false, not, Option, none, some, List, [], ◌∷◌, map, keep, take, drop,
  length, is_empty, if◌then◌else◌,
}
use hyper_solid.Scheduler.Context.{Outcome, ok, thrown, Effect}

pub data PushCategory : Type 0 where
  fills alerts lifecycle : PushCategory

pub record Notification : Type 0 where
  pub title : String
  pub body : String

pub record PushTokenRow : Type 0 where
  pub token : String
  pub locale : Option String

pub record PushMessage : Type 0 where
  pub to : String
  pub content : Notification

-- `ExpoPushTicket`: `unregistered` stands for `details?.error === "DeviceNotRegistered"`.
pub record PushTicket : Type 0 where
  pub is_ok : Bool
  pub id : Option String
  pub unregistered : Bool

pub record NotifierDeps (W : Type 0) : Type 0 where
  pub chunk : List PushMessage → Outcome (List (List PushMessage))
  pub send : List PushMessage → Effect W (List PushTicket)
  pub tokens_for_owner : String → Effect W (List PushTokenRow)
  pub delete_token : String → Effect W (Unit {0})
  pub is_enabled : Option (String → PushCategory → Effect W Bool)
  pub is_quiet_now : Option (String → Effect W Bool)
  pub record_receipt : Option (String → String → Effect W (Unit {0}))
  pub is_valid : String → Bool

pub record NotifyResult : Type 0 where
  pub tokens : ℕ
  pub sent : ℕ
  pub errors : ℕ
  pub pruned : ℕ

abbrev pub no_result : NotifyResult
no_result = record { tokens = 0; sent = 0; errors = 0; pruned = 0 }

-- `QUIETABLE`
abbrev pub is_quietable : PushCategory → Bool
is_quietable alerts = false
is_quietable _ = true

abbrev pub fail : ℕ → NotifyResult → NotifyResult
fail n r = record r { errors = r.errors + n }

-- `chunkTokens[i]`, and the tokens after it
abbrev pub first : List String → Option String
first [] = none
first (t ∷ _) = some t

abbrev pub rest : List String → List String
rest [] = []
rest (_ ∷ ts) = ts

-- The messages of the rows; a `render` that throws is not caught.
unfoldable pub messages :
    (Option String → Outcome Notification) → List PushTokenRow → Outcome (List PushMessage)
messages render [] = ok []
messages render (row ∷ rows) = elim (render row.locale) [
  | thrown ↦ thrown
  | ok n ↦ elim (messages render rows) [
    | thrown ↦ thrown
    | ok ms ↦ ok (record { to = row.token; content = n } ∷ ms)
  ]
]

module _ {W : Type 0} where
  -- `if (this.receipts && ticket.id && token) try { record } catch`
  unfoldable pub keep_receipt : NotifierDeps W → Option String → Option String → W → W
  keep_receipt deps id token w = elim deps.record_receipt [
    | none ↦ w
    | some put ↦ elim id [ none ↦ w | some i ↦ elim token [ none ↦ w | some t ↦ (put i t w).1 ] ]
  ]

  -- `if (... === "DeviceNotRegistered" && token) try { deleteToken; pruned++ } catch`
  unfoldable pub prune : NotifierDeps W → Bool → Option String → NotifyResult × W → NotifyResult × W
  prune deps unregistered token (r, w) = if not unregistered then (r, w) else elim token [
    | none ↦ (r, w)
    | some t ↦
        let (answer, w') = deps.delete_token t w in
        elim answer [ ok _ ↦ (record r { pruned = r.pruned + 1 }, w') | thrown ↦ (r, w') ]
  ]

  unfoldable pub note_ticket :
      NotifierDeps W → PushTicket → Option String → NotifyResult × W → NotifyResult × W
  unfolding keep_receipt prune
  note_ticket deps ticket token (r, w) =
      if ticket.is_ok
      then (record r { sent = r.sent + 1 }, keep_receipt deps ticket.id token w)
      else prune deps ticket.unregistered token (fail 1 r, w)

  unfoldable pub note_tickets :
      NotifierDeps W → List PushTicket → List String → NotifyResult × W → NotifyResult × W
  unfolding note_ticket
  note_tickets deps [] tokens s = s
  note_tickets deps (ticket ∷ tickets) tokens s =
      note_tickets deps tickets (rest tokens) (note_ticket deps ticket (first tokens) s)

  -- `tokens.slice(cursor, ...)` keeps each chunk beside the tokens that it went to.
  unfoldable pub send_chunks :
      NotifierDeps W → List (List PushMessage) → List String → NotifyResult × W → NotifyResult × W
  unfolding note_tickets
  send_chunks deps [] tokens s = s
  send_chunks deps (chunk ∷ chunks) tokens (r, w) =
      let (answer, w') = deps.send chunk w in
      send_chunks deps chunks (drop (length chunk) tokens) (elim answer [
        | ok tickets ↦ note_tickets deps tickets (take (length chunk) tokens) (r, w')
        | thrown ↦ (fail (length chunk) r, w')
      ])

  unfoldable pub deliver :
      NotifierDeps W
      → (Option String → Outcome Notification)
      → List PushTokenRow
      → W
      → Outcome NotifyResult × W
  unfolding messages send_chunks
  deliver deps render rows w =
      let r : NotifyResult = record no_result { tokens = length rows } in
      if is_empty rows then (ok r, w) else elim (messages render rows) [
        | thrown ↦ (thrown, w)
        | ok ms ↦ elim (deps.chunk ms) [
          | thrown ↦ (ok (fail (length rows) r), w)
          | ok chunks ↦
              let (r', w') = send_chunks deps chunks (map (λ row. row.token) rows) (r, w) in
              (ok r', w')
        ]
      ]

  -- Past the gates: the tokens of the owner.
  unfoldable pub send_to :
      NotifierDeps W
      → (Option String → Outcome Notification)
      → String
      → W
      → Outcome NotifyResult × W
  unfolding deliver
  send_to deps render owner w =
      let (rows, w') = deps.tokens_for_owner owner w in
      elim rows [
        | thrown ↦ (ok no_result, w')
        | ok rs ↦ deliver deps render (keep (λ row. deps.is_valid row.token) rs) w'
      ]

  -- The category is on; a lookup that throws counts as on.
  unfoldable pub category_on : NotifierDeps W → String → PushCategory → W → Bool × W
  category_on deps owner category w = elim deps.is_enabled [
    | none ↦ (true, w)
    | some enabled ↦
        let (answer, w') = enabled owner category w in
        elim answer [ ok on ↦ (on, w') | thrown ↦ (true, w') ]
  ]

  -- The category is held back now; a lookup that throws holds nothing back.
  unfoldable pub held_back : NotifierDeps W → String → PushCategory → W → Bool × W
  held_back deps owner category w =
      if not (is_quietable category) then (false, w) else elim deps.is_quiet_now [
        | none ↦ (false, w)
        | some quiet ↦
            let (answer, w') = quiet owner w in
            elim answer [ ok now ↦ (now, w') | thrown ↦ (false, w') ]
      ]

  unfoldable pub notify :
      NotifierDeps W
      → String
      → PushCategory
      → (Option String → Outcome Notification)
      → W
      → Outcome NotifyResult × W
  unfolding category_on held_back send_to
  notify deps owner category render w =
      let (on, w') = category_on deps owner category w in
      let (held, w'') = held_back deps owner category w' in
      if not on
      then (ok no_result, w')
      else if held
      then (ok no_result, w'')
      else send_to deps render owner w''
