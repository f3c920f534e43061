-- ===== src/Api/Account.antt =====
-- server/src/http/app.ts: who calls, and the routes on sessions, agents and push notifications.
use Prim.Native.String.{slice, len, find}
use package.text.Mathlib.Text.{starts_with}
use hyper_solid.Prelude.{
  ℕ, ◌+◌, String, Bool, ◌&&◌, ◌||◌, Option, none, some, Dict, string_eq, ◌==◌, leb, ltb, nat_eqb,
  if◌then◌else◌,
}
use hyper_solid.Number.{Number}
use hyper_solid.Scheduler.Context.{Outcome, ok, thrown}
use hyper_solid.Strategies.Values.{Value, field, absent, flag, text, whole}
use hyper_solid.Push.QuietHours.{QuietHours}
use hyper_solid.Push.Stores
use hyper_solid.Push.Stores.{SomePrefs}
use hyper_solid.Access.Sessions.{SessionAnswer, sweep, challenge, session, verify}
use hyper_solid.Access.Agents
use hyper_solid.Access.Agents.{Confirmation}
use hyper_solid.Api.Types.{App, AppDeps, Draws, Reply, Body}

module _ {N : Type 0} where
  abbrev pub reply : ℕ → Body N → Reply N
  reply status body = record { status = status; body = body }

  abbrev pub fail : ℕ → String → Reply N
  fail status error = reply status (Body.error error)

  abbrev pub done : Reply N
  done = reply 204 Body.empty

abbrev pub after : String → String → String
after prefix s = slice s (len prefix) (len s)

-- Past the prefix, some text and the first `]`, which is the last character.
abbrev pub closed_after : String → String → Bool
closed_after prefix s =
    let rest = after prefix s in
    starts_with s prefix && (ltb 0 (find rest "]") && nat_eqb (find rest "]" + 1) (len rest))

-- `/^(ExponentPushToken|ExpoPushToken)\[[^\]]+\]$/`
unfoldable pub is_expo_push_token : String → Bool
is_expo_push_token s = closed_after "ExponentPushToken[" s || closed_after "ExpoPushToken[" s

-- A token or an owner that is the empty text counts as none.
abbrev pub given : Option String → Option String
given none = none
given (some s) = if s == "" then none else some s

abbrev pub bearer : Option String → Option String
bearer none = none
bearer (some header) =
    if starts_with header "Bearer " then given (some (after "Bearer " header)) else none

module _ {N : Type 0} where
  abbrev pub session_reply : SessionAnswer → Reply N
  session_reply (SessionAnswer.session_token t) = reply 200 (Body.session t)
  session_reply SessionAnswer.unknown_or_expired_nonce = fail 401 "unknown or expired nonce"
  session_reply SessionAnswer.invalid_signature = fail 401 "invalid signature"
  session_reply SessionAnswer.verify_failed = fail 401 "verification failed"

  abbrev pub provision_reply : Outcome String → Reply N
  provision_reply (ok address) = reply 200 (Body.agent address)
  provision_reply thrown = fail 500 "Internal Server Error"

  abbrev pub confirm_reply : Confirmation → Reply N
  confirm_reply Confirmation.confirmed = done
  confirm_reply Confirmation.no_agent = fail 400 "no agent provisioned for owner"
  confirm_reply Confirmation.address_mismatch = fail 400 "agent address mismatch"

  -- `if (!store) return reply.code(503)...`
  abbrev pub configured : {A : Type 0} → App N → Option A → (A → Reply N × App N) → Reply N × App N
  configured app none k = (fail 503 "push not configured", app)
  configured app (some a) k = k a

  abbrev pub as_text : Value N → Option String
  as_text (text s) = some s
  as_text _ = none

  -- `v === a || v === b ? v : null`
  abbrev pub one_of : String → String → Value N → Option String
  one_of a b (text s) = if s == a || s == b then some s else none
  one_of a b _ = none

  abbrev pub expo_token : Value N → Option String
  expo_token (text s) = if is_expo_push_token s then some s else none
  expo_token _ = none

  -- `undefined` leaves a category out; only a Boolean sets it.
  abbrev pub with_flag :
      App N → String → Value N → (Option Bool → Reply N × App N) → Reply N × App N
  with_flag app error absent k = k none
  with_flag app error (flag on) k = k (some on)
  with_flag app error _ k = (fail 400 error, app)

  abbrev pub as_flag : Value N → Option Bool
  as_flag (flag on) = some on
  as_flag _ = none

  -- `inRange`: a minute of the day
  abbrev pub as_minute : Value N → Option ℕ
  as_minute (whole n) = if leb n 1439 then some n else none
  as_minute _ = none

  abbrev pub as_timezone : AppDeps N → Value N → Option String
  as_timezone deps (text tz) =
      if tz == "" then none else if deps.is_timezone tz then some tz else none
  as_timezone deps _ = none

  abbrev pub needed :
      {A : Type 0} → App N → Option A → String → (A → Reply N × App N) → Reply N × App N
  needed app none error k = (fail 400 error, app)
  needed app (some a) error k = k a

module _ {N : Type 0} ⦃num : Number N⦄ where
  open num use {add}

  abbrev pub verified : AppDeps N → N → Option String → Option String
  verified deps now none = none
  verified deps now (some token) = given (verify deps.auth token now)

  unfoldable pub owner_of : AppDeps N → N → Option String → Option String
  owner_of deps now authorization = verified deps now (bearer authorization)

  -- `const { owner } = req.body` throws where there is no body, and `owner.toLowerCase()` where there is
  -- no owner, once the challenges whose time is over are dropped.
  unfoldable pub auth_challenge :
      AppDeps N → Draws N → Option (Option String) → App N → Reply N × App N
  auth_challenge deps draws none app = (fail 500 "Internal Server Error", app)
  auth_challenge deps draws (some none) app =
      (fail 500 "Internal Server Error", record app { pending = sweep draws.now app.pending })
  auth_challenge deps draws (some (some owner)) app =
      let (nonce, pending) = challenge deps.auth draws.nonce owner draws.now app.pending in
      (reply 200 (Body.nonce nonce), record app { pending = pending })

  -- Without an owner `Auth.session` throws before it reads the challenges, and that is caught.
  unfoldable pub auth_session :
      AppDeps N → Draws N → Option (Option String × String × String) → App N → Reply N × App N
  auth_session deps draws none app = (fail 500 "Internal Server Error", app)
  auth_session deps draws (some (none, nonce, signature)) app =
      (fail 401 "Cannot read properties of undefined (reading 'toLowerCase')", app)
  auth_session deps draws (some (some owner, nonce, signature)) app =
      let (answer, pending) = session deps.auth owner nonce signature draws.now app.pending in
      (session_reply answer, record app { pending = pending })

  unfoldable pub agent_provision : AppDeps N → Draws N → String → App N → Reply N × App N
  agent_provision deps draws owner app =
      let (answer, agents) = Agents.provision deps.agent draws.signer draws.key owner app.agents in
      (provision_reply answer, record app { agents = agents })

  -- Without an address `AgentManager.confirm` throws where it compares it, after it has looked for the
  -- agent, and that is caught.
  abbrev pub no_address_reply : Option (Agents.AgentRecord N) → Reply N
  no_address_reply none = confirm_reply Confirmation.no_agent
  no_address_reply (some rec) =
      fail 400 "Cannot read properties of undefined (reading 'toLowerCase')"

  unfoldable pub agent_confirm :
      AppDeps N → Draws N → String → Option (Option String) → App N → Reply N × App N
  agent_confirm deps draws owner none app = (fail 500 "Internal Server Error", app)
  agent_confirm deps draws owner (some none) app =
      (no_address_reply (Agents.get_agent deps.agent owner app.agents), app)
  agent_confirm deps draws owner (some (some address)) app =
      let until = add draws.now deps.agent_ttl_ms in
      let (answer, agents) = Agents.confirm deps.agent owner address until app.agents in
      (confirm_reply answer, record app { agents = agents })

  unfoldable pub get_agent_status : AppDeps N → Draws N → String → App N → Reply N × App N
  get_agent_status deps draws owner app = (
    reply 200 (Body.agent_status (Agents.agent_status deps.agent owner draws.now app.agents)),
    app,
  )

  unfoldable pub agent_revoke : AppDeps N → String → App N → Reply N × App N
  agent_revoke deps owner app =
      (done, record app { agents = Agents.revoke deps.agent owner app.agents })

  unfoldable pub push_register :
      AppDeps N → Draws N → String → Dict String (Value N) → App N → Reply N × App N
  push_register deps draws owner body app = configured app app.push_tokens λ rows.
      elim (expo_token (field "token" body)) [
        | none ↦ (fail 400 "invalid push token", app)
        | some token ↦
            let platform = one_of "ios" "android" (field "platform" body) in
            let locale = one_of "en" "zh" (field "locale" body) in
            let rows' = Stores.register deps.lower owner token platform locale draws.now rows in
            (done, record app { push_tokens = some rows' })
      ]

  unfoldable pub push_unregister :
      AppDeps N → String → Dict String (Value N) → App N → Reply N × App N
  push_unregister deps owner body app = configured app app.push_tokens λ rows.
      elim (as_text (field "token" body)) [
        | none ↦ (done, app)
        | some token ↦ (
          done,
          record app { push_tokens = some (Stores.unregister deps.lower owner token rows) },
        )
      ]

  unfoldable pub get_prefs : AppDeps N → String → App N → Reply N × App N
  get_prefs deps owner app =
      configured app app.push_prefs
        λ rows. (reply 200 (Body.prefs (Stores.get_prefs deps.lower owner rows)), app)

  unfoldable pub set_prefs :
      AppDeps N → Draws N → String → Dict String (Value N) → App N → Reply N × App N
  set_prefs deps draws owner body app = configured app app.push_prefs λ rows.
      with_flag app "invalid fills" (field "fills" body) λ fills.
        with_flag app "invalid alerts" (field "alerts" body) λ alerts.
          with_flag app "invalid lifecycle" (field "lifecycle" body) λ lifecycle.
            let prefs : SomePrefs = record {
              fills = fills;
              alerts = alerts;
              lifecycle = lifecycle;
            } in
            let rows' = Stores.set_prefs deps.lower owner prefs draws.now rows in
            (done, record app { push_prefs = some rows' })

  unfoldable pub get_hours : AppDeps N → String → App N → Reply N × App N
  get_hours deps owner app =
      configured app app.quiet_hours
        λ table. (reply 200 (Body.hours (Stores.get_hours deps.lower owner table)), app)

  unfoldable pub set_hours : AppDeps N → String → Dict String (Value N) → App N → Reply N × App N
  set_hours deps owner body app = configured app app.quiet_hours λ table.
      needed app (as_flag (field "enabled" body)) "invalid enabled" λ enabled.
        needed app (as_minute (field "start" body)) "invalid start" λ start.
          needed app (as_minute (field "end" body)) "invalid end" λ stop.
            needed app (as_timezone deps (field "tz" body)) "invalid tz" λ tz.
              let qh : QuietHours = record {
                enabled = enabled;
                start = start;
                stop = stop;
                tz = tz;
              } in
              let table' = Stores.set_hours deps.lower owner qh table in
              (done, record app { quiet_hours = some table' })
