-- ===== src/Api/Calm.antt =====
-- Replies of server/src/http/app.ts that report an error come with the state as it was: the routes of
-- agents and of push, and the change of a status.
use hyper_solid.Prelude.{
  String, Bool, true, false, ◌≡◌, refl, inl, inr, Option, none, some, Dict, string_eq, ◌==◌, leb,
  Bool-cases, Option-cases, arith, if◌then◌else◌,
}
use hyper_solid.Number.{Number}
use hyper_solid.Scheduler.Context.{Outcome, ok, thrown}
use hyper_solid.Scheduler.Settled.{find-update_self}
use hyper_solid.Strategies.Types.{StrategyStatus, Strategy}
use hyper_solid.Strategies.Values.{Value, field}
use hyper_solid.Strategies.Store
use hyper_solid.Strategies.Store.{Store}
use hyper_solid.Access.Agents
use hyper_solid.Access.Agents.{Confirmation, AgentDeps, Signer, signer_client}
use hyper_solid.Api.Types.{App, AppDeps, Draws, Reply}
use hyper_solid.Api.Account
use hyper_solid.Api.Automation
use hyper_solid.Api.Cases.{configured-cases, needed-cases, with_flag-cases, if_owned-cases}

module _ {N : Type 0} where
  -- An error leaves the state as it was.
  pub record Calm (app : App N) (answer : Reply N × App N) : Type 0 where
    pub calm : leb 400 answer.0.status ≡ true → answer.1 ≡ app

  -- A reply that is no error.
  pub fine :
      (app : App N) (answer : Reply N × App N) → leb 400 answer.0.status ≡ false → Calm app answer
  fine app answer e = record { calm = λ e'. ground arith }

  pub same : (app : App N) (r : Reply N) → Calm app (r, app)
  same app r = record { calm = λ e. refl }

  dto_reply-fine :
      (id : String) (app : App N) (s : Strategy N)
      → Store.find id app.store ≡ some s
      → leb 400 (Automation.dto_reply id app).status ≡ false
  dto_reply-fine id app s found = rw (Automation.dto_reply, found) refl

  patch_owned-Calm :
      (id : String) (status : StrategyStatus) (app : App N) (s : Strategy N) (canceling : Bool)
      → Store.find id app.store ≡ some s
      → (let app' = record app { store = Store.set_status id status app.store } in
          Calm app (
            if canceling
            then (Account.fail 409 "strategy is canceling", app)
            else (Automation.dto_reply id app', app')))
  unfolding Store.set_status
  patch_owned-Calm id status app s true found = same app _
  patch_owned-Calm id status app s false found =
      let app' : App N = record app { store = Store.set_status id status app.store } in
      fine app _ (
        dto_reply-fine id app' (record s { status = status })
          (find-update_self id (λ t. record t { status = status }) app.store found))

  pub patch_strategy-Calm :
      (deps : AppDeps N) (owner id : String) (status : StrategyStatus) (app : App N)
      → Calm app (Automation.patch_strategy deps owner id status app)
  unfolding Automation.patch_strategy
  patch_strategy-Calm deps owner id status app =
      if_owned-cases (Calm app) app deps owner (Store.find id app.store) _ (same app _)
        λ s found mine.
          patch_owned-Calm id status app s (Automation.is_status_canceling s.status) found

  remote_key-Calm :
      (deps : AgentDeps) (owner : String) (app : App N) (answer : Outcome String)
      → (let made = Agents.remote_key deps owner app.agents answer in
          Calm app (Account.provision_reply made.0, record app { agents = made.1 }))
  remote_key-Calm deps owner app thrown = same app _
  remote_key-Calm deps owner app (ok address) = fine app _ refl

  new_key-Calm :
      (deps : AgentDeps) (o : Option Signer) (key owner : String) (app : App N)
      → (let made = Agents.new_key deps o key owner app.agents in
          Calm app (Account.provision_reply made.0, record app { agents = made.1 }))
  new_key-Calm deps none key owner app = fine app _ refl
  new_key-Calm deps (some create_key) key owner app =
      remote_key-Calm deps owner app (create_key (Agents.derive_key_id deps owner) owner)

  provision_found-Calm :
      (deps : AgentDeps) (signer : Signer) (key owner : String) (app : App N)
      (o : Option (Agents.AgentRecord N))
      → Agents.get_agent deps owner app.agents ≡ o
      → (let made = Agents.provision deps signer key owner app.agents in
          Calm app (Account.provision_reply made.0, record app { agents = made.1 }))
  unfolding Agents.provision
  provision_found-Calm deps signer key owner app none e =
      rw (Agents.provision, e) (new_key-Calm deps (signer_client deps signer) key owner app)
  provision_found-Calm deps signer key owner app (some rec) e = elim (Bool-cases rec.approved) [
    | inl approved ↦
        rw (Agents.provision, e, approved)
          (new_key-Calm deps (signer_client deps signer) key owner app)
    | inr waiting ↦ rw (Agents.provision, e, waiting) (fine app _ refl)
  ]

  confirm_found-Calm :
      (deps : AgentDeps) (owner address : String) (until : N) (app : App N)
      (o : Option (Agents.AgentRecord N))
      → Agents.get_agent deps owner app.agents ≡ o
      → (let answer = Agents.confirm deps owner address until app.agents in
          Calm app (Account.confirm_reply answer.0, record app { agents = answer.1 }))
  unfolding Agents.confirm
  confirm_found-Calm deps owner address until app none e = rw (Agents.confirm, e) (same app _)
  confirm_found-Calm deps owner address until app (some rec) e =
      elim (Bool-cases (deps.lower rec.agent_address == deps.lower address)) [
        | inl mine ↦ rw (Agents.confirm, e, mine) (fine app _ refl)
        | inr other ↦ rw (Agents.confirm, e, other) (same app _)
      ]

module _ {N : Type 0} ⦃num : Number N⦄ where
  pub agent_provision-Calm :
      (deps : AppDeps N) (draws : Draws N) (owner : String) (app : App N)
      → Calm app (Account.agent_provision deps draws owner app)
  unfolding Account.agent_provision
  agent_provision-Calm deps draws owner app =
      provision_found-Calm deps.agent draws.signer draws.key owner app _ refl

  pub agent_confirm-Calm :
      (deps : AppDeps N) (draws : Draws N) (owner : String) (body : Option (Option String))
      (app : App N)
      → Calm app (Account.agent_confirm deps draws owner body app)
  unfolding Account.agent_confirm
  agent_confirm-Calm deps draws owner none app = same app _
  agent_confirm-Calm deps draws owner (some none) app = same app _
  agent_confirm-Calm deps draws owner (some (some address)) app =
      confirm_found-Calm deps.agent owner address _ app _ refl

  pub push_register-Calm :
      (deps : AppDeps N) (draws : Draws N) (owner : String) (body : Dict String (Value N))
      (app : App N)
      → Calm app (Account.push_register deps draws owner body app)
  unfolding Account.push_register
  push_register-Calm deps draws owner body app =
      configured-cases (Calm app) app app.push_tokens _ (same app _) λ rows.
        elim (Option-cases (Account.expo_token (field "token" body))) [
          | inl bad ↦ rw bad (same app _)
          | inr (token, good) ↦ rw good (fine app _ refl)
        ]

  pub push_unregister-Calm :
      (deps : AppDeps N) (owner : String) (body : Dict String (Value N)) (app : App N)
      → Calm app (Account.push_unregister deps owner body app)
  unfolding Account.push_unregister
  push_unregister-Calm deps owner body app =
      configured-cases (Calm app) app app.push_tokens _ (same app _) λ rows.
        elim (Option-cases (Account.as_text (field "token" body))) [
          | inl bad ↦ rw bad (same app _)
          | inr (token, good) ↦ rw good (fine app _ refl)
        ]

  pub set_prefs-Calm :
      (deps : AppDeps N) (draws : Draws N) (owner : String) (body : Dict String (Value N))
      (app : App N)
      → Calm app (Account.set_prefs deps draws owner body app)
  unfolding Account.set_prefs
  set_prefs-Calm deps draws owner body app =
      configured-cases (Calm app) app app.push_prefs _ (same app _) λ rows.
        with_flag-cases (Calm app) app (field "fills" body) _ _ (same app _) λ fills.
          with_flag-cases (Calm app) app (field "alerts" body) _ _ (same app _) λ alerts.
            with_flag-cases (Calm app) app (field "lifecycle" body) _ _ (same app _)
              λ lifecycle. fine app _ refl

  pub set_hours-Calm :
      (deps : AppDeps N) (owner : String) (body : Dict String (Value N)) (app : App N)
      → Calm app (Account.set_hours deps owner body app)
  unfolding Account.set_hours
  set_hours-Calm deps owner body app =
      configured-cases (Calm app) app app.quiet_hours _ (same app _) λ table.
        needed-cases (Calm app) app (Account.as_flag (field "enabled" body)) _ _ (same app _) λ on.
          needed-cases (Calm app) app (Account.as_minute (field "start" body)) _ _ (same app _)
            λ start.
              needed-cases (Calm app) app (Account.as_minute (field "end" body)) _ _ (same app _)
                λ stop.
                  needed-cases (Calm app) app (Account.as_timezone deps (field "tz" body)) _ _
                    (same app _) λ tz. fine app _ refl
