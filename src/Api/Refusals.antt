-- ===== src/Api/Refusals.antt =====
-- The replies of server/src/http/app.ts that report an error, and what they leave of the state.
use hyper_solid.Prelude.{
  String, true, ◌≡◌, refl, ap, inl, inr, lookup, erase, Bool-cases, Option-cases, Option, none,
  some, Dict, string_eq, leb,
}
use hyper_solid.Number.{Number}
use hyper_solid.Strategies.Types.{StrategyParams}
use hyper_solid.Strategies.Values.{Value, Checked, accepted, refused}
use hyper_solid.Strategies.Store
use hyper_solid.Strategies.Store.{Store}
use hyper_solid.Access.Sessions.{Pending, key, sweep, session}
use hyper_solid.Api.Types.{App, AppDeps, Draws, Request}
use hyper_solid.Api.Account
use hyper_solid.Api.Automation
use hyper_solid.Api.Handler.{handle, serve, serve_owner}
use hyper_solid.Api.Cases.{configured-cases, if_owned-cases}
use hyper_solid.Api.Calm.{
  Calm, fine, same, patch_strategy-Calm, agent_provision-Calm, agent_confirm-Calm,
  push_register-Calm, push_unregister-Calm, set_prefs-Calm, set_hours-Calm,
}

module _ {N : Type 0} ⦃num : Number N⦄ where
  open num use {le}

  create_checked-Calm :
      (deps : AppDeps N) (draws : Draws N) (owner : String) (c : Checked (StrategyParams N))
      (app : App N)
      → Calm app (Automation.create_checked deps draws owner c app)
  create_checked-Calm deps draws owner (refused error) app = same app _
  create_checked-Calm deps draws owner (accepted params) app = fine app _ refl

  create_strategy-Calm :
      (deps : AppDeps N) (draws : Draws N) (owner : String)
      (body : Option (String × Option (Dict String (Value N)))) (app : App N)
      → Calm app (Automation.create_strategy deps draws owner body app)
  unfolding Automation.create_strategy
  create_strategy-Calm deps draws owner none app = same app _
  create_strategy-Calm deps draws owner (some (name, params)) app =
      create_checked-Calm deps draws owner _ app

  delete_strategy-Calm :
      (deps : AppDeps N) (owner id : String) (app : App N)
      → Calm app (Automation.delete_strategy deps owner id app)
  unfolding Automation.delete_strategy
  delete_strategy-Calm deps owner id app =
      if_owned-cases (Calm app) app deps owner (Store.find id app.store) _ (same app _)
        λ s found mine. fine app _ refl

  strategy_activity-Calm :
      (deps : AppDeps N) (owner id : String) (app : App N)
      → Calm app (Automation.strategy_activity deps owner id app)
  unfolding Automation.strategy_activity
  strategy_activity-Calm deps owner id app =
      if_owned-cases (Calm app) app deps owner (Store.find id app.store) _ (same app _)
        λ s found mine. same app _

  strategy_rungs-Calm :
      (deps : AppDeps N) (owner id : String) (app : App N)
      → Calm app (Automation.strategy_rungs deps owner id app)
  unfolding Automation.strategy_rungs
  strategy_rungs-Calm deps owner id app =
      if_owned-cases (Calm app) app deps owner (Store.find id app.store) _ (same app _)
        λ s found mine. same app _

  serve-Calm :
      (deps : AppDeps N) (draws : Draws N) (owner : String) (request : Request N) (app : App N)
      → Calm app (serve deps draws owner request app)
  unfolding serve Account.get_agent_status Account.agent_revoke Account.get_prefs Account.get_hours
      Automation.list_strategies Automation.recent_activity Automation.kill_switch
  serve-Calm deps draws owner Request.agent_provision app =
      agent_provision-Calm deps draws owner app
  serve-Calm deps draws owner (Request.agent_confirm body) app =
      agent_confirm-Calm deps draws owner body app
  serve-Calm deps draws owner Request.get_agent_status app = same app _
  serve-Calm deps draws owner Request.agent_revoke app = fine app _ refl
  serve-Calm deps draws owner (Request.push_register body) app =
      push_register-Calm deps draws owner body app
  serve-Calm deps draws owner (Request.push_unregister body) app =
      push_unregister-Calm deps owner body app
  serve-Calm deps draws owner Request.get_prefs app =
      configured-cases (Calm app) app app.push_prefs _ (same app _) (λ rows. same app _)
  serve-Calm deps draws owner (Request.set_prefs body) app =
      set_prefs-Calm deps draws owner body app
  serve-Calm deps draws owner Request.get_hours app =
      configured-cases (Calm app) app app.quiet_hours _ (same app _) (λ table. same app _)
  serve-Calm deps draws owner (Request.set_hours body) app = set_hours-Calm deps owner body app
  serve-Calm deps draws owner Request.list_strategies app = same app _
  serve-Calm deps draws owner (Request.create_strategy body) app =
      create_strategy-Calm deps draws owner body app
  serve-Calm deps draws owner (Request.patch_strategy id status) app =
      patch_strategy-Calm deps owner id status app
  serve-Calm deps draws owner (Request.delete_strategy id) app =
      delete_strategy-Calm deps owner id app
  serve-Calm deps draws owner (Request.strategy_activity id) app =
      strategy_activity-Calm deps owner id app
  serve-Calm deps draws owner (Request.strategy_rungs id) app =
      strategy_rungs-Calm deps owner id app
  serve-Calm deps draws owner (Request.recent_activity limit) app = same app _
  serve-Calm deps draws owner Request.kill_switch app = fine app _ refl
  serve-Calm deps draws owner _ app = same app _

  -- The challenges that wait after a request that is answered by an error.
  abbrev pub left_pending : AppDeps N → Draws N → Request N → Pending N → Pending N
  left_pending deps draws (Request.auth_challenge (some none)) pending = sweep draws.now pending
  left_pending deps draws (Request.auth_session (some (some owner, nonce, signature))) pending =
      erase (key deps.auth owner nonce) pending
  left_pending deps draws _ pending = pending

  serve_owner-Calm :
      (deps : AppDeps N) (draws : Draws N) (o : Option String) (request : Request N) (app : App N)
      → Calm app (serve_owner deps draws o request app)
  serve_owner-Calm deps draws none request app = same app _
  serve_owner-Calm deps draws (some owner) request app = serve-Calm deps draws owner request app

  session-left :
      (deps : AppDeps N) (draws : Draws N) (owner nonce signature : String) (pending : Pending N)
      → (session deps.auth owner nonce signature draws.now pending).1
        ≡ erase (key deps.auth owner nonce) pending
  unfolding session
  session-left deps draws owner nonce signature pending =
      elim (Option-cases (lookup (key deps.auth owner nonce) pending)) [
        | inl missing ↦ rw (session, missing) refl
        | inr (c, found) ↦ elim (Bool-cases (le c.expires_at draws.now)) [
          | inl late ↦ rw (session, found, late) refl
          | inr fresh ↦ rw (session, found, fresh) refl
        ]
      ]

  -- An error leaves everything as it was: a reply with a status of 400 or more, on any route and with
  -- any header, comes with the agents, the strategies, the log and the push stores unchanged, and with
  -- the challenges unchanged but in two cases. A session that is asked for with an owner uses its nonce
  -- up, and a challenge that is asked for without one drops those whose time is over.
  pub errors_change_nothing :
      (deps : AppDeps N) (draws : Draws N) (authorization : Option String) (request : Request N)
      (app : App N)
      → leb 400 (handle deps draws authorization request app).0.status ≡ true
      → (handle deps draws authorization request app).1
        ≡ record app { pending = left_pending deps draws request app.pending }
  unfolding handle Account.auth_challenge Account.auth_session
  errors_change_nothing deps draws authorization Request.get_health app h = refl
  errors_change_nothing deps draws authorization (Request.auth_challenge none) app h = refl
  errors_change_nothing deps draws authorization (Request.auth_challenge (some none)) app h = refl
  errors_change_nothing deps draws authorization (Request.auth_challenge (some (some owner))) app
        h =
      (fine app (Account.auth_challenge deps draws (some (some owner)) app) refl).calm h
  errors_change_nothing deps draws authorization (Request.auth_session none) app h = refl
  errors_change_nothing deps draws authorization
        (Request.auth_session (some (none, nonce, signature))) app h =
      refl
  errors_change_nothing deps draws authorization
        (Request.auth_session (some (some owner, nonce, signature))) app h =
      ap (λ pending. record app { pending = pending })
        (session-left deps draws owner nonce signature app.pending)
  errors_change_nothing deps draws authorization request app h =
      (serve_owner-Calm deps draws (Account.owner_of deps draws.now authorization) request app).calm
        h
