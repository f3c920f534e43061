-- ===== src/Api/Untouched.antt =====
-- The routes of server/src/http/app.ts that leave the strategies alone, and those that do not.
use hyper_solid.Prelude.{
  String, ◌≡◌, refl, inl, inr, Option, none, some, Dict, string_eq, Option-cases,
}
use hyper_solid.Number.{Number}
use hyper_solid.Strategies.Types.{StrategyStatus}
use hyper_solid.Strategies.Values.{Value, field}
use hyper_solid.Strategies.Store
use hyper_solid.Strategies.Store.{Store}
use hyper_solid.Api.Types.{App, AppDeps, Draws, Reply, Request}
use hyper_solid.Api.Account
use hyper_solid.Api.Automation
use hyper_solid.Api.Handler.{handle, serve, serve_owner}
use hyper_solid.Api.Cases.{configured-cases, needed-cases, with_flag-cases, if_owned-cases}

-- Of the store that comes with a reply.
module _ {N : Type 0} where
  pub record Holds (P : Store N → Type 0) (answer : Reply N × App N) : Type 0 where
    pub holds : P answer.1.store

module _ {N : Type 0} ⦃num : Number N⦄ (P : Store N → Type 0) where
  module _ (deps : AppDeps N) (draws : Draws N) (owner : String) (app : App N)
      (held : P app.store) where
    still : (r : Reply N) → Holds P (r, app)
    still r = record { holds = held }

    push_register-Holds :
        (body : Dict String (Value N)) → Holds P (Account.push_register deps draws owner body app)
    unfolding Account.push_register
    push_register-Holds body = configured-cases (Holds P) app app.push_tokens _ (still _) λ rows.
        elim (Option-cases (Account.expo_token (field "token" body))) [
          | inl bad ↦ rw bad (still _)
          | inr (token, good) ↦ rw good (record { holds = held })
        ]

    push_unregister-Holds :
        (body : Dict String (Value N)) → Holds P (Account.push_unregister deps owner body app)
    unfolding Account.push_unregister
    push_unregister-Holds body = configured-cases (Holds P) app app.push_tokens _ (still _) λ rows.
        elim (Option-cases (Account.as_text (field "token" body))) [
          | inl bad ↦ rw bad (still _)
          | inr (token, good) ↦ rw good (record { holds = held })
        ]

    set_prefs-Holds :
        (body : Dict String (Value N)) → Holds P (Account.set_prefs deps draws owner body app)
    unfolding Account.set_prefs
    set_prefs-Holds body = configured-cases (Holds P) app app.push_prefs _ (still _) λ rows.
        with_flag-cases (Holds P) app (field "fills" body) _ _ (still _) λ fills.
          with_flag-cases (Holds P) app (field "alerts" body) _ _ (still _) λ alerts.
            with_flag-cases (Holds P) app (field "lifecycle" body) _ _ (still _)
              λ lifecycle. record { holds = held }

    set_hours-Holds :
        (body : Dict String (Value N)) → Holds P (Account.set_hours deps owner body app)
    unfolding Account.set_hours
    set_hours-Holds body = configured-cases (Holds P) app app.quiet_hours _ (still _) λ table.
        needed-cases (Holds P) app (Account.as_flag (field "enabled" body)) _ _ (still _) λ on.
          needed-cases (Holds P) app (Account.as_minute (field "start" body)) _ _ (still _) λ start.
            needed-cases (Holds P) app (Account.as_minute (field "end" body)) _ _ (still _) λ stop.
              needed-cases (Holds P) app (Account.as_timezone deps (field "tz" body)) _ _ (still _)
                λ tz. record { holds = held }

    strategy_activity-Holds : (j : String) → Holds P (Automation.strategy_activity deps owner j app)
    unfolding Automation.strategy_activity
    strategy_activity-Holds j =
        if_owned-cases (Holds P) app deps owner (Store.find j app.store) _ (still _)
          λ t e mine. still _

    strategy_rungs-Holds : (j : String) → Holds P (Automation.strategy_rungs deps owner j app)
    unfolding Automation.strategy_rungs
    strategy_rungs-Holds j =
        if_owned-cases (Holds P) app deps owner (Store.find j app.store) _ (still _)
          λ t e mine. still _

    -- Whatever holds of the store and is kept by the four routes that write it is kept by each.
    pub serve-Holds :
        (request : Request N)
        → ((body : Option (String × Option (Dict String (Value N))))
            → Holds P (Automation.create_strategy deps draws owner body app))
        → ((j : String) (status : StrategyStatus)
            → Holds P (Automation.patch_strategy deps owner j status app))
        → ((j : String) → Holds P (Automation.delete_strategy deps owner j app))
        → Holds P (Automation.kill_switch deps owner app)
        → Holds P (serve deps draws owner request app)
    unfolding serve Account.agent_provision Account.agent_confirm Account.get_agent_status
        Account.agent_revoke Account.get_prefs Account.get_hours Automation.list_strategies
        Automation.recent_activity
    serve-Holds Request.agent_provision new patched deleted killed = record { holds = held }
    serve-Holds (Request.agent_confirm none) new patched deleted killed = record { holds = held }
    serve-Holds (Request.agent_confirm (some none)) new patched deleted killed = record {
      holds = held;
    }
    serve-Holds (Request.agent_confirm (some (some address))) new patched deleted killed = record {
      holds = held;
    }
    serve-Holds Request.get_agent_status new patched deleted killed = still _
    serve-Holds Request.agent_revoke new patched deleted killed = record { holds = held }
    serve-Holds (Request.push_register body) new patched deleted killed = push_register-Holds body
    serve-Holds (Request.push_unregister body) new patched deleted killed =
        push_unregister-Holds body
    serve-Holds Request.get_prefs new patched deleted killed =
        configured-cases (Holds P) app app.push_prefs _ (still _) (λ rows. still _)
    serve-Holds (Request.set_prefs body) new patched deleted killed = set_prefs-Holds body
    serve-Holds Request.get_hours new patched deleted killed =
        configured-cases (Holds P) app app.quiet_hours _ (still _) (λ table. still _)
    serve-Holds (Request.set_hours body) new patched deleted killed = set_hours-Holds body
    serve-Holds Request.list_strategies new patched deleted killed = still _
    serve-Holds (Request.create_strategy body) new patched deleted killed = new body
    serve-Holds (Request.patch_strategy j status) new patched deleted killed = patched j status
    serve-Holds (Request.delete_strategy j) new patched deleted killed = deleted j
    serve-Holds (Request.strategy_activity j) new patched deleted killed = strategy_activity-Holds j
    serve-Holds (Request.strategy_rungs j) new patched deleted killed = strategy_rungs-Holds j
    serve-Holds (Request.recent_activity limit) new patched deleted killed = still _
    serve-Holds Request.kill_switch new patched deleted killed = killed
    serve-Holds _ new patched deleted killed = still _

  serve_owner-Holds :
      (deps : AppDeps N) (draws : Draws N) (o : Option String) (app : App N) (request : Request N)
      → P app.store
      → ((owner : String) → o ≡ some owner → Holds P (serve deps draws owner request app))
      → Holds P (serve_owner deps draws o request app)
  serve_owner-Holds deps draws none app request held served = record { holds = held }
  serve_owner-Holds deps draws (some owner) app request held served = served owner refl

  -- The open routes leave the store alone, and so does a request without a token that verifies.
  pub handle-Holds :
      (deps : AppDeps N) (draws : Draws N) (authorization : Option String) (request : Request N)
      (app : App N)
      → P app.store
      → ((owner : String)
          → Account.owner_of deps draws.now authorization ≡ some owner
          → Holds P (serve deps draws owner request app))
      → Holds P (handle deps draws authorization request app)
  unfolding handle Account.auth_challenge Account.auth_session
  handle-Holds deps draws authorization Request.get_health app held served = record { holds = held }
  handle-Holds deps draws authorization (Request.auth_challenge none) app held served = record {
    holds = held;
  }
  handle-Holds deps draws authorization (Request.auth_challenge (some none)) app held served =
      record { holds = held }
  handle-Holds deps draws authorization (Request.auth_challenge (some (some owner))) app held
        served =
      record { holds = held }
  handle-Holds deps draws authorization (Request.auth_session none) app held served = record {
    holds = held;
  }
  handle-Holds deps draws authorization (Request.auth_session (some (none, nonce, signature))) app
        held served =
      record { holds = held }
  handle-Holds deps draws authorization (Request.auth_session (some (some owner, nonce, signature)))
        app held served =
      record { holds = held }
  handle-Holds deps draws authorization request app held served =
      serve_owner-Holds deps draws (Account.owner_of deps draws.now authorization) app request held
        served
