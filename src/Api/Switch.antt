-- ===== src/Api/Switch.antt =====
-- The kill switch of server/src/http/app.ts, and the ids under which the routes keep the strategies.
use mathlib.Core.Option
use hyper_solid.Prelude.{
  String, Bool, true, false, ◌≡◌, refl, ap, ◌∙◌, inl, inr, Option, none, some, Dict, string_eq,
  Bool-cases, if◌then◌else◌,
}
use hyper_solid.Number.{Number}
use hyper_solid.Strategies.Types.{StrategyStatus, canceling, StrategyParams, Strategy}
use hyper_solid.Strategies.Values.{Value, Checked, accepted, refused}
use hyper_solid.Strategies.Store
use hyper_solid.Strategies.Store.{Store, list_of}
use hyper_solid.Api.Types.{App, AppDeps, Draws, Reply, Request}
use hyper_solid.Api.Account.{owner_of}
use hyper_solid.Api.Automation
use hyper_solid.Api.Handler.{handle, serve, serve_owner}
use hyper_solid.Api.Cases.{if_owned-cases}
use hyper_solid.Api.Untouched.{Holds, serve-Holds, handle-Holds}
use hyper_solid.Api.Keyed.{
  WellKeyed, find-paused, if_owned_running, with_paused, insert-WellKeyed, erase-WellKeyed,
  set_status-WellKeyed, pause_all-WellKeyed,
}

module _ {N : Type 0} where
  abbrev pub IsKeyed : Store N → Type 0
  IsKeyed st = WellKeyed st.by_id

  either-IsKeyed :
      (b : Bool) (answer answer' : Reply N × App N)
      → Holds IsKeyed answer
      → Holds IsKeyed answer'
      → Holds IsKeyed (if b then answer else answer')
  either-IsKeyed true answer answer' h h' = h
  either-IsKeyed false answer answer' h h' = h'

  remove-IsKeyed : (id : String) (st : Store N) → IsKeyed st → IsKeyed (Store.remove id st)
  unfolding Store.remove
  remove-IsKeyed id st h = erase-WellKeyed id st.by_id h

  delete_owned-IsKeyed :
      (id : String) (s : Strategy N) (q : StrategyParams N) (st : Store N)
      → IsKeyed st
      → IsKeyed (Automation.delete_owned id s q st)
  delete_owned-IsKeyed id s (StrategyParams.grid_limit p) st h =
      elim (Bool-cases (Automation.is_status_canceling s.status)) [
        | inl drains ↦ rw (Automation.delete_owned, drains) h
        | inr stands ↦ rw (Automation.delete_owned, stands) (set_status-WellKeyed id canceling st h)
      ]
  delete_owned-IsKeyed id s _ st h = remove-IsKeyed id st h

module _ {N : Type 0} ⦃num : Number N⦄ where
  build-id :
      (id owner : String) (params : StrategyParams N) (now : N)
      → (Store.build id owner params now).id ≡ id
  unfolding Store.build
  build-id id owner (StrategyParams.dca p) now = refl
  build-id id owner (StrategyParams.twap p) now = refl
  build-id id owner (StrategyParams.grid p) now = refl
  build-id id owner (StrategyParams.grid_limit p) now = refl
  build-id id owner _ now = refl

  module _ (deps : AppDeps N) (draws : Draws N) (owner : String) (app : App N)
      (keyed : IsKeyed app.store) where
    create_checked-IsKeyed :
        (c : Checked (StrategyParams N))
        → Holds IsKeyed (Automation.create_checked deps draws owner c app)
    unfolding Store.create
    create_checked-IsKeyed (refused error) = record { holds = keyed }
    create_checked-IsKeyed (accepted params) = record {
      holds =
          insert-WellKeyed draws.id (Store.build draws.id owner params draws.now) app.store.by_id
            (build-id draws.id owner params draws.now) keyed;
    }

    create_strategy-IsKeyed :
        (body : Option (String × Option (Dict String (Value N))))
        → Holds IsKeyed (Automation.create_strategy deps draws owner body app)
    unfolding Automation.create_strategy
    create_strategy-IsKeyed none = record { holds = keyed }
    create_strategy-IsKeyed (some (name, params)) = create_checked-IsKeyed _

    patch_strategy-IsKeyed :
        (id : String) (status : StrategyStatus)
        → Holds IsKeyed (Automation.patch_strategy deps owner id status app)
    unfolding Automation.patch_strategy
    patch_strategy-IsKeyed id status =
        if_owned-cases (Holds IsKeyed) app deps owner (Store.find id app.store) _
          (record { holds = keyed })
          λ s e mine.
            either-IsKeyed (Automation.is_status_canceling s.status) _ _ (record { holds = keyed })
              (record { holds = set_status-WellKeyed id status app.store keyed })

    delete_strategy-IsKeyed :
        (id : String) → Holds IsKeyed (Automation.delete_strategy deps owner id app)
    unfolding Automation.delete_strategy
    delete_strategy-IsKeyed id =
        if_owned-cases (Holds IsKeyed) app deps owner (Store.find id app.store) _
          (record { holds = keyed })
          λ s e mine. record { holds = delete_owned-IsKeyed id s s.params app.store keyed }

    kill_switch-IsKeyed : Holds IsKeyed (Automation.kill_switch deps owner app)
    unfolding Automation.kill_switch
    kill_switch-IsKeyed = record {
      holds = pause_all-WellKeyed (list_of deps.lower owner app.store) app.store keyed;
    }

  -- Whatever is requested, a store that holds every strategy under its own id, and under no other,
  -- still does.
  pub requests_keep_ids :
      (deps : AppDeps N) (draws : Draws N) (authorization : Option String) (request : Request N)
      (app : App N)
      → WellKeyed app.store.by_id
      → WellKeyed (handle deps draws authorization request app).1.store.by_id
  requests_keep_ids deps draws authorization request app keyed =
      (handle-Holds IsKeyed deps draws authorization request app keyed (λ owner e.
        serve-Holds IsKeyed deps draws owner app keyed request
          (create_strategy-IsKeyed deps draws owner app keyed)
          (patch_strategy-IsKeyed deps draws owner app keyed)
          (delete_strategy-IsKeyed deps draws owner app keyed)
          (kill_switch-IsKeyed deps draws owner app keyed))).holds

  serve_owner-kill_switch :
      (deps : AppDeps N) (draws : Draws N) (o : Option String) (owner : String) (app : App N)
      → o ≡ some owner
      → serve_owner deps draws o Request.kill_switch app ≡ Automation.kill_switch deps owner app
  unfolding serve
  serve_owner-kill_switch deps draws o owner app e =
      ap (λ p. serve_owner deps draws p Request.kill_switch app) e

  -- The kill switch stops all of the caller's automation and nothing else. Where the caller's token
  -- verifies and the store holds each strategy under its own id, the reply is 204, each strategy of
  -- the caller that runs is paused, and every other strategy, whoever's it is, stays as it was.
  pub kill_switch_pauses :
      (deps : AppDeps N) (draws : Draws N) (authorization : Option String) (owner id : String)
      (app : App N)
      → owner_of deps draws.now authorization ≡ some owner
      → WellKeyed app.store.by_id
      → (let answer = handle deps draws authorization Request.kill_switch app in
          (answer.0.status ≡ 204)
          × (Store.find id answer.1.store
              ≡ Option.map
                  (if_owned_running deps.lower owner with_paused)
                  (Store.find id app.store)))
  unfolding handle Automation.kill_switch
  kill_switch_pauses deps draws authorization owner id app signed keyed =
      let served = serve_owner-kill_switch deps draws _ owner app signed in
      (
        ap (λ answer. answer.0.status) served,
        ap (λ answer. Store.find id answer.1.store) served
            ∙ find-paused deps.lower owner id app.store keyed,
      )
