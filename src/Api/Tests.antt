-- ===== src/Api/Tests.antt =====
-- server/src/http/app.ts on concrete requests.
use hyper_solid.Prelude.{ℕ, String, true, false, ◌≡◌, refl, Option, none, some, [], string_eq, ◌==◌}
use hyper_solid.Number.{Cents, pos, cents_number}
use hyper_solid.Strategies.Types.{running, paused, canceling, StrategyParams, Strategy}
use hyper_solid.Strategies.GridLimit.{rung_count}
use hyper_solid.Strategies.Store
use hyper_solid.Scheduler.Context.{ok, thrown, Effect, OpenOrders, RestingExecutor}
use hyper_solid.Scheduler.Session.{Session}
use hyper_solid.Scheduler.Rungs.{get_open}
use hyper_solid.Scheduler.Drain.{candidates}
use hyper_solid.Scheduler.Resting.{grid_limit_at}
use hyper_solid.Scheduler.Fixtures.{
  store, strategy_of, dca_strategy, grid_limit_params, context, session, marks,
}
use hyper_solid.Api.Deleted.{stopped, deleted_grid_goes}
use hyper_solid.Access.Fixtures.{codec, options, agent_deps}
use hyper_solid.Access.Sessions.{verify}
use hyper_solid.Access.Token.{verify_token}
use hyper_solid.Api.Types.{App, AppDeps, Draws, Request}
use hyper_solid.Api.Account.{owner_of, is_expo_push_token}
use hyper_solid.Api.Automation
use hyper_solid.Api.Handler.{handle, serve}
use hyper_solid.Api.Keyed.{WellKeyed}
use hyper_solid.Api.Refusals.{errors_change_nothing}
use hyper_solid.Api.Guarded.{strangers_change_nothing, draining_kept}
use hyper_solid.Api.Switch.{requests_keep_ids, kill_switch_pauses}

abbrev deps : AppDeps Cents
deps = record {
  auth = options;
  agent = agent_deps;
  agent_ttl_ms = pos 90;
  version = "0.1.0";
  lower = codec.lower;
  is_timezone = λ tz. tz == "UTC";
}

abbrev draws : Draws Cents
draws = record { now = pos 50; id = "new"; nonce = "r"; key = "k1"; signer = λ id owner. thrown }

abbrev app : App Cents
app = record {
  pending = [];
  agents = [];
  store = store;
  activity = none;
  push_tokens = some [];
  push_prefs = none;
  quiet_hours = none;
}

abbrev token : Option String
token = some "Bearer h.0xa-60.k/h"

abbrev draining : Strategy Cents
draining = strategy_of "h" canceling (StrategyParams.grid_limit grid_limit_params)

signed_in : owner_of deps (pos 50) token ≡ some "0xa"
unfolding owner_of verify verify_token
signed_in = refl

expo_tokens :
    (is_expo_push_token "ExponentPushToken[x-1]" ≡ true)
    × (is_expo_push_token "ExpoPushToken[]" ≡ false)
    × (is_expo_push_token "ExpoPushToken[a]b]" ≡ false)
    × (is_expo_push_token "ExpoPushToken[a" ≡ false)
unfolding is_expo_push_token
expo_tokens = (refl, refl, refl, refl)

errors_change_nothing_example :
    (handle deps draws token (Request.patch_strategy "h" running) app).1 ≡ app
unfolding handle serve owner_of verify verify_token Automation.patch_strategy Store.find
errors_change_nothing_example =
    errors_change_nothing deps draws token (Request.patch_strategy "h" running) app refl

strangers_change_nothing_example :
    Store.find "d" (handle deps draws none (Request.delete_strategy "d") app).1.store
    ≡ some dca_strategy
unfolding owner_of Store.find
strangers_change_nothing_example =
    strangers_change_nothing deps draws none (Request.delete_strategy "d") "d" dca_strategy app refl
      tt refl (refl, refl, (refl, refl, (refl, refl, tt)))

draining_kept_example :
    Store.find "h" (handle deps draws token (Request.patch_strategy "h" running) app).1.store
    ≡ some draining
unfolding Store.find
draining_kept_example =
    draining_kept deps draws token (Request.patch_strategy "h" running) "h" draining app refl refl
      refl refl (refl, refl, (refl, refl, (refl, refl, tt)))

requests_keep_ids_example :
    WellKeyed (handle deps draws token (Request.delete_strategy "d") app).1.store.by_id
requests_keep_ids_example =
    requests_keep_ids deps draws token (Request.delete_strategy "d") app
      (refl, refl, (refl, refl, (refl, refl, tt)))

kill_switch_pauses_example :
    (let answer = handle deps draws token Request.kill_switch app in
      (answer.0.status ≡ 204)
      × (Store.find "d" answer.1.store ≡ some (record dca_strategy { status = paused })))
unfolding Store.find
kill_switch_pauses_example =
    kill_switch_pauses deps draws token "0xa" "d" app signed_in
      (refl, refl, (refl, refl, (refl, refl, tt)))

abbrev grid : Strategy Cents
grid = strategy_of "g" running (StrategyParams.grid_limit grid_limit_params)

abbrev empty_book : OpenOrders Cents
empty_book = record { by_cloid = []; total = 0 }

abbrev reader : String → Effect ℕ (OpenOrders Cents)
reader owner w = (ok empty_book, w)

abbrev exec : RestingExecutor Cents ℕ
exec = record { place_limit = λ req w. (thrown, w); cancel_many = λ req w. (thrown, w) }

abbrev after_delete : Session Cents ℕ
after_delete = record session {
  store = (handle deps draws token (Request.delete_strategy "g") app).1.store;
}

deleted_grid_goes_example :
    (Store.find "g" after_delete.store ≡ some (stopped grid))
    × (Store.find "g"
          (grid_limit_at
            (context false)
            exec
            reader
            marks
            (stopped grid)
            grid.params
            after_delete).1.store
        ≡ none)
unfolding Store.find get_open handle serve owner_of verify verify_token Automation.delete_strategy
    Store.set_status Store.grid_limit_rungs candidates rung_count
deleted_grid_goes_example =
    deleted_grid_goes deps draws token "0xa" grid grid_limit_params app (context false) exec reader
      marks after_delete empty_book signed_in refl refl refl refl refl
      ((refl, tt), ((refl, tt), tt))
