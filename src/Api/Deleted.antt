-- ===== src/Api/Deleted.antt =====
-- The end of a grid of resting orders that a request to server/src/http/app.ts deletes and that the
-- scheduler of server/src/engine/scheduler.ts drains.
use hyper_solid.Prelude.{
  String, true, ◌≡◌, refl, ap, ◌∙◌, inl, inr, Option, none, some, string_eq, ◌==◌, Bool-cases,
  arith, range_from,
}
use hyper_solid.Number.{Number}
use hyper_solid.Strategies.Types.{canceling, StrategyParams, Strategy, GridLimitParams}
use hyper_solid.Strategies.GridLimit.{rung_count}
use hyper_solid.Strategies.Store
use hyper_solid.Strategies.Store.{Store}
use hyper_solid.Scheduler.Context.{ok, Context, Effect, MarkDeps, OpenOrders, RestingExecutor}
use hyper_solid.Scheduler.Session.{Session}
use hyper_solid.Scheduler.Rungs.{get_open}
use hyper_solid.Scheduler.Drain.{stored_rungs}
use hyper_solid.Scheduler.Drained.{AllGone, grid_limit_at_removes}
use hyper_solid.Scheduler.Resting.{grid_limit_at}
use hyper_solid.Scheduler.Settled.{find-update_self}
use hyper_solid.Api.Types.{App, AppDeps, Draws, Request}
use hyper_solid.Api.Account.{owner_of, done}
use hyper_solid.Api.Automation
use hyper_solid.Api.Handler.{handle, serve}

module _ {N : Type 0} where
  -- The strategy as a deletion leaves it, when it is a grid of resting orders.
  abbrev pub stopped : Strategy N → Strategy N
  stopped s = record s { status = canceling }

  stopped_same : (s : Strategy N) → Automation.is_status_canceling s.status ≡ true → s ≡ stopped s
  stopped_same s h =
      let e : s.status ≡ canceling = ground arith in ap (λ x. record s { status = x }) e

  find-delete_owned :
      (id : String) (s : Strategy N) (p : GridLimitParams N) (st : Store N)
      → Store.find id st ≡ some s
      → Store.find id (Automation.delete_owned id s (StrategyParams.grid_limit p) st)
        ≡ some (stopped s)
  unfolding Store.set_status
  find-delete_owned id s p st found = elim (Bool-cases (Automation.is_status_canceling s.status)) [
    | inl drains ↦ rw drains (found ∙ ap some (stopped_same s drains))
    | inr stands ↦ rw stands (find-update_self id (λ t. record t { status = canceling }) st found)
  ]

module _ {N : Type 0} ⦃num : Number N⦄ where
  handle-delete :
      (deps : AppDeps N) (draws : Draws N) (authorization : Option String) (caller id : String)
      (s : Strategy N) (app : App N)
      → owner_of deps draws.now authorization ≡ some caller
      → Store.find id app.store ≡ some s
      → (deps.lower s.owner == deps.lower caller) ≡ true
      → handle deps draws authorization (Request.delete_strategy id) app
        ≡ (done, record app { store = Automation.delete_owned id s s.params app.store })
  unfolding handle serve Automation.delete_strategy
  handle-delete deps draws authorization caller id s app known found mine =
      rw (known, found, mine) refl

  -- A deleted grid goes away. Its owner's request to delete it leaves it canceling; and a step of
  -- the scheduler on it, from the store that the request left, removes it where the reader answers
  -- with a book that has no order of its rungs, neither the one that a rung names nor the next one,
  -- whatever the kill switch, the executor and the marks are.
  pub deleted_grid_goes :
      {W : Type 0} (deps : AppDeps N) (draws : Draws N) (authorization : Option String)
      (caller : String) (s : Strategy N) (p : GridLimitParams N) (app : App N) (cx : Context N W)
      (exec : RestingExecutor N W) (reader : String → Effect W (OpenOrders N))
      (marks : MarkDeps N W) (y : Session N W) (orders : OpenOrders N)
      → owner_of deps draws.now authorization ≡ some caller
      → Store.find s.id app.store ≡ some s
      → (deps.lower s.owner == deps.lower caller) ≡ true
      → s.params ≡ StrategyParams.grid_limit p
      → y.store ≡ (handle deps draws authorization (Request.delete_strategy s.id) app).1.store
      → (get_open reader s.owner y).0 ≡ ok orders
      → AllGone cx (stopped s) orders (stored_rungs s y.store) (range_from 0 (rung_count p))
      → (Store.find s.id y.store ≡ some (stopped s))
        × (Store.find s.id (grid_limit_at cx exec reader marks (stopped s) s.params y).1.store
            ≡ none)
  deleted_grid_goes deps draws authorization caller s p app cx exec reader marks y orders known
        found mine kind left book gone =
      (
        ap (Store.find s.id) (
              left
              ∙ ap (λ r. r.1.store)
                  (handle-delete deps draws authorization caller s.id s app known found mine)
              ∙ ap (λ q. Automation.delete_owned s.id s q app.store) kind)
            ∙ find-delete_owned s.id s p app.store found,
        grid_limit_at_removes cx (stopped s) exec reader marks p y orders kind refl book gone,
      )
