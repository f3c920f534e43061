-- ===== src/Scheduler/Tick.antt =====
-- `tick` of server/src/engine/scheduler.ts: the eight passes in their order, over the strategies that
-- the store held at the start.
use hyper_solid.Prelude.{String, List, []}
use hyper_solid.Number.{Number}
use hyper_solid.Strategies.Types.{Strategy}
use hyper_solid.Strategies.Rules.{due_dca, due_twap}
use hyper_solid.Strategies.Store.{list_all}
use hyper_solid.Scheduler.Context.{Context, Effect, MarkDeps, OpenOrders, RestingExecutor}
use hyper_solid.Scheduler.Session.{Action, ◌>>=◌, ◌>>◌, gets, modify, with_some, for_each}
use hyper_solid.Scheduler.Entries.{dca_step, twap_step, scheduled_step, conditional_step}
use hyper_solid.Scheduler.Stops.{tpsl_step, trailing_step}
use hyper_solid.Scheduler.Grid.{grid_step_of}
use hyper_solid.Scheduler.Resting.{grid_limit_at, send_cancels}

module _ {N W : Type 0} ⦃num : Number N⦄ where
  -- The caches of the pass are new in each tick.
  unfoldable pub grid_limit_pass :
      Context N W
      → RestingExecutor N W
      → (String → Effect W (OpenOrders N))
      → MarkDeps N W
      → List (Strategy N)
      → Action N W (Unit {0})
  unfolding grid_limit_at send_cancels for_each
  grid_limit_pass cx exec reader marks all = do
    modify λ y. record y { open_by_owner = []; fills_by_owner = []; cancels_by_owner = [] }
    for_each all (λ s. grid_limit_at cx exec reader marks s s.params)
    cancels ← gets (λ y. y.cancels_by_owner)
    send_cancels exec cancels

  -- The passes over the strategies that the store held at the start.
  unfoldable pub tick_over : Context N W → List (Strategy N) → Action N W (Unit {0})
  unfolding for_each dca_step twap_step scheduled_step tpsl_step trailing_step conditional_step
      grid_step_of grid_limit_pass
  tick_over cx all = do
    for_each (due_dca all cx.now) (dca_step cx)
    for_each (due_twap all cx.now) (twap_step cx)
    for_each all (scheduled_step cx)
    with_some cx.marks λ marks. for_each all (tpsl_step cx marks)
    with_some cx.marks λ marks. for_each all (trailing_step cx marks)
    with_some cx.marks λ marks. for_each all (conditional_step cx marks)
    with_some cx.marks λ marks. for_each all (grid_step_of cx marks)
    with_some cx.resting_exec λ exec.
        with_some cx.open_orders
          λ reader. with_some cx.marks λ marks. grid_limit_pass cx exec reader marks all

  unfoldable pub tick : Context N W → Action N W (Unit {0})
  unfolding list_all tick_over
  tick cx = do all ← gets (λ y. list_all y.store); tick_over cx all
