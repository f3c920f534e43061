-- ===== src/Scheduler/Evolution.antt =====
-- How each pass of `tick` in server/src/engine/scheduler.ts lets the strategies of the store evolve.
use hyper_solid.Prelude.{String, Option, none, some}
use hyper_solid.Number.{Number}
use hyper_solid.Strategies.Types.{Side, buy, sell, StrategyParams, Strategy, GridParams}
use hyper_solid.Strategies.Store.{Store}
use hyper_solid.Scheduler.Context.{Context, MarkDeps}
use hyper_solid.Scheduler.Entries.{dca_at, twap_at, scheduled_at, conditional_at}
use hyper_solid.Scheduler.Stops.{close_position, tpsl_at, trailing_at}
use hyper_solid.Scheduler.Grid.{
  grid_symmetric, long_only_order, long_only_action, grid_long_only, grid_at,
}
use hyper_solid.Scheduler.Keeps.{Keeps, on_store-Keeps, skip-Keeps, steady}
use hyper_solid.Scheduler.Lifecycle.{
  Follows, record_trigger-Follows, seed_grid_level-Follows, set_trail_peak-Follows,
  set_grid_limit_rung-Follows, record_fill-Follows, record_grid_action-Follows,
  add_filled_usdc-Follows,
}

ruleset writes = (
  steady, on_store-Keeps, record_trigger-Follows, seed_grid_level-Follows, set_trail_peak-Follows,
  set_grid_limit_rung-Follows, record_fill-Follows, record_grid_action-Follows,
  add_filled_usdc-Follows,
)

module _ {N W : Type 0} ⦃num : Number N⦄ (Removable : String → Type 0) (start : Store N)
    (cx : Context N W) where
  abbrev I : Store N → Type 0
  I = Follows Removable start

  pub dca_at-Keeps : (s : Strategy N) (q : StrategyParams N) → Keeps I (dca_at cx s q)
  unfolding dca_at
  dca_at-Keeps s (StrategyParams.dca p) = search writes depth 12
  dca_at-Keeps s _ = skip-Keeps _

  pub twap_at-Keeps : (s : Strategy N) (q : StrategyParams N) → Keeps I (twap_at cx s q)
  unfolding twap_at
  twap_at-Keeps s (StrategyParams.twap p) = search writes depth 14
  twap_at-Keeps s _ = skip-Keeps _

  pub scheduled_at-Keeps : (s : Strategy N) (q : StrategyParams N) → Keeps I (scheduled_at cx s q)
  unfolding scheduled_at
  scheduled_at-Keeps s (StrategyParams.scheduled p) = search writes depth 14
  scheduled_at-Keeps s _ = skip-Keeps _

  pub conditional_at-Keeps :
      (marks : MarkDeps N W) (s : Strategy N) (q : StrategyParams N)
      → Keeps I (conditional_at cx marks s q)
  unfolding conditional_at
  conditional_at-Keeps marks s (StrategyParams.conditional p) = search writes depth 18
  conditional_at-Keeps marks s _ = skip-Keeps _

  close_position-Keeps :
      (s : Strategy N) (coin : String) (szi : N) → Keeps I (close_position cx s coin szi)
  unfolding close_position
  close_position-Keeps s coin szi = search writes depth 12

  pub tpsl_at-Keeps :
      (marks : MarkDeps N W) (s : Strategy N) (q : StrategyParams N)
      → Keeps I (tpsl_at cx marks s q)
  unfolding tpsl_at
  tpsl_at-Keeps marks s (StrategyParams.tpsl p) = search (writes, close_position-Keeps) depth 18
  tpsl_at-Keeps marks s _ = skip-Keeps _

  pub trailing_at-Keeps :
      (marks : MarkDeps N W) (s : Strategy N) (q : StrategyParams N)
      → Keeps I (trailing_at cx marks s q)
  unfolding trailing_at
  trailing_at-Keeps marks s (StrategyParams.trailing p) =
      search (writes, close_position-Keeps) depth 18
  trailing_at-Keeps marks s _ = skip-Keeps _

  grid_symmetric-Keeps :
      (marks : MarkDeps N W) (s : Strategy N) (p : GridParams N) (mark band : N)
      → Keeps I (grid_symmetric cx marks s p mark band)
  unfolding grid_symmetric
  grid_symmetric-Keeps marks s p mark band = search writes depth 16

  long_only_order-Keeps :
      (s : Strategy N) (coin : String) (usdc level : N) (side : Side)
      → Keeps I (long_only_order cx s coin usdc level side)
  unfolding long_only_order
  long_only_order-Keeps s coin usdc level side = search writes depth 12

  long_only_action-Keeps :
      (marks : MarkDeps N W) (s : Strategy N) (coin : String) (usdc level : N) (side : Side)
      → Keeps I (long_only_action cx marks s coin usdc level side)
  unfolding long_only_action
  long_only_action-Keeps marks s coin usdc level buy =
      search (writes, long_only_order-Keeps) depth 12
  long_only_action-Keeps marks s coin usdc level sell =
      search (writes, long_only_order-Keeps) depth 12

  grid_long_only-Keeps :
      (marks : MarkDeps N W) (s : Strategy N) (p : GridParams N) (band : N) (last : Option N)
      → Keeps I (grid_long_only cx marks s p band last)
  unfolding grid_long_only
  grid_long_only-Keeps marks s p band none = search writes
  grid_long_only-Keeps marks s p band (some last) = search (writes, long_only_action-Keeps) depth 12

  pub grid_at-Keeps :
      (marks : MarkDeps N W) (s : Strategy N) (q : StrategyParams N)
      → Keeps I (grid_at cx marks s q)
  unfolding grid_at
  grid_at-Keeps marks s (StrategyParams.grid p) =
      search (writes, grid_symmetric-Keeps, grid_long_only-Keeps) depth 16
  grid_at-Keeps marks s _ = skip-Keeps _
