-- ===== src/Scheduler/RestingEvolution.antt =====
-- How the resting-grid pass of `tick` in server/src/engine/scheduler.ts lets the strategies of the store evolve.
use hyper_solid.Prelude.{
  ℕ, String, Bool, true, ◌≡◌, refl, ◌&&◌, Option, List, [], ◌∷◌, All, arith, Dict,
}
use hyper_solid.Number.{Number}
use hyper_solid.Strategies.Types.{Side, StrategyParams, Strategy, GridLimitParams}
use hyper_solid.Strategies.GridLimit.{RungState}
use hyper_solid.Strategies.Store.{Store, remove}
use hyper_solid.Scheduler.Session.{on_store, when, for_each, modify, gets}
use hyper_solid.Scheduler.Tick.{grid_limit_pass}
use hyper_solid.Scheduler.Context.{
  Context, Effect, MarkDeps, OpenOrders, RestingExecutor, CloidFill,
}
use hyper_solid.Scheduler.Rungs.{Desk, place_exit, place_entry}
use hyper_solid.Scheduler.Resting.{
  arm, entry_filled, exit_filled, rung_step, reconcile, grid_limit_at, send_cancels,
}
use hyper_solid.Scheduler.Drain.{is_canceling, drain, drain_rung}
use hyper_solid.Scheduler.Keeps.{
  Keeps, >>=-Keeps, on_store-Keeps, for_each-Keeps, for_all-Keeps, skip-Keeps, when-Keeps,
  cancel_many-Keeps, modify-Keeps, gets-Keeps, steady,
}
use hyper_solid.Scheduler.Lifecycle.{
  Follows, record_trigger-Follows, seed_grid_level-Follows, set_trail_peak-Follows,
  set_grid_limit_rung-Follows, remove-Follows, record_fill-Follows, record_grid_action-Follows,
  add_filled_usdc-Follows,
}
use hyper_solid.Scheduler.Reads.{get_open-Keeps, get_fills-Keeps}

ruleset writes = (
  steady, on_store-Keeps, record_trigger-Follows, seed_grid_level-Follows, set_trail_peak-Follows,
  set_grid_limit_rung-Follows, record_fill-Follows, record_grid_action-Follows,
  add_filled_usdc-Follows,
)

module _ {N W : Type 0} ⦃num : Number N⦄ (Removable : String → Type 0) (start : Store N)
    (cx : Context N W) where
  abbrev I : Store N → Type 0
  I = Follows Removable start

  place_exit-Keeps :
      (d : Desk N W) (i : ℕ) (r : RungState N) (side : Side) (price size : N)
      → Keeps I (place_exit cx d i r side price size)
  unfolding place_exit
  place_exit-Keeps d i r side price size = search writes depth 14

  place_entry-Keeps :
      (d : Desk N W) (i : ℕ) (r : RungState N) (side : Side) (price size : N)
      → Keeps I (place_entry cx d i r side price size)
  unfolding place_entry
  place_entry-Keeps d i r side price size = search writes depth 16

  arm-Keeps : (d : Desk N W) (mark : N) (i : ℕ) (r : RungState N) → Keeps I (arm cx d mark i r)
  unfolding arm
  arm-Keeps d mark i r = search (steady, place_exit-Keeps, place_entry-Keeps) depth 12

  entry_filled-Keeps :
      (d : Desk N W) (i : ℕ) (r : RungState N) (fill : Option (CloidFill N))
      → Keeps I (entry_filled cx d i r fill)
  unfolding entry_filled
  entry_filled-Keeps d i r fill = search (steady, place_exit-Keeps) depth 12

  exit_filled-Keeps :
      (d : Desk N W) (mark : N) (i : ℕ) (r : RungState N) (fill : Option (CloidFill N))
      → Keeps I (exit_filled cx d mark i r fill)
  unfolding exit_filled
  exit_filled-Keeps d mark i r fill = search (writes, arm-Keeps) depth 12

  rung_step-Keeps :
      (d : Desk N W) (mark : N) (stored : Dict ℕ (RungState N)) (i : ℕ)
      → Keeps I (rung_step cx d mark stored i)
  unfolding rung_step
  rung_step-Keeps d mark stored i =
      search (steady, get_fills-Keeps, entry_filled-Keeps, exit_filled-Keeps, arm-Keeps) depth 12

  reconcile-Keeps :
      (exec : RestingExecutor N W) (reader : String → Effect W (OpenOrders N))
      (marks : MarkDeps N W) (s : Strategy N) (p : GridLimitParams N)
      → Keeps I (reconcile cx exec reader marks s p)
  unfolding reconcile
  reconcile-Keeps exec reader marks s p =
      search (steady, get_open-Keeps, for_all-Keeps, rung_step-Keeps) depth 14

  drain_rung-Keeps :
      (s : Strategy N) (orders : OpenOrders N) (stored : Dict ℕ (RungState N)) (i : ℕ)
      → Keeps I (drain_rung cx s orders stored i)
  unfolding drain_rung
  drain_rung-Keeps s orders stored i = search writes depth 10

  -- Only a canceling strategy is removed.
  remove_canceling-Keeps :
      (s : Strategy N) (empty : Bool)
      → (is_canceling s.status ≡ true → Removable s.id)
      → Keeps I (when (is_canceling s.status && empty) (on_store {W = W} (remove s.id)))
  remove_canceling-Keeps s empty may =
      when-Keeps I _ _
        (λ h. on_store-Keeps I _ (remove-Follows Removable start s.id (may (ground arith))))

  drain-Keeps :
      (reader : String → Effect W (OpenOrders N)) (s : Strategy N) (p : GridLimitParams N)
      → (is_canceling s.status ≡ true → Removable s.id)
      → Keeps I (drain cx reader s p)
  unfolding drain
  drain-Keeps reader s p may =
      search (steady, get_open-Keeps, for_all-Keeps, drain_rung-Keeps, remove_canceling-Keeps) depth
        14

  grid_limit_at-Keeps :
      (exec : RestingExecutor N W) (reader : String → Effect W (OpenOrders N))
      (marks : MarkDeps N W) (s : Strategy N) (q : StrategyParams N)
      → (is_canceling s.status ≡ true → Removable s.id)
      → Keeps I (grid_limit_at cx exec reader marks s q)
  unfolding grid_limit_at
  grid_limit_at-Keeps exec reader marks s (StrategyParams.grid_limit p) may =
      search (steady, drain-Keeps, reconcile-Keeps) depth 8
  grid_limit_at-Keeps exec reader marks s _ may = skip-Keeps _

  send_cancels-Keeps :
      (exec : RestingExecutor N W) (cancels : Dict String (List (String × String)))
      → Keeps I (send_cancels exec cancels)
  unfolding send_cancels
  send_cancels-Keeps exec [] = skip-Keeps _
  send_cancels-Keeps exec ((owner, ids) ∷ rest) =
      >>=-Keeps _ _ _ (cancel_many-Keeps _ exec _) (λ _. send_cancels-Keeps exec rest)

  every_grid_limit-Keeps :
      (exec : RestingExecutor N W) (reader : String → Effect W (OpenOrders N))
      (marks : MarkDeps N W) (all : List (Strategy N))
      → All (λ s. is_canceling s.status ≡ true → Removable s.id) all
      → Keeps I (for_each all (λ s. grid_limit_at cx exec reader marks s s.params))
  every_grid_limit-Keeps exec reader marks all may =
      for_each-Keeps I (λ s. is_canceling s.status ≡ true → Removable s.id) all _ may
        (λ s h. grid_limit_at-Keeps exec reader marks s s.params h)

  pub grid_limit_pass-Keeps :
      (exec : RestingExecutor N W) (reader : String → Effect W (OpenOrders N))
      (marks : MarkDeps N W) (all : List (Strategy N))
      → All (λ s. is_canceling s.status ≡ true → Removable s.id) all
      → Keeps I (grid_limit_pass cx exec reader marks all)
  unfolding grid_limit_pass
  grid_limit_pass-Keeps exec reader marks all may =
      >>=-Keeps I (modify _) _ (modify-Keeps I _ (λ y. refl)) λ _.
        >>=-Keeps I _ _ (every_grid_limit-Keeps exec reader marks all may) λ _.
          >>=-Keeps I (gets (λ y. y.cancels_by_owner)) _ (gets-Keeps I _)
            (λ cancels. send_cancels-Keeps exec cancels)
