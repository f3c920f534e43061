-- ===== src/Scheduler/Tagged.antt =====
-- The order ids of the rungs that the resting-grid pass of server/src/engine/scheduler.ts stores.
use hyper_solid.Prelude.{
  ℕ, String, refl, Option, none, some, List, [], ◌∷◌, Dict, string_eq, nat_eq,
}
use hyper_solid.Number.{Number}
use hyper_solid.Strategies.Types.{Side, StrategyParams, Strategy, GridLimitParams}
use hyper_solid.Strategies.GridLimit.{armed, holding, RungState}
use hyper_solid.Strategies.Store.{Store, remove, set_grid_limit_rung, add_filled_usdc}
use hyper_solid.Scheduler.Session.{on_store, for_each, modify, gets, Session}
use hyper_solid.Scheduler.Tick.{grid_limit_pass}
use hyper_solid.Scheduler.Context.{
  Context, Effect, MarkDeps, OpenOrders, RestingExecutor, CloidFill,
}
use hyper_solid.Scheduler.Rungs.{
  Desk, place_exit, place_entry, rung_cloid, set_rung, rung, idle_rung,
}
use hyper_solid.Scheduler.Resting.{
  arm, entry_filled, exit_filled, rung_step, reconcile, grid_limit_at, send_cancels,
}
use hyper_solid.Scheduler.Drain.{drain, drain_rung}
use hyper_solid.Scheduler.Keeps.{
  Keeps, >>=-Keeps, on_store-Keeps, for_all-Keeps, skip-Keeps, cancel_many-Keeps, modify-Keeps,
  gets-Keeps, steady,
}
use hyper_solid.Scheduler.RungTags.{
  TaggedStore, set_rung-TaggedStore, add_filled_usdc-TaggedStore, remove-TaggedStore,
}
use hyper_solid.Scheduler.Reads.{get_open-Keeps, get_fills-Keeps}

module _ {N W : Type 0} ⦃num : Number N⦄ (cx : Context N W) where
  abbrev I : Store N → Type 0
  I = TaggedStore cx

  own_rung-Keeps :
      (d : Desk N W) (i : ℕ) (side : Option Side) (px : Option N) (seq : ℕ)
      → Keeps I (set_rung d (rung i holding side (some (rung_cloid cx d.strategy i seq)) px seq))
  unfolding rung_cloid
  own_rung-Keeps d i side px seq =
      on_store-Keeps I _ (λ st. set_rung-TaggedStore cx d.strategy.id _ st refl)

  armed_rung-Keeps :
      (d : Desk N W) (i : ℕ) (side : Option Side) (px : Option N) (seq : ℕ)
      → Keeps I (set_rung d (rung i armed side (some (rung_cloid cx d.strategy i seq)) px seq))
  unfolding rung_cloid
  armed_rung-Keeps d i side px seq =
      on_store-Keeps I _ (λ st. set_rung-TaggedStore cx d.strategy.id _ st refl)

  bare_rung-Keeps :
      (d : Desk N W) (i : ℕ) (side : Option Side) (px : Option N) (seq : ℕ)
      → Keeps I (set_rung d (rung i holding side none px seq))
  bare_rung-Keeps d i side px seq =
      on_store-Keeps I _ (λ st. set_rung-TaggedStore cx d.strategy.id _ st tt)

  free_rung-Keeps :
      (id : String) (i seq : ℕ)
      → Keeps I (on_store {W = W} (set_grid_limit_rung id (idle_rung i seq)))
  free_rung-Keeps id i seq = on_store-Keeps I _ (λ st. set_rung-TaggedStore cx id _ st tt)

  gain-Keeps : (id : String) (usdc : N) → Keeps I (on_store {W = W} (add_filled_usdc id usdc))
  gain-Keeps id usdc = on_store-Keeps I _ (add_filled_usdc-TaggedStore cx id usdc)

  remove-Keeps : (id : String) → Keeps I (on_store {W = W} (remove id))
  remove-Keeps id = on_store-Keeps I _ (remove-TaggedStore cx id)

  ruleset tagging = (
    steady, own_rung-Keeps, armed_rung-Keeps, bare_rung-Keeps, free_rung-Keeps, gain-Keeps,
    remove-Keeps,
  )

  place_exit-Keeps :
      (d : Desk N W) (i : ℕ) (r : RungState N) (side : Side) (price size : N)
      → Keeps I (place_exit cx d i r side price size)
  unfolding place_exit
  place_exit-Keeps d i r side price size = search tagging depth 14

  place_entry-Keeps :
      (d : Desk N W) (i : ℕ) (r : RungState N) (side : Side) (price size : N)
      → Keeps I (place_entry cx d i r side price size)
  unfolding place_entry
  place_entry-Keeps d i r side price size = search tagging depth 16

  arm-Keeps : (d : Desk N W) (mark : N) (i : ℕ) (r : RungState N) → Keeps I (arm cx d mark i r)
  unfolding arm
  arm-Keeps d mark i r = search (steady, place_exit-Keeps, place_entry-Keeps) depth 12

  entry_filled-Keeps :
      (d : Desk N W) (i : ℕ) (r : RungState N) (fill : Option (CloidFill N))
      → Keeps I (entry_filled cx d i r fill)
  unfolding entry_filled
  entry_filled-Keeps d i r fill = search (steady, place_exit-Keeps) depth 12

  exit_filled-Keeps :
      (d : Desk N W) (mark : N) (i : ℕ) (r : RungState N) (fill : Option (CloidFill N))
      → Keeps I (exit_filled cx d mark i r fill)
  unfolding exit_filled
  exit_filled-Keeps d mark i r fill = search (tagging, arm-Keeps) depth 12

  rung_step-Keeps :
      (d : Desk N W) (mark : N) (stored : Dict ℕ (RungState N)) (i : ℕ)
      → Keeps I (rung_step cx d mark stored i)
  unfolding rung_step
  rung_step-Keeps d mark stored i =
      search (steady, get_fills-Keeps, entry_filled-Keeps, exit_filled-Keeps, arm-Keeps) depth 12

  reconcile-Keeps :
      (exec : RestingExecutor N W) (reader : String → Effect W (OpenOrders N))
      (marks : MarkDeps N W) (s : Strategy N) (p : GridLimitParams N)
      → Keeps I (reconcile cx exec reader marks s p)
  unfolding reconcile
  reconcile-Keeps exec reader marks s p =
      search (steady, get_open-Keeps, for_all-Keeps, rung_step-Keeps) depth 14

  drain_rung-Keeps :
      (s : Strategy N) (orders : OpenOrders N) (stored : Dict ℕ (RungState N)) (i : ℕ)
      → Keeps I (drain_rung cx s orders stored i)
  unfolding drain_rung
  drain_rung-Keeps s orders stored i = search tagging depth 10

  drain-Keeps :
      (reader : String → Effect W (OpenOrders N)) (s : Strategy N) (p : GridLimitParams N)
      → Keeps I (drain cx reader s p)
  unfolding drain
  drain-Keeps reader s p =
      search (tagging, get_open-Keeps, for_all-Keeps, drain_rung-Keeps) depth 14

  grid_limit_at-Keeps :
      (exec : RestingExecutor N W) (reader : String → Effect W (OpenOrders N))
      (marks : MarkDeps N W) (s : Strategy N) (q : StrategyParams N)
      → Keeps I (grid_limit_at cx exec reader marks s q)
  unfolding grid_limit_at
  grid_limit_at-Keeps exec reader marks s (StrategyParams.grid_limit p) =
      search (steady, drain-Keeps, reconcile-Keeps) depth 8
  grid_limit_at-Keeps exec reader marks s _ = skip-Keeps _

  send_cancels-Keeps :
      (exec : RestingExecutor N W) (cancels : Dict String (List (String × String)))
      → Keeps I (send_cancels exec cancels)
  unfolding send_cancels
  send_cancels-Keeps exec [] = skip-Keeps _
  send_cancels-Keeps exec ((owner, ids) ∷ rest) =
      >>=-Keeps _ _ _ (cancel_many-Keeps _ exec _) (λ _. send_cancels-Keeps exec rest)

  every_grid_limit-Keeps :
      (exec : RestingExecutor N W) (reader : String → Effect W (OpenOrders N))
      (marks : MarkDeps N W) (all : List (Strategy N))
      → Keeps I (for_each all (λ s. grid_limit_at cx exec reader marks s s.params))
  every_grid_limit-Keeps exec reader marks all =
      for_all-Keeps I all _ (λ s. grid_limit_at-Keeps exec reader marks s s.params)

  grid_limit_pass-Keeps :
      (exec : RestingExecutor N W) (reader : String → Effect W (OpenOrders N))
      (marks : MarkDeps N W) (all : List (Strategy N))
      → Keeps I (grid_limit_pass cx exec reader marks all)
  unfolding grid_limit_pass
  grid_limit_pass-Keeps exec reader marks all =
      >>=-Keeps I (modify _) _ (modify-Keeps I _ (λ y. refl)) λ _.
        >>=-Keeps I _ _ (every_grid_limit-Keeps exec reader marks all) λ _.
          >>=-Keeps I (gets (λ y. y.cancels_by_owner)) _ (gets-Keeps I _)
            (λ cancels. send_cancels-Keeps exec cancels)

  -- The pass over the resting grids keeps the store's rungs in order, whatever the world answers and
  -- also when a call throws in the middle: a free rung tracks no order, an armed one tracks the order
  -- of its own place and number, and a held one that order or none.
  pub grid_limit_pass_tags :
      (exec : RestingExecutor N W) (reader : String → Effect W (OpenOrders N))
      (marks : MarkDeps N W) (all : List (Strategy N)) (y : Session N W)
      → TaggedStore cx y.store
      → TaggedStore cx (grid_limit_pass cx exec reader marks all y).1.store
  grid_limit_pass_tags exec reader marks all y tagged =
      (grid_limit_pass-Keeps exec reader marks all).after y tagged
