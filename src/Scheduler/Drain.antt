-- ===== src/Scheduler/Drain.antt =====
-- The resting-grid pass of `tick`: draining a strategy that does not run. Its orders are cancelled, and
-- its rungs are cleared as the book shows the orders gone.
use hyper_solid.Prelude.{
  ℕ, ◌+◌, String, Bool, true, false, ◌&&◌, none, some, get_or, List, [], ◌∷◌, ◌++◌, is_some,
  is_empty, range_from, keep, Dict, lookup, insert, nat_eq, string_eq, map,
}
use hyper_solid.Number.{Number}
use hyper_solid.Strategies.Types.{StrategyStatus, canceling, Strategy, GridLimitParams}
use hyper_solid.Strategies.GridLimit.{RungState, rung_count}
use hyper_solid.Strategies.Store.{Store, grid_limit_rungs, set_grid_limit_rung, remove}
use hyper_solid.Scheduler.Context.{Context, Effect, OpenOrders}
use hyper_solid.Scheduler.Session.{
  Action, ◌>>=◌, ◌>>◌, gets, modify, on_store, when, unless, for_each,
}
use hyper_solid.Scheduler.Rungs.{idle_rung, is_open, get_open, rung_cloid}

abbrev pub is_canceling : StrategyStatus → Bool
is_canceling canceling = true
is_canceling _ = false

module _ {N : Type 0} where
  -- `new Map(store.gridLimitRungs(s.id).map((r) => [r.rung, r]))`
  abbrev pub stored_rungs : Strategy N → Store N → Dict ℕ (RungState N)
  stored_rungs s st = map (λ r. (r.rung, r)) (grid_limit_rungs s.id st)

  -- `stored.get(i) ?? { rung: i, state: "idle", ... }`
  abbrev pub rung_at : Dict ℕ (RungState N) → ℕ → RungState N
  rung_at stored i = get_or (lookup i stored) (idle_rung i 0)

module _ {N W : Type 0} ⦃num : Number N⦄ where
  -- The orders of a rung that may still rest: its own, and one that a crash left at the next number.
  unfoldable pub candidates : Context N W → Strategy N → RungState N → ℕ → List String
  unfolding rung_cloid
  candidates cx s r i = elim r.cloid [
    | none ↦ rung_cloid cx s i (r.seq + 1) ∷ []
    | some cloid ↦ cloid ∷ rung_cloid cx s i (r.seq + 1) ∷ []
  ]

  unfoldable pub resting_of :
      Context N W → Strategy N → OpenOrders N → RungState N → ℕ → List String
  unfolding candidates
  resting_of cx s orders r i = keep (λ c. is_open c orders) (candidates cx s r i)

  unfoldable pub to_cancel :
      Context N W → Strategy N → OpenOrders N → Dict ℕ (RungState N) → List ℕ → List String
  unfolding resting_of
  to_cancel cx s orders stored [] = []
  to_cancel cx s orders stored (i ∷ is) =
      resting_of cx s orders (rung_at stored i) i ++ to_cancel cx s orders stored is

  -- A rung is cleared only once the book shows none of its orders.
  unfoldable pub drain_rung :
      Context N W → Strategy N → OpenOrders N → Dict ℕ (RungState N) → ℕ → Action N W (Unit {0})
  unfolding resting_of
  drain_rung cx s orders stored i =
      let r = rung_at stored i in
      when (is_empty (resting_of cx s orders r i) && is_some r.cloid)
        (on_store (set_grid_limit_rung s.id (idle_rung i r.seq)))

  -- Paused, canceling or killed: cancel what rests, and remove a canceling strategy with none left.
  unfoldable pub drain :
      Context N W
      → (String → Effect W (OpenOrders N))
      → Strategy N
      → GridLimitParams N
      → Action N W (Unit {0})
  unfolding get_open to_cancel drain_rung for_each
  drain cx reader s p = do
    orders ← get_open reader s.owner
    stored ← gets (λ y. stored_rungs s y.store)
    let rungs = range_from 0 (rung_count p)
    for_each rungs (drain_rung cx s orders stored)
    let ids = to_cancel cx s orders stored rungs
    unless (is_empty ids) (
        modify λ y. record y {
          cancels_by_owner =
              insert s.owner
                (get_or (lookup s.owner y.cancels_by_owner) [] ++ map (λ c. (p.coin, c)) ids)
                y.cancels_by_owner;
        })
    when (is_canceling s.status && is_empty ids) (on_store (remove s.id))
