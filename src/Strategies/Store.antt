-- ===== src/Strategies/Store.antt =====
-- server/src/strategies/store.ts: `MemoryStrategyStore`. An id of a new strategy comes from
-- `randomUUID`, which is an argument here.
use hyper_solid.Prelude.{
  ℕ, ◌+◌, String, Option, none, some, get_or, List, [], ◌∷◌, map, if◌then◌else◌, leb, lookup,
  insert, erase, Dict, keep, string_eq, nat_eq, ◌==◌,
}
use hyper_solid.Number.{Number}
use hyper_solid.Strategies.Types.{StrategyStatus, running, completed, StrategyParams, Strategy}
use hyper_solid.Strategies.GridLimit.{RungState}

pub record Store (N : Type 0) : Type 0 where
  pub by_id : Dict String (Strategy N)
  pub rungs : Dict String (Dict ℕ (RungState N))

module _ {N : Type 0} where
  unfoldable pub empty : Store N
  empty = record { by_id = []; rungs = [] }

  unfoldable pub find : String → Store N → Option (Strategy N)
  find id st = lookup id st.by_id

  unfoldable pub list_all : Store N → List (Strategy N)
  list_all st = map (λ kv. kv.1) st.by_id

  -- Write the strategy of an id anew, if it is there.
  abbrev pub update : String → (Strategy N → Strategy N) → Store N → Store N
  update id f st = elim (lookup id st.by_id) [
    | none ↦ st
    | some s ↦ record st { by_id = insert id (f s) st.by_id }
  ]

  unfoldable pub set_status : String → StrategyStatus → Store N → Store N
  set_status id status = update id λ s. record s { status = status }

  unfoldable pub record_trigger : String → N → Store N → Store N
  record_trigger id now = update id λ s. record s { triggered_at = some now; status = completed }

  unfoldable pub seed_grid_level : String → N → Store N → Store N
  seed_grid_level id level = update id λ s. record s { last_level = some level }

  unfoldable pub set_trail_peak : String → N → Store N → Store N
  set_trail_peak id peak = update id λ s. record s { trail_peak = some peak }

  -- `[...].sort((a, b) => a.rung - b.rung)`
  abbrev insert_sorted : RungState N → List (RungState N) → List (RungState N)
  insert_sorted r [] = r ∷ []
  insert_sorted r (q ∷ qs) = if leb r.rung q.rung then r ∷ q ∷ qs else q ∷ insert_sorted r qs

  abbrev pub sort_rungs : List (RungState N) → List (RungState N)
  sort_rungs [] = []
  sort_rungs (r ∷ rs) = insert_sorted r (sort_rungs rs)

  unfoldable pub grid_limit_rungs : String → Store N → List (RungState N)
  grid_limit_rungs id st = sort_rungs (map (λ kv. kv.1) (get_or (lookup id st.rungs) []))

  unfoldable pub set_grid_limit_rung : String → RungState N → Store N → Store N
  set_grid_limit_rung id r st = record st {
    rungs = insert id (insert r.rung r (get_or (lookup id st.rungs) [])) st.rungs;
  }

  unfoldable pub remove : String → Store N → Store N
  remove id st = record st { by_id = erase id st.by_id; rungs = erase id st.rungs }

  -- `this.listAll().filter(...)`, with `toLowerCase` as an argument
  unfoldable pub list_of : (String → String) → String → Store N → List (Strategy N)
  unfolding list_all
  list_of lower owner st = keep (λ s. lower s.owner == lower owner) (list_all st)

module _ {N : Type 0} ⦃num : Number N⦄ where
  open num use {of_ℕ, add}

  unfoldable pub build : String → String → StrategyParams N → N → Strategy N
  build id owner params now =
      let blank : Strategy N = record {
        id = id;
        owner = owner;
        status = running;
        created_at = now;
        params = params;
        next_run_at = none;
        filled_total_usdc = none;
        slices_done = none;
        triggered_at = none;
        last_level = none;
        actions_done = none;
        trail_peak = none;
      } in
      elim params [
        | StrategyParams.dca _ ↦ record blank {
          next_run_at = some now;
          filled_total_usdc = some (of_ℕ 0);
        }
        | StrategyParams.twap _ ↦ record blank {
          next_run_at = some now;
          filled_total_usdc = some (of_ℕ 0);
          slices_done = some 0;
        }
        | StrategyParams.grid _ ↦ record blank {
          filled_total_usdc = some (of_ℕ 0);
          actions_done = some 0;
        }
        | StrategyParams.grid_limit _ ↦ record blank { filled_total_usdc = some (of_ℕ 0) }
        | _ ↦ blank
      ]

  unfoldable pub create : String → String → StrategyParams N → N → Store N → Store N × Strategy N
  unfolding build
  create id owner params now st =
      let s = build id owner params now in (record st { by_id = insert id s st.by_id }, s)

  -- One more slice of a TWAP strategy, which completes it with the last.
  abbrev pub next_slice : StrategyParams N → Strategy N → Strategy N
  next_slice (StrategyParams.twap p) s =
      let done = get_or s.slices_done 0 + 1 in
      if leb p.slices done
      then record s { slices_done = some done; status = completed }
      else record s { slices_done = some done }
  next_slice _ s = s

  unfoldable pub record_fill : String → N → N → Store N → Store N
  record_fill id quote_usdc next_run_at = update id λ s. next_slice s.params (record s {
    filled_total_usdc = some (add (get_or s.filled_total_usdc (of_ℕ 0)) quote_usdc);
    next_run_at = some next_run_at;
  })

  unfoldable pub record_grid_action : String → N → N → Store N → Store N
  record_grid_action id new_level bought_usdc = update id λ s. record s {
    last_level = some new_level;
    actions_done = some (get_or s.actions_done 0 + 1);
    filled_total_usdc = some (add (get_or s.filled_total_usdc (of_ℕ 0)) bought_usdc);
  }

  unfoldable pub add_filled_usdc : String → N → Store N → Store N
  add_filled_usdc id usdc =
      update id
        λ s. record s { filled_total_usdc = some (add (get_or s.filled_total_usdc (of_ℕ 0)) usdc) }
