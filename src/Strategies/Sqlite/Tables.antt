-- ===== src/Strategies/Sqlite/Tables.antt =====
-- server/src/strategies/sqliteStore.ts: `SqliteStrategyStore`. A table is the list of its rows in the
-- order in which they came in. The column `params` holds the JSON of the params, here the params
-- themselves, and `kind` is their kind. `toLowerCase`, the clock and `randomUUID` are arguments.
use hyper_solid.Prelude.{
  ℕ, ◌+◌, String, not, ◌&&◌, Option, none, some, List, [], ◌∷◌, ◌++◌, map, if◌then◌else◌, leb, keep,
  string_eq, nat_eq, ◌==◌, is_some,
}
use hyper_solid.Number.{Number}
use hyper_solid.Strategies.Types.{
  StrategyStatus, running, completed, StrategyKind, StrategyParams, Strategy, kind_of,
}
use hyper_solid.Strategies.GridLimit.{RungState}
use hyper_solid.Strategies.Store.{sort_rungs}

pub record Row (N : Type 0) : Type 0 where
  pub id : String
  pub owner : String
  pub status : StrategyStatus
  pub params : StrategyParams N
  pub kind : StrategyKind
  pub next_run_at : N
  pub filled_total_usdc : N
  pub slices_done : ℕ
  pub triggered_at : Option N
  pub created_at : N
  pub last_level : Option N
  pub actions_done : ℕ
  pub trail_peak : Option N

pub record GridOrder (N : Type 0) : Type 0 where
  pub strategy_id : String
  pub rung : ℕ
  pub order : RungState N

pub record Database (N : Type 0) : Type 0 where
  pub strategies : List (Row N)
  pub grid_orders : List (GridOrder N)

module _ {N : Type 0} where
  unfoldable pub to_strategy : Row N → Strategy N
  to_strategy row =
      let base : Strategy N = record {
        id = row.id;
        owner = row.owner;
        status = row.status;
        created_at = row.created_at;
        params = row.params;
        next_run_at = none;
        filled_total_usdc = none;
        slices_done = none;
        triggered_at = none;
        last_level = none;
        actions_done = none;
        trail_peak = none;
      } in
      elim row.kind [
        | StrategyKind.twap ↦ record base {
          next_run_at = some row.next_run_at;
          filled_total_usdc = some row.filled_total_usdc;
          slices_done = some row.slices_done;
        }
        | StrategyKind.tpsl ↦ record base { triggered_at = row.triggered_at }
        | StrategyKind.grid ↦ record base {
          filled_total_usdc = some row.filled_total_usdc;
          actions_done = some row.actions_done;
          last_level = row.last_level;
        }
        | StrategyKind.grid_limit ↦ record base { filled_total_usdc = some row.filled_total_usdc }
        | StrategyKind.trailing ↦ record base { trail_peak = row.trail_peak }
        | StrategyKind.conditional ↦ base
        | StrategyKind.scheduled ↦ base
        | StrategyKind.dca ↦ record base {
          next_run_at = some row.next_run_at;
          filled_total_usdc = some row.filled_total_usdc;
        }
      ]

  -- `SELECT * FROM strategies WHERE id = ?`, of which `.get` is the first row
  abbrev pub select : String → List (Row N) → Option (Row N)
  select id [] = none
  select id (row ∷ rows) = if row.id == id then some row else select id rows

  -- `UPDATE strategies SET ... WHERE id = ?`
  abbrev pub update_rows : String → (Row N → Row N) → List (Row N) → List (Row N)
  update_rows id f [] = []
  update_rows id f (row ∷ rows) =
      let rest = update_rows id f rows in if row.id == id then f row ∷ rest else row ∷ rest

  abbrev pub on_rows : String → (Row N → Row N) → Database N → Database N
  on_rows id f db = record db { strategies = update_rows id f db.strategies }

  unfoldable pub get : String → Database N → Option (Strategy N)
  unfolding to_strategy
  get id db = elim (select id db.strategies) [ none ↦ none | some row ↦ some (to_strategy row) ]

  unfoldable pub list_all : Database N → List (Strategy N)
  unfolding to_strategy
  list_all db = map to_strategy db.strategies

  unfoldable pub list_of : (String → String) → String → Database N → List (Strategy N)
  unfolding to_strategy
  list_of lower owner db = map to_strategy (keep (λ row. row.owner == lower owner) db.strategies)

  unfoldable pub set_status : String → StrategyStatus → Database N → Database N
  set_status id status = on_rows id λ row. record row { status = status }

  unfoldable pub record_trigger : String → N → Database N → Database N
  record_trigger id now =
      on_rows id λ row. record row { triggered_at = some now; status = completed }

  unfoldable pub seed_grid_level : String → N → Database N → Database N
  seed_grid_level id level = on_rows id λ row. record row { last_level = some level }

  unfoldable pub set_trail_peak : String → N → Database N → Database N
  set_trail_peak id peak = on_rows id λ row. record row { trail_peak = some peak }

  abbrev pub rungs_of : String → List (GridOrder N) → List (GridOrder N)
  rungs_of id = keep λ o. o.strategy_id == id

  unfoldable pub grid_limit_rungs : String → Database N → List (RungState N)
  grid_limit_rungs id db = sort_rungs (map (λ o. o.order) (rungs_of id db.grid_orders))

  -- `INSERT ... ON CONFLICT(strategy_id, rung) DO UPDATE SET ...`
  abbrev pub upsert_order : String → RungState N → List (GridOrder N) → List (GridOrder N)
  upsert_order id r [] = record { strategy_id = id; rung = r.rung; order = r } ∷ []
  upsert_order id r (o ∷ os) =
      if o.strategy_id == id && o.rung == r.rung
      then record o { order = r } ∷ os
      else o ∷ upsert_order id r os

  unfoldable pub set_grid_limit_rung : String → RungState N → Database N → Database N
  set_grid_limit_rung id r db = record db { grid_orders = upsert_order id r db.grid_orders }

  unfoldable pub remove : String → Database N → Database N
  remove id db = record {
    strategies = keep (λ row. not (row.id == id)) db.strategies;
    grid_orders = keep (λ o. not (o.strategy_id == id)) db.grid_orders;
  }

  -- `(JSON.parse(row.params) as TwapParams).slices`
  abbrev pub slices_of : StrategyParams N → Option ℕ
  slices_of (StrategyParams.twap p) = some p.slices
  slices_of _ = none

module _ {N : Type 0} ⦃num : Number N⦄ where
  open num use {of_ℕ, add}

  abbrev pub scheduled_at : StrategyKind → N → N
  scheduled_at StrategyKind.dca now = now
  scheduled_at StrategyKind.twap now = now
  scheduled_at _ now = of_ℕ 0

  abbrev pub inserted : (String → String) → String → String → StrategyParams N → N → Row N
  inserted lower id owner params now = record {
    id = id;
    owner = lower owner;
    status = running;
    params = params;
    kind = kind_of params;
    next_run_at = scheduled_at (kind_of params) now;
    filled_total_usdc = of_ℕ 0;
    slices_done = 0;
    triggered_at = none;
    created_at = now;
    last_level = none;
    actions_done = 0;
    trail_peak = none;
  }

  -- An id that is there already is refused by the primary key, and nothing is written.
  unfoldable pub create :
      (String → String) → String → String → StrategyParams N → N → Database N → Database N
  create lower id owner params now db =
      if is_some (select id db.strategies)
      then db
      else record db { strategies = db.strategies ++ inserted lower id owner params now ∷ [] }

  -- One more slice of the row that was read before the update.
  abbrev pub count_slice : String → Row N → Database N → Database N
  count_slice id row db =
      let done = row.slices_done + 1 in
      let counted = on_rows id (λ r. record r { slices_done = done }) db in
      elim (slices_of row.params) [
        | none ↦ counted
        | some slices ↦
            if leb slices done
            then on_rows id (λ r. record r { status = completed }) counted
            else counted
      ]

  unfoldable pub record_fill : String → N → N → Database N → Database N
  record_fill id quote_usdc next_run_at db = elim (select id db.strategies) [
    | none ↦ db
    | some row ↦
        let filled =
          on_rows id
            (λ r. record r {
              filled_total_usdc = add r.filled_total_usdc quote_usdc;
              next_run_at = next_run_at;
            })
            db in
        elim row.kind [ StrategyKind.twap ↦ count_slice id row filled | _ ↦ filled ]
  ]

  unfoldable pub record_grid_action : String → N → N → Database N → Database N
  record_grid_action id new_level bought_usdc = on_rows id λ row. record row {
    last_level = some new_level;
    actions_done = row.actions_done + 1;
    filled_total_usdc = add row.filled_total_usdc bought_usdc;
  }

  unfoldable pub add_filled_usdc : String → N → Database N → Database N
  add_filled_usdc id usdc =
      on_rows id λ row. record row { filled_total_usdc = add row.filled_total_usdc usdc }
