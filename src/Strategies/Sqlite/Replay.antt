-- ===== src/Strategies/Sqlite/Replay.antt =====
-- server/src/strategies/sqliteStore.ts and server/src/strategies/store.ts: both stores behind one
-- interface, run on the same calls.
use hyper_solid.Prelude.{
  String, Bool, true, false, not, List, [], ◌∷◌, lookup, string_eq, is_some, if◌then◌else◌,
}
use hyper_solid.Number.{Number}
use hyper_solid.Strategies.Types.{StrategyStatus, StrategyParams}
use hyper_solid.Strategies.GridLimit.{RungState}
use hyper_solid.Strategies.Store
use hyper_solid.Strategies.Store.{Store, sort_rungs, update, build, next_slice}
use hyper_solid.Strategies.Sqlite.Tables
use hyper_solid.Strategies.Sqlite.Tables.{
  inserted, slices_of, count_slice, update_rows, Database, Row, to_strategy, on_rows, select,
}

-- The calls of `StrategyStore` that write. A creation carries the id and the time that it draws.
pub data Write (N : Type 0) : Type 0 where
  create : String → String → StrategyParams N → N → Write N
  set_status : String → StrategyStatus → Write N
  record_fill : String → N → N → Write N
  record_trigger : String → N → Write N
  seed_grid_level : String → N → Write N
  record_grid_action : String → N → N → Write N
  set_grid_limit_rung : String → RungState N → Write N
  add_filled_usdc : String → N → Write N
  set_trail_peak : String → N → Write N
  remove : String → Write N

module _ {N : Type 0} ⦃num : Number N⦄ where
  abbrev pub in_memory : Write N → Store N → Store N
  in_memory (Write.create id owner params now) st = (Store.create id owner params now st).0
  in_memory (Write.set_status id status) st = Store.set_status id status st
  in_memory (Write.record_fill id usdc next) st = Store.record_fill id usdc next st
  in_memory (Write.record_trigger id now) st = Store.record_trigger id now st
  in_memory (Write.seed_grid_level id level) st = Store.seed_grid_level id level st
  in_memory (Write.record_grid_action id level usdc) st = Store.record_grid_action id level usdc st
  in_memory (Write.set_grid_limit_rung id r) st = Store.set_grid_limit_rung id r st
  in_memory (Write.add_filled_usdc id usdc) st = Store.add_filled_usdc id usdc st
  in_memory (Write.set_trail_peak id peak) st = Store.set_trail_peak id peak st
  in_memory (Write.remove id) st = Store.remove id st

  abbrev pub in_sqlite : (String → String) → Write N → Database N → Database N
  in_sqlite lower (Write.create id owner params now) db = Tables.create lower id owner params now db
  in_sqlite lower (Write.set_status id status) db = Tables.set_status id status db
  in_sqlite lower (Write.record_fill id usdc next) db = Tables.record_fill id usdc next db
  in_sqlite lower (Write.record_trigger id now) db = Tables.record_trigger id now db
  in_sqlite lower (Write.seed_grid_level id level) db = Tables.seed_grid_level id level db
  in_sqlite lower (Write.record_grid_action id level usdc) db =
      Tables.record_grid_action id level usdc db
  in_sqlite lower (Write.set_grid_limit_rung id r) db = Tables.set_grid_limit_rung id r db
  in_sqlite lower (Write.add_filled_usdc id usdc) db = Tables.add_filled_usdc id usdc db
  in_sqlite lower (Write.set_trail_peak id peak) db = Tables.set_trail_peak id peak db
  in_sqlite lower (Write.remove id) db = Tables.remove id db

  abbrev pub replay_memory : List (Write N) → Store N → Store N
  replay_memory [] st = st
  replay_memory (w ∷ ws) st = replay_memory ws (in_memory w st)

  abbrev pub replay_sqlite : (String → String) → List (Write N) → Database N → Database N
  replay_sqlite lower [] db = db
  replay_sqlite lower (w ∷ ws) db = replay_sqlite lower ws (in_sqlite lower w db)

  -- `randomUUID` draws no id that a strategy has already.
  abbrev pub is_fresh : Write N → Store N → Bool
  is_fresh (Write.create id _ _ _) st = not (is_some (lookup id st.by_id))
  is_fresh _ st = true

  abbrev pub all_fresh : List (Write N) → Store N → Bool
  all_fresh [] st = true
  all_fresh (w ∷ ws) st = if is_fresh w st then all_fresh ws (in_memory w st) else false
