-- ===== src/Strategies/Sqlite/Refinement.antt =====
-- The reads of server/src/strategies/sqliteStore.ts against those of server/src/strategies/store.ts,
-- after the same writes.
use mathlib.Core.Option
use hyper_solid.Prelude.{
  Dict, String, true, not, ◌≡◌, refl, ap, ◌∙◌, inl, inr, Option, none, some, List, [], ◌∷◌, map,
  keep, lookup, arith, string_eq, ◌==◌, Bool-cases, is_some,
}
use hyper_solid.Number.{Number}
use hyper_solid.Strategies.Types.{Strategy}
use hyper_solid.Strategies.Store
use hyper_solid.Strategies.Store.{Store, sort_rungs, update, build, next_slice}
use hyper_solid.Strategies.Sqlite.Tables
use hyper_solid.Strategies.Sqlite.Tables.{
  GridOrder, rungs_of, inserted, slices_of, count_slice, update_rows, Database, Row, to_strategy,
  on_rows, select,
}
use hyper_solid.Strategies.Sqlite.Orders.{HoldsRungs, keyed}
use hyper_solid.Strategies.Sqlite.Refines.{
  HoldsAll, HoldsOne, read_back, to_strategy-read_back, select-HoldsOne,
}
use hyper_solid.Strategies.Sqlite.Alike.{
  Same, create-Same, set_status-Same, record_trigger-Same, seed_grid_level-Same,
  record_grid_action-Same, set_grid_limit_rung-Same, add_filled_usdc-Same, set_trail_peak-Same,
  remove-Same,
}
use hyper_solid.Strategies.Sqlite.Fills.{record_fill-Same}
use hyper_solid.Strategies.Sqlite.Replay.{
  Write, in_memory, in_sqlite, replay_memory, replay_sqlite, is_fresh, all_fresh,
}

is_fresh_missing : {A : Type 0} (o : Option A) → not (is_some o) ≡ true → o ≡ none
is_fresh_missing none e = refl
is_fresh_missing (some a) e = ground arith

module _ {N : Type 0} ⦃num : Number N⦄ (lower : String → String) where
  step-Same :
      (w : Write N) (st : Store N) (db : Database N)
      → is_fresh w st ≡ true
      → Same lower st db
      → Same lower (in_memory w st) (in_sqlite lower w db)
  step-Same (Write.create id owner params now) st db fresh =
      create-Same lower id owner params now st db (is_fresh_missing (lookup id st.by_id) fresh)
  step-Same (Write.set_status id status) st db fresh = set_status-Same lower id status st db
  step-Same (Write.record_fill id usdc next) st db fresh = record_fill-Same lower id usdc next st db
  step-Same (Write.record_trigger id now) st db fresh = record_trigger-Same lower id now st db
  step-Same (Write.seed_grid_level id level) st db fresh = seed_grid_level-Same lower id level st db
  step-Same (Write.record_grid_action id level usdc) st db fresh =
      record_grid_action-Same lower id level usdc st db
  step-Same (Write.set_grid_limit_rung id r) st db fresh = set_grid_limit_rung-Same lower id r st db
  step-Same (Write.add_filled_usdc id usdc) st db fresh = add_filled_usdc-Same lower id usdc st db
  step-Same (Write.set_trail_peak id peak) st db fresh = set_trail_peak-Same lower id peak st db
  step-Same (Write.remove id) st db fresh = remove-Same lower id st db

  replay-Same :
      (ws : List (Write N)) (st : Store N) (db : Database N)
      → all_fresh ws st ≡ true
      → Same lower st db
      → Same lower (replay_memory ws st) (replay_sqlite lower ws db)
  replay-Same [] st db fresh h = h
  replay-Same (w ∷ ws) st db fresh h =
      replay-Same ws (in_memory w st) (in_sqlite lower w db) (ground arith)
        (step-Same w st db (ground arith) h)

  -- What the reads of the two stores answer: the same, but for the fields of another kind, the case of
  -- the owner, and the time at which a conditional or a scheduled strategy was triggered, which the
  -- table does not give back.
  pub record ReadsAlike (st : Store N) (db : Database N) : Type 0 where
    pub get : (id : String) → Tables.get id db ≡ Option.map (read_back lower) (Store.find id st)
    pub list_all : Tables.list_all db ≡ map (read_back lower) (Store.list_all st)
    pub list_of :
        (owner : String)
        → Tables.list_of lower owner db ≡ map (read_back lower) (Store.list_of lower owner st)
    pub grid_limit_rungs :
        (id : String) → Tables.grid_limit_rungs id db ≡ Store.grid_limit_rungs id st

  get_lem :
      (o : Option (Strategy N)) (p : Option (Row N))
      → HoldsOne lower o p
      → (elim p [ none ↦ none | some row ↦ some (to_strategy row) ])
        ≡ Option.map (read_back lower) o
  get_lem none none h = refl
  get_lem none (some row) h = elim h [ ]
  get_lem (some s) none h = elim h [ ]
  get_lem (some s) (some row) h = ap some (to_strategy-read_back lower s row h)

  list_lem :
      (d : Dict String (Strategy N)) (rows : List (Row N))
      → HoldsAll lower d rows
      → map to_strategy rows ≡ map (read_back lower) (map (λ kv. kv.1) d)
  list_lem [] [] h = refl
  list_lem [] (row ∷ rows) h = elim h [ ]
  list_lem (kv ∷ d) [] h = elim h [ ]
  list_lem ((k, s) ∷ d) (row ∷ rows) (e, held, past, rest) =
      ap (λ t. t ∷ map to_strategy rows) (to_strategy-read_back lower s row held)
      ∙ ap (λ ts. read_back lower s ∷ ts) (list_lem d rows rest)

  owned_lem :
      (owner : String) (d : Dict String (Strategy N)) (rows : List (Row N))
      → HoldsAll lower d rows
      → map to_strategy (keep (λ row. row.owner == lower owner) rows)
        ≡ map (read_back lower) (keep (λ s. lower s.owner == lower owner) (map (λ kv. kv.1) d))
  owned_lem owner [] [] h = refl
  owned_lem owner [] (row ∷ rows) h = elim h [ ]
  owned_lem owner (kv ∷ d) [] h = elim h [ ]
  owned_lem owner ((k, s) ∷ d) (row ∷ rows) (e, (next, own, timed), past, rest) =
      elim (Bool-cases (lower s.owner == lower owner)) [
        | inl same ↦
            rw (same, ap (λ r. r.owner == lower owner) own ∙ same)
              (ap (λ t. t ∷ map to_strategy (keep (λ r. r.owner == lower owner) rows))
                  (to_strategy-read_back lower s row (next, own, timed))
                ∙ ap (λ ts. read_back lower s ∷ ts) (owned_lem owner d rows rest))
        | inr other ↦
            rw (other, ap (λ r. r.owner == lower owner) own ∙ other) (owned_lem owner d rows rest)
      ]

  values_lem : (os : List (GridOrder N)) → map (λ o. o.order) os ≡ map (λ kv. kv.1) (map keyed os)
  values_lem [] = refl
  values_lem (o ∷ os) = ap (λ t. o.order ∷ t) (values_lem os)

  rungs_lem :
      (id : String) (st : Store N) (db : Database N)
      → HoldsRungs st.rungs db.grid_orders
      → Tables.grid_limit_rungs id db ≡ Store.grid_limit_rungs id st
  unfolding Tables.grid_limit_rungs Store.grid_limit_rungs
  rungs_lem id st db h =
      ap sort_rungs (values_lem (rungs_of id db.grid_orders) ∙ ap (map (λ kv. kv.1)) (h id))

  Same-ReadsAlike : (st : Store N) (db : Database N) → Same lower st db → ReadsAlike st db
  unfolding Tables.get Tables.list_all Tables.list_of Store.find Store.list_all Store.list_of
  Same-ReadsAlike st db h = record {
    get = λ id.
        get_lem (lookup id st.by_id) (select id db.strategies)
          (select-HoldsOne lower id st.by_id db.strategies h.strategies);
    list_all = list_lem st.by_id db.strategies h.strategies;
    list_of = λ owner. owned_lem owner st.by_id db.strategies h.strategies;
    grid_limit_rungs = λ id. rungs_lem id st db h.rungs;
  }

  -- Whatever is written to both stores, from empty ones and with ids that are new when they are drawn,
  -- both answer alike: the same strategies in the same order, each by its id and by its owner, and the
  -- same rungs, up to the fields of another kind, the case of the owner, and the time at which a
  -- conditional or a scheduled strategy was triggered, which the SQLite store writes and does not give
  -- back.
  pub sqlite_refines :
      (ws : List (Write N))
      → all_fresh ws Store.empty ≡ true
      → ReadsAlike
          (replay_memory ws Store.empty)
          (replay_sqlite lower ws (record { strategies = []; grid_orders = [] }))
  unfolding Store.empty
  sqlite_refines ws fresh =
      Same-ReadsAlike _ _
        (replay-Same ws Store.empty _ fresh (record { strategies = tt; rungs = λ id. refl }))
