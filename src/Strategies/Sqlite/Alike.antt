-- ===== src/Strategies/Sqlite/Alike.antt =====
-- server/src/strategies/sqliteStore.ts against server/src/strategies/store.ts: each write that updates,
-- creates or removes keeps the two alike.
use hyper_solid.Prelude.{
  String, true, ◌≡◌, refl, subst, inl, inr, Option, none, some, lookup, arith, string_eq,
  Option-cases,
}
use hyper_solid.Number.{Number}
use hyper_solid.Strategies.Types.{StrategyStatus, StrategyParams, Strategy}
use hyper_solid.Strategies.GridLimit.{RungState}
use hyper_solid.Strategies.Store
use hyper_solid.Strategies.Store.{Store, sort_rungs, update, build, next_slice}
use hyper_solid.Strategies.Sqlite.Tables
use hyper_solid.Strategies.Sqlite.Tables.{
  inserted, slices_of, count_slice, update_rows, Database, Row, to_strategy, on_rows, select,
}
use hyper_solid.Strategies.Sqlite.Orders.{HoldsRungs, upsert_order-HoldsRungs, keep-HoldsRungs}
use hyper_solid.Strategies.Sqlite.Refines.{
  Holds, HoldsAll, is_timed, row_of, update_rows_missing, HoldsOne, select-HoldsOne,
  update_rows-HoldsAll, append-HoldsAll, keep-HoldsAll,
}

module _ {N : Type 0} ⦃num : Number N⦄ where
  open num use {of_ℕ, add}

  module _ (lower : String → String) where
    pub record Same (st : Store N) (db : Database N) : Type 0 where
      pub strategies : HoldsAll lower st.by_id db.strategies
      pub rungs : HoldsRungs st.rungs db.grid_orders

    abbrev Timed : Strategy N → N → Type 0
    Timed s next = is_timed lower s.params ≡ true → s.next_run_at ≡ some next

    -- An update of one strategy in both.
    pub update-Same :
        (id : String) (f : Strategy N → Strategy N) (g : Row N → Row N) (st : Store N)
        (db : Database N)
        → ((row : Row N) → (g row).id ≡ row.id)
        → ((s : Strategy N) (next : N)
            → lookup id st.by_id ≡ some s
            → Timed s next
            → Holds lower (f s) (g (row_of lower s next)))
        → Same st db
        → Same (update id f st) (on_rows id g db)
    update-Same id f g st db same_id held h = elim (Option-cases (lookup id st.by_id)) [
      | inl missing ↦ record {
        strategies =
            rw (missing, update)
              (update_rows_missing lower id g st.by_id db.strategies h.strategies missing);
        rungs = rw (missing, update) h.rungs;
      }
      | inr (s, found) ↦ record {
        strategies =
            rw (found, update)
              (update_rows-HoldsAll lower id f g s st.by_id db.strategies same_id
                (λ row (next, e, timed). rw e (held s next found timed)) found h.strategies);
        rungs = rw (found, update) h.rungs;
      }
    ]

    abbrev pub Alike : (Store N → Store N) → (Database N → Database N) → Type 0
    Alike f g = (st : Store N) (db : Database N) → Same st db → Same (f st) (g db)

    pub set_status-Same :
        (id : String) (status : StrategyStatus)
        → Alike (Store.set_status id status) (Tables.set_status id status)
    unfolding Store.set_status Tables.set_status
    set_status-Same id status st db =
        update-Same id _ _ st db (λ row. refl) (λ s next _ timed. (next, refl, timed))

    pub record_trigger-Same :
        (id : String) (now : N) → Alike (Store.record_trigger id now) (Tables.record_trigger id now)
    unfolding Store.record_trigger Tables.record_trigger
    record_trigger-Same id now st db =
        update-Same id _ _ st db (λ row. refl) (λ s next _ timed. (next, refl, timed))

    pub seed_grid_level-Same :
        (id : String) (level : N)
        → Alike (Store.seed_grid_level id level) (Tables.seed_grid_level id level)
    unfolding Store.seed_grid_level Tables.seed_grid_level
    seed_grid_level-Same id level st db =
        update-Same id _ _ st db (λ row. refl) (λ s next _ timed. (next, refl, timed))

    pub set_trail_peak-Same :
        (id : String) (peak : N)
        → Alike (Store.set_trail_peak id peak) (Tables.set_trail_peak id peak)
    unfolding Store.set_trail_peak Tables.set_trail_peak
    set_trail_peak-Same id peak st db =
        update-Same id _ _ st db (λ row. refl) (λ s next _ timed. (next, refl, timed))

    pub record_grid_action-Same :
        (id : String) (level usdc : N)
        → Alike (Store.record_grid_action id level usdc) (Tables.record_grid_action id level usdc)
    unfolding Store.record_grid_action Tables.record_grid_action
    record_grid_action-Same id level usdc st db =
        update-Same id _ _ st db (λ row. refl) (λ s next _ timed. (next, refl, timed))

    pub add_filled_usdc-Same :
        (id : String) (usdc : N)
        → Alike (Store.add_filled_usdc id usdc) (Tables.add_filled_usdc id usdc)
    unfolding Store.add_filled_usdc Tables.add_filled_usdc
    add_filled_usdc-Same id usdc st db =
        update-Same id _ _ st db (λ row. refl) (λ s next _ timed. (next, refl, timed))

    pub set_grid_limit_rung-Same :
        (id : String) (r : RungState N)
        → Alike (Store.set_grid_limit_rung id r) (Tables.set_grid_limit_rung id r)
    unfolding Store.set_grid_limit_rung Tables.set_grid_limit_rung
    set_grid_limit_rung-Same id r st db h = record {
      strategies = h.strategies;
      rungs = upsert_order-HoldsRungs id r st.rungs db.grid_orders h.rungs;
    }

    pub remove-Same : (id : String) → Alike (Store.remove id) (Tables.remove id)
    unfolding Store.remove Tables.remove
    remove-Same id st db h = record {
      strategies = keep-HoldsAll lower id st.by_id db.strategies h.strategies;
      rungs = keep-HoldsRungs id st.rungs db.grid_orders h.rungs;
    }

    none-HoldsOne : (o : Option (Row N)) → HoldsOne lower none o → o ≡ none
    none-HoldsOne none h = refl
    none-HoldsOne (some row) h = elim h [ ]

    pub missing_row :
        (id : String) (st : Store N) (db : Database N)
        → lookup id st.by_id ≡ none
        → Same st db
        → select id db.strategies ≡ none
    missing_row id st db missing h = none-HoldsOne (select id db.strategies) (
        subst (λ o. HoldsOne lower o (select id db.strategies)) missing
          (select-HoldsOne lower id st.by_id db.strategies h.strategies))

    pub found_row :
        (id : String) (st : Store N) (db : Database N) {s : Strategy N}
        → lookup id st.by_id ≡ some s
        → Same st db
        → HoldsOne lower (some s) (select id db.strategies)
    found_row id st db found h =
        subst (λ o. HoldsOne lower o (select id db.strategies)) found
          (select-HoldsOne lower id st.by_id db.strategies h.strategies)

    build-Holds :
        (id owner : String) (params : StrategyParams N) (now : N)
        → Holds lower (build id owner params now) (inserted lower id owner params now)
    unfolding build
    build-Holds id owner (StrategyParams.dca p) now = (now, refl, λ _. refl)
    build-Holds id owner (StrategyParams.twap p) now = (now, refl, λ _. refl)
    build-Holds id owner (StrategyParams.tpsl p) now = (of_ℕ 0, refl, λ e. ground arith)
    build-Holds id owner (StrategyParams.grid p) now = (of_ℕ 0, refl, λ e. ground arith)
    build-Holds id owner (StrategyParams.grid_limit p) now = (of_ℕ 0, refl, λ e. ground arith)
    build-Holds id owner (StrategyParams.trailing p) now = (of_ℕ 0, refl, λ e. ground arith)
    build-Holds id owner (StrategyParams.conditional p) now = (of_ℕ 0, refl, λ e. ground arith)
    build-Holds id owner (StrategyParams.scheduled p) now = (of_ℕ 0, refl, λ e. ground arith)

    pub create-Same :
        (id owner : String) (params : StrategyParams N) (now : N) (st : Store N) (db : Database N)
        → lookup id st.by_id ≡ none
        → Same st db
        → Same (Store.create id owner params now st).0 (Tables.create lower id owner params now db)
    unfolding Store.create Tables.create
    create-Same id owner params now st db missing h = rw (missing_row id st db missing h) (record {
      strategies =
          append-HoldsAll lower id (build id owner params now) (inserted lower id owner params now)
            st.by_id db.strategies refl (build-Holds id owner params now) missing h.strategies;
      rungs = h.rungs;
    })
