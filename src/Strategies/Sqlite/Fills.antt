-- ===== src/Strategies/Sqlite/Fills.antt =====
-- server/src/strategies/sqliteStore.ts against server/src/strategies/store.ts: a fill keeps the two alike.
use hyper_solid.Prelude.{
  ℕ, String, ◌≡◌, refl, ap, ◌∙◌, ◌+◌, leb, inl, inr, Option, none, some, get_or, lookup, string_eq,
  Bool-cases, Option-cases, if◌then◌else◌,
}
use hyper_solid.Number.{Number}
use hyper_solid.Strategies.Types.{completed, StrategyParams, Strategy}
use hyper_solid.Strategies.Store
use hyper_solid.Strategies.Store.{Store, sort_rungs, update, build, next_slice}
use hyper_solid.Strategies.Sqlite.Tables
use hyper_solid.Strategies.Sqlite.Tables.{
  inserted, slices_of, count_slice, update_rows, Database, Row, to_strategy, on_rows, select,
}
use hyper_solid.Strategies.Sqlite.Refines.{Holds, row_of, HoldsOne, update_rows-HoldsAll}
use hyper_solid.Strategies.Sqlite.Alike.{Same, Alike, missing_row, found_row}
use hyper_solid.Strategies.Sqlite.Updates.{update_rows_twice}

module _ {N : Type 0} ⦃num : Number N⦄ where
  open num use {of_ℕ, add}

  module _ (lower : String → String) where
    abbrev filled : N → N → Row N → Row N
    filled usdc next row = record row {
      filled_total_usdc = add row.filled_total_usdc usdc;
      next_run_at = next;
    }

    -- The row of a fill, with its slice counted.
    abbrev sliced : ℕ → ℕ → N → N → Row N → Row N
    sliced slices done usdc next row =
        let counted = record (filled usdc next row) { slices_done = done } in
        if leb slices done then record counted { status = completed } else counted

    count_slice_rows :
        (id : String) (usdc next : N) (slices : ℕ) (row : Row N) (db : Database N)
        → slices_of row.params ≡ some slices
        → count_slice id row (on_rows id (filled usdc next) db)
          ≡ on_rows id
              (λ r.
                let counted = record (filled usdc next r) { slices_done = row.slices_done + 1 } in
                if leb slices (row.slices_done + 1)
                then record counted { status = completed }
                else counted)
              db
    count_slice_rows id usdc next slices row db e =
        elim (Bool-cases (leb slices (row.slices_done + 1))) [
          | inl last ↦
              rw (count_slice, e, last)
                (ap (λ rows. record db { strategies = rows })
                  (ap (update_rows id (λ r. record r { status = completed })) (
                      update_rows_twice id (filled usdc next)
                        (λ r. record r { slices_done = row.slices_done + 1 }) (λ r. refl)
                        db.strategies)
                    ∙ update_rows_twice id
                        (λ r. record (filled usdc next r) { slices_done = row.slices_done + 1 }) _
                        (λ r. refl) db.strategies))
          | inr more ↦
              rw (count_slice, e, more)
                (ap (λ rows. record db { strategies = rows })
                  (update_rows_twice id (filled usdc next) _ (λ r. refl) db.strategies))
        ]

    -- All that a fill writes to the row of a strategy.
    abbrev fill_row : StrategyParams N → Strategy N → N → N → Row N → Row N
    fill_row (StrategyParams.twap p) s usdc next row =
        sliced p.slices (get_or s.slices_done 0 + 1) usdc next row
    fill_row _ s usdc next row = filled usdc next row

    fill_rows :
        (id : String) (usdc next : N) (q : StrategyParams N) (s : Strategy N) (before : N)
        (db : Database N)
        → s.params ≡ q
        → select id db.strategies ≡ some (row_of lower s before)
        → Tables.record_fill id usdc next db ≡ on_rows id (fill_row q s usdc next) db
    unfolding Tables.record_fill
    fill_rows id usdc next (StrategyParams.dca p) s before db e row =
        rw (Tables.record_fill, row, e) refl
    fill_rows id usdc next (StrategyParams.twap p) s before db e row =
        rw (Tables.record_fill, row, e)
          (count_slice_rows id usdc next p.slices (row_of lower s before) db (ap slices_of e))
    fill_rows id usdc next (StrategyParams.tpsl p) s before db e row =
        rw (Tables.record_fill, row, e) refl
    fill_rows id usdc next (StrategyParams.grid p) s before db e row =
        rw (Tables.record_fill, row, e) refl
    fill_rows id usdc next (StrategyParams.grid_limit p) s before db e row =
        rw (Tables.record_fill, row, e) refl
    fill_rows id usdc next (StrategyParams.trailing p) s before db e row =
        rw (Tables.record_fill, row, e) refl
    fill_rows id usdc next (StrategyParams.conditional p) s before db e row =
        rw (Tables.record_fill, row, e) refl
    fill_rows id usdc next (StrategyParams.scheduled p) s before db e row =
        rw (Tables.record_fill, row, e) refl

    fill_row-Holds :
        (usdc next : N) (q : StrategyParams N) (s : Strategy N) (row : Row N)
        → s.params ≡ q
        → Holds lower s row
        → Holds lower
            (next_slice q (record s {
              filled_total_usdc = some (add (get_or s.filled_total_usdc (of_ℕ 0)) usdc);
              next_run_at = some next;
            }))
            (fill_row q s usdc next row)
    fill_row-Holds usdc next (StrategyParams.twap p) s row e (before, own, timed) =
        elim (Bool-cases (leb p.slices (get_or s.slices_done 0 + 1))) [
          | inl last ↦ rw last (
            next,
            ap
                (λ r. record (filled usdc next r) {
                  slices_done = get_or s.slices_done 0 + 1;
                  status = completed;
                })
                own,
            λ _. refl,
          )
          | inr more ↦ rw more (
            next,
            ap (λ r. record (filled usdc next r) { slices_done = get_or s.slices_done 0 + 1 }) own,
            λ _. refl,
          )
        ]
    fill_row-Holds usdc next _ s row e (before, own, timed) =
        (next, ap (filled usdc next) own, λ _. refl)

    fill_row-id :
        (usdc next : N) (q : StrategyParams N) (s : Strategy N) (row : Row N)
        → (fill_row q s usdc next row).id ≡ row.id
    fill_row-id usdc next (StrategyParams.twap p) s row =
        elim (Bool-cases (leb p.slices (get_or s.slices_done 0 + 1))) [
          | inl last ↦ rw last refl
          | inr more ↦ rw more refl
        ]
    fill_row-id usdc next _ s row = refl

    fill_found :
        (id : String) (usdc next : N) (st : Store N) (db : Database N) (s : Strategy N)
        → lookup id st.by_id ≡ some s
        → Same lower st db
        → (o : Option (Row N)) → select id db.strategies ≡ o
        → HoldsOne lower (some s) o
        → Same lower (Store.record_fill id usdc next st) (Tables.record_fill id usdc next db)
    unfolding Store.record_fill
    fill_found id usdc next st db s found h none e held = elim held [ ]
    fill_found id usdc next st db s found h (some row) e (before, own, timed) =
        rw (fill_rows id usdc next s.params s before db refl (e ∙ ap some own), found, update)
          (record {
            strategies =
                update_rows-HoldsAll lower id
                  (λ t. next_slice t.params (record t {
                    filled_total_usdc = some (add (get_or t.filled_total_usdc (of_ℕ 0)) usdc);
                    next_run_at = some next;
                  }))
                  (fill_row s.params s usdc next) s st.by_id db.strategies
                  (fill_row-id usdc next s.params s)
                  (λ r. fill_row-Holds usdc next s.params s r refl) found h.strategies;
            rungs = h.rungs;
          })

    pub record_fill-Same :
        (id : String) (usdc next : N)
        → Alike lower (Store.record_fill id usdc next) (Tables.record_fill id usdc next)
    unfolding Store.record_fill Tables.record_fill
    record_fill-Same id usdc next st db h = elim (Option-cases (lookup id st.by_id)) [
      | inl missing ↦
          rw (missing, update, missing_row lower id st db missing h, Tables.record_fill) h
      | inr (s, found) ↦
          fill_found id usdc next st db s found h (select id db.strategies) refl
            (found_row lower id st db found h)
    ]
