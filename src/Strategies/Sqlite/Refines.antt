-- ===== src/Strategies/Sqlite/Refines.antt =====
-- server/src/strategies/sqliteStore.ts against server/src/strategies/store.ts: what a row of the table
-- holds of a strategy in memory, and that each write keeps it so.
use hyper_solid.Prelude.{
  String, Bool, true, false, not, ◌≡◌, refl, ap, ◌∙◌, subst, inl, inr, Option, none, some, get_or,
  List, [], ◌∷◌, ◌++◌, keep, Dict, lookup, insert, erase, lookup-erase, arith, string_eq, ◌==◌,
  Bool-cases,
}
use hyper_solid.Number.{Number}
use hyper_solid.Strategies.Types.{StrategyParams, Strategy, kind_of}
use hyper_solid.Strategies.Sqlite.Tables.{Row, to_strategy, select, update_rows}
use hyper_solid.Strategies.Sqlite.Updates.{head_found, insert_past}

module _ {N : Type 0} ⦃num : Number N⦄ (lower : String → String) where
  open num use {of_ℕ}

  abbrev pub is_timed : StrategyParams N → Bool
  is_timed (StrategyParams.dca _) = true
  is_timed (StrategyParams.twap _) = true
  is_timed _ = false

  -- The row of a strategy. A column that the strategy leaves out has its default.
  abbrev pub row_of : Strategy N → N → Row N
  row_of s next = record {
    id = s.id;
    owner = lower s.owner;
    status = s.status;
    params = s.params;
    kind = kind_of s.params;
    next_run_at = next;
    filled_total_usdc = get_or s.filled_total_usdc (of_ℕ 0);
    slices_done = get_or s.slices_done 0;
    triggered_at = s.triggered_at;
    created_at = s.created_at;
    last_level = s.last_level;
    actions_done = get_or s.actions_done 0;
    trail_peak = s.trail_peak;
  }

  abbrev pub Holds : Strategy N → Row N → Type 0
  Holds s row =
      (next : N) × (row ≡ row_of s next) × (is_timed s.params ≡ true → s.next_run_at ≡ some next)

  -- The table holds the strategies of the map, in its order, under the keys of the map.
  abbrev pub HoldsAll : Dict String (Strategy N) → List (Row N) → Type 0
  HoldsAll [] [] = Unit
  HoldsAll [] (row ∷ rows) = ⊥
  HoldsAll (kv ∷ d) [] = ⊥
  HoldsAll ((k, s) ∷ d) (row ∷ rows) =
      (row.id ≡ k) × Holds s row × (lookup k d ≡ none) × HoldsAll d rows

  -- The fields of its kind that a strategy has, with its owner in lower case.
  abbrev pub shown : Strategy N → Strategy N
  shown s =
      let base : Strategy N = record {
        id = s.id;
        owner = lower s.owner;
        status = s.status;
        created_at = s.created_at;
        params = s.params;
        next_run_at = none;
        filled_total_usdc = none;
        slices_done = none;
        triggered_at = none;
        last_level = none;
        actions_done = none;
        trail_peak = none;
      } in
      let usdc = some (get_or s.filled_total_usdc (of_ℕ 0)) in
      elim s.params [
        | StrategyParams.dca _ ↦ record base {
          next_run_at = s.next_run_at;
          filled_total_usdc = usdc;
        }
        | StrategyParams.twap _ ↦ record base {
          next_run_at = s.next_run_at;
          filled_total_usdc = usdc;
          slices_done = some (get_or s.slices_done 0);
        }
        | StrategyParams.tpsl _ ↦ record base { triggered_at = s.triggered_at }
        | StrategyParams.grid _ ↦ record base {
          filled_total_usdc = usdc;
          actions_done = some (get_or s.actions_done 0);
          last_level = s.last_level;
        }
        | StrategyParams.grid_limit _ ↦ record base { filled_total_usdc = usdc }
        | StrategyParams.trailing _ ↦ record base { trail_peak = s.trail_peak }
        | StrategyParams.conditional _ ↦ record base { triggered_at = s.triggered_at }
        | StrategyParams.scheduled _ ↦ record base { triggered_at = s.triggered_at }
      ]

  -- What the table gives back of it. The time of the trigger is written for every kind, and read again
  -- for a take-profit or stop-loss alone.
  abbrev pub read_back : Strategy N → Strategy N
  read_back s = elim s.params [
    | StrategyParams.conditional _ ↦ record (shown s) { triggered_at = none }
    | StrategyParams.scheduled _ ↦ record (shown s) { triggered_at = none }
    | _ ↦ shown s
  ]

  to_strategy-row_of :
      (s : Strategy N) (q : StrategyParams N) (next : N)
      → s.params ≡ q
      → (is_timed q ≡ true → s.next_run_at ≡ some next)
      → to_strategy (row_of s next) ≡ read_back s
  unfolding to_strategy
  to_strategy-row_of s (StrategyParams.dca p) next e h = rw (e, h refl) refl
  to_strategy-row_of s (StrategyParams.twap p) next e h = rw (e, h refl) refl
  to_strategy-row_of s (StrategyParams.tpsl p) next e h = rw e refl
  to_strategy-row_of s (StrategyParams.grid p) next e h = rw e refl
  to_strategy-row_of s (StrategyParams.grid_limit p) next e h = rw e refl
  to_strategy-row_of s (StrategyParams.trailing p) next e h = rw e refl
  to_strategy-row_of s (StrategyParams.conditional p) next e h = rw e refl
  to_strategy-row_of s (StrategyParams.scheduled p) next e h = rw e refl

  pub to_strategy-read_back :
      (s : Strategy N) (row : Row N) → Holds s row → to_strategy row ≡ read_back s
  to_strategy-read_back s row (next, e, h) = rw e (to_strategy-row_of s s.params next refl h)

  -- What the map and the table say of one id.
  abbrev pub HoldsOne : Option (Strategy N) → Option (Row N) → Type 0
  HoldsOne none none = Unit
  HoldsOne none (some row) = ⊥
  HoldsOne (some s) none = ⊥
  HoldsOne (some s) (some row) = Holds s row

  pub select-HoldsOne :
      (id : String) (d : Dict String (Strategy N)) (rows : List (Row N))
      → HoldsAll d rows
      → HoldsOne (lookup id d) (select id rows)
  select-HoldsOne id [] [] h = tt
  select-HoldsOne id [] (row ∷ rows) h = elim h [ ]
  select-HoldsOne id (kv ∷ d) [] h = elim h [ ]
  select-HoldsOne id ((k, s) ∷ d) (row ∷ rows) (e, own, past, rest) = elim (Bool-cases (k == id)) [
    | inl same ↦ rw (same, ap (λ x. x == id) e ∙ same) own
    | inr other ↦ rw (other, ap (λ x. x == id) e ∙ other) (select-HoldsOne id d rows rest)
  ]

  pub update_rows_missing :
      (id : String) (g : Row N → Row N) (d : Dict String (Strategy N)) (rows : List (Row N))
      → HoldsAll d rows
      → lookup id d ≡ none
      → HoldsAll d (update_rows id g rows)
  update_rows_missing id g [] [] h missing = tt
  update_rows_missing id g [] (row ∷ rows) h missing = elim h [ ]
  update_rows_missing id g (kv ∷ d) [] h missing = elim h [ ]
  update_rows_missing id g ((k, s) ∷ d) (row ∷ rows) (e, own, past, rest) missing =
      elim (Bool-cases (k == id)) [
        | inl same ↦ cc
        | inr other ↦
            rw (ap (λ x. x == id) e ∙ other)
              (e, own, past, update_rows_missing id g d rows rest (ground arith))
      ]

  pub update_rows-HoldsAll :
      (id : String) (f : Strategy N → Strategy N) (g : Row N → Row N) (s : Strategy N)
      (d : Dict String (Strategy N)) (rows : List (Row N))
      → ((row : Row N) → (g row).id ≡ row.id)
      → ((row : Row N) → Holds s row → Holds (f s) (g row))
      → lookup id d ≡ some s
      → HoldsAll d rows
      → HoldsAll (insert id (f s) d) (update_rows id g rows)
  update_rows-HoldsAll id f g s [] rows same_id held found h = cc
  update_rows-HoldsAll id f g s ((k, t) ∷ d) [] same_id held found h = elim h [ ]
  update_rows-HoldsAll id f g s ((k, t) ∷ d) (row ∷ rows) same_id held found (e, own, past, rest) =
      elim (Bool-cases (k == id)) [
        | inl same ↦
            let mine : Holds s row =
              subst (λ x. Holds x row) (head_found id k t s d found same) own in
            rw (same, ap (λ x. x == id) e ∙ same)
              (
                same_id row ∙ e,
                held row mine,
                past,
                update_rows_missing id g d rows rest
                    (subst (λ j. lookup j d ≡ none) ((string_eq.same_iff k id).0 same) past),
              )
        | inr other ↦
            rw (other, ap (λ x. x == id) e ∙ other)
              (
                e,
                own,
                insert_past id k (f s) d other past,
                update_rows-HoldsAll id f g s d rows same_id held (cc) rest,
              )
      ]

  -- A new strategy goes to the end of both.
  pub append-HoldsAll :
      (id : String) (s : Strategy N) (fresh : Row N) (d : Dict String (Strategy N))
      (rows : List (Row N))
      → fresh.id ≡ id
      → Holds s fresh
      → lookup id d ≡ none
      → HoldsAll d rows
      → HoldsAll (insert id s d) (rows ++ fresh ∷ [])
  append-HoldsAll id s fresh [] [] same own missing h = (same, own, refl, tt)
  append-HoldsAll id s fresh [] (row ∷ rows) same own missing h = elim h [ ]
  append-HoldsAll id s fresh (kv ∷ d) [] same own missing h = elim h [ ]
  append-HoldsAll id s fresh ((k, t) ∷ d) (row ∷ rows) same own missing (e, held, past, rest) =
      elim (Bool-cases (k == id)) [
        | inl found ↦ cc
        | inr other ↦ rw other (
          e,
          held,
          insert_past id k s d other past,
          append-HoldsAll id s fresh d rows same own (ground arith) rest,
        )
      ]

  pub keep-HoldsAll :
      (id : String) (d : Dict String (Strategy N)) (rows : List (Row N))
      → HoldsAll d rows
      → HoldsAll (erase id d) (keep (λ row. not (row.id == id)) rows)
  keep-HoldsAll id [] [] h = tt
  keep-HoldsAll id [] (row ∷ rows) h = elim h [ ]
  keep-HoldsAll id (kv ∷ d) [] h = elim h [ ]
  keep-HoldsAll id ((k, s) ∷ d) (row ∷ rows) (e, own, past, rest) = elim (Bool-cases (k == id)) [
    | inl gone ↦ rw (gone, ap (λ x. x == id) e ∙ gone) (keep-HoldsAll id d rows rest)
    | inr other ↦
        rw (other, ap (λ x. x == id) e ∙ other)
          (e, own, ground (arith, lookup-erase id k d), keep-HoldsAll id d rows rest)
  ]
