-- ===== src/Strategies/Sqlite/Updates.antt =====
-- Updates of the table of server/src/strategies/sqliteStore.ts and of a map by id.
use hyper_solid.Prelude.{
  String, true, false, ◌≡◌, refl, ap, ◌∙◌, inl, inr, none, some, List, [], ◌∷◌, Dict, lookup,
  insert, lookup-insert, arith, string_eq, ◌==◌, Bool-cases,
}
use hyper_solid.Strategies.Types.{Strategy}
use hyper_solid.Strategies.Sqlite.Tables.{Row, update_rows}

module _ {N : Type 0} where
  pub head_found :
      (id k : String) (t s : Strategy N) (d : Dict String (Strategy N))
      → lookup id ((k, t) ∷ d) ≡ some s
      → (k == id) ≡ true
      → t ≡ s
  head_found id k t s d found same = cc

  -- A write under another key leaves a key that is not in the rest of the map out of it.
  pub insert_past :
      (id k : String) (s : Strategy N) (d : Dict String (Strategy N))
      → (k == id) ≡ false
      → lookup k d ≡ none
      → lookup k (insert id s d) ≡ none
  insert_past id k s d other past =
      ground (arith, lookup-insert id k s d, string_eq.same_iff id k, string_eq.same_iff k id)

  -- Two updates of one id are one.
  pub update_rows_twice :
      (id : String) (f g : Row N → Row N)
      → ((row : Row N) → (f row).id ≡ row.id)
      → (rows : List (Row N))
      → update_rows id g (update_rows id f rows) ≡ update_rows id (λ row. g (f row)) rows
  update_rows_twice id f g same [] = refl
  update_rows_twice id f g same (row ∷ rows) = elim (Bool-cases (row.id == id)) [
    | inl e ↦
        rw (e, ap (λ x. x == id) (same row) ∙ e)
          (ap (λ t. g (f row) ∷ t) (update_rows_twice id f g same rows))
    | inr e ↦ rw (e, e) (ap (λ t. row ∷ t) (update_rows_twice id f g same rows))
  ]
