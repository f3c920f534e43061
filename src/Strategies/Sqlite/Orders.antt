-- ===== src/Strategies/Sqlite/Orders.antt =====
-- server/src/strategies/sqliteStore.ts: the table `grid_orders` against the map of rungs of
-- server/src/strategies/store.ts.
use hyper_solid.Prelude.{
  ℕ, String, false, not, ◌≡◌, refl, ap, ◌∙◌, subst, inl, inr, get_or, List, [], ◌∷◌, map, keep,
  Dict, lookup, insert, erase, lookup-insert, lookup-insert_self, lookup-erase, arith, string_eq,
  nat_eq, ◌==◌, Bool-cases, if◌then◌else◌,
}
use hyper_solid.Strategies.GridLimit.{RungState}
use hyper_solid.Strategies.Sqlite.Tables.{GridOrder, rungs_of, upsert_order}

module _ {N : Type 0} where
  abbrev pub keyed : GridOrder N → ℕ × RungState N
  keyed o = (o.rung, o.order)

  -- The rows of a strategy are the entries of its map of rungs, in order.
  abbrev pub HoldsRungs : Dict String (Dict ℕ (RungState N)) → List (GridOrder N) → Type 0
  HoldsRungs d os = (id : String) → map keyed (rungs_of id os) ≡ get_or (lookup id d) []

  upsert_self :
      (id : String) (r : RungState N) (os : List (GridOrder N))
      → map keyed (rungs_of id (upsert_order id r os))
        ≡ insert r.rung r (map keyed (rungs_of id os))
  upsert_self id r [] = rw ((string_eq.same_iff id id).1 refl) refl
  upsert_self id r (o ∷ os) = elim (Bool-cases (o.strategy_id == id)) [
    | inl own ↦ elim (Bool-cases (o.rung == r.rung)) [
      | inl same ↦ rw (own, same, own) refl
      | inr other ↦ rw (own, other, own) (ap (λ t. keyed o ∷ t) (upsert_self id r os))
    ]
    | inr foreign ↦ rw (foreign, foreign) (upsert_self id r os)
  ]

  upsert_other :
      (id j : String) (r : RungState N) (os : List (GridOrder N))
      → (id == j) ≡ false
      → rungs_of j (upsert_order id r os) ≡ rungs_of j os
  upsert_other id j r [] other = rw other refl
  upsert_other id j r (o ∷ os) other = ground (
    arith,
    upsert_other id j r os other,
    string_eq.same_iff o.strategy_id id,
    string_eq.same_iff o.strategy_id j,
    string_eq.same_iff id j,
  )

  pub upsert_order-HoldsRungs :
      (id : String) (r : RungState N) (d : Dict String (Dict ℕ (RungState N)))
      (os : List (GridOrder N))
      → HoldsRungs d os
      → HoldsRungs (insert id (insert r.rung r (get_or (lookup id d) [])) d) (upsert_order id r os)
  upsert_order-HoldsRungs id r d os h j = elim (Bool-cases (id == j)) [
    | inl same ↦ subst Written ((string_eq.same_iff id j).0 same) own
    | inr other ↦
        rw
          (
            lookup-insert id j (insert r.rung r (get_or (lookup id d) [])) d,
            other,
            upsert_other id j r os other,
          )
          (h j)
  ]
    where
      rungs : Dict ℕ (RungState N)
      rungs = get_or (lookup id d) []

      Written : String → Type 0
      Written k =
          map keyed (rungs_of k (upsert_order id r os))
          ≡ get_or (lookup k (insert id (insert r.rung r rungs) d)) []

      own : Written id
      own =
          rw (lookup-insert_self id (insert r.rung r rungs) d)
            (upsert_self id r os ∙ ap (insert r.rung r) (h id))

  rungs_of-removed :
      (id j : String) (os : List (GridOrder N))
      → rungs_of j (keep (λ o. not (o.strategy_id == id)) os)
        ≡ (if id == j then [] else rungs_of j os)
  rungs_of-removed id j [] = ground arith
  rungs_of-removed id j (o ∷ os) = ground (
    arith,
    rungs_of-removed id j os,
    string_eq.same_iff o.strategy_id id,
    string_eq.same_iff o.strategy_id j,
    string_eq.same_iff id j,
  )

  pub keep-HoldsRungs :
      (id : String) (d : Dict String (Dict ℕ (RungState N))) (os : List (GridOrder N))
      → HoldsRungs d os
      → HoldsRungs (erase id d) (keep (λ o. not (o.strategy_id == id)) os)
  keep-HoldsRungs id d os h j = elim (Bool-cases (id == j)) [
    | inl same ↦ rw (rungs_of-removed id j os, lookup-erase id j d, same) refl
    | inr other ↦ rw (rungs_of-removed id j os, lookup-erase id j d, other) (h j)
  ]
