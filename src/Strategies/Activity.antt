-- ===== src/Strategies/Activity.antt =====
-- server/src/strategies/activityStore.ts: `MemoryActivityStore`, the log of fills, in the order in
-- which they are recorded. `toLowerCase` and the id that `randomUUID` draws are arguments.
use hyper_solid.Prelude.{
  ℕ, String, ◌&&◌, List, [], ◌∷◌, ◌++◌, keep, take, string_eq, ◌==◌, if◌then◌else◌,
}
use hyper_solid.Number.{Number}

pub record Activity (N : Type 0) : Type 0 where
  pub id : String
  pub strategy_id : String
  pub owner : String
  pub time : N
  pub coin : String
  pub side : String
  pub sz : N
  pub px : N

module _ {N : Type 0} (lower : String → String) where
  -- The entry comes without an id.
  unfoldable pub record_fill : String → Activity N → List (Activity N) → List (Activity N)
  record_fill drawn a rows = rows ++ record a { id = drawn; owner = lower a.owner } ∷ []

module _ {N : Type 0} ⦃num : Number N⦄ where
  open num use {of_ℕ, add, mul, lt, le}

  -- `.sort((x, y) => y.time - x.time)`, which keeps the order of equal times
  abbrev pub insert_newest : Activity N → List (Activity N) → List (Activity N)
  insert_newest a [] = a ∷ []
  insert_newest a (b ∷ rows) =
      let rest = insert_newest a rows in if lt a.time b.time then b ∷ rest else a ∷ b ∷ rows

  abbrev pub newest_first : List (Activity N) → List (Activity N)
  newest_first [] = []
  newest_first (a ∷ rows) = insert_newest a (newest_first rows)

  abbrev total : List (Activity N) → N → N
  total [] sum = sum
  total (a ∷ rows) sum = total rows (add sum (mul a.sz a.px))

module _ {N : Type 0} ⦃num : Number N⦄ (lower : String → String) where
  open num use {of_ℕ, add, mul, lt, le}

  unfoldable pub list_activity : String → String → List (Activity N) → List (Activity N)
  list_activity owner strategy_id rows =
      newest_first (keep (λ r. r.owner == lower owner && r.strategy_id == strategy_id) rows)

  unfoldable pub list_recent : String → ℕ → List (Activity N) → List (Activity N)
  list_recent owner limit rows = take limit (newest_first (keep (λ r. r.owner == lower owner) rows))

  unfoldable pub notional_since : String → N → List (Activity N) → N
  notional_since owner since rows =
      total (keep (λ r. r.owner == lower owner && le since r.time) rows) (of_ℕ 0)
