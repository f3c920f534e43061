-- ===== src/Push/Completed.antt =====
-- `NotifyingStrategyStore` in server/src/strategies/notifyingStrategyStore.ts: a store that tells the
-- owner when a strategy completes. What the notifier does with it cannot fail the store.
use hyper_solid.Prelude.{
  String, Bool, true, false, not, ◌||◌, Option, none, some, List, ◌∷◌, string_eq, if◌then◌else◌,
}
use hyper_solid.Number.{Number}
use hyper_solid.Strategies.Types.{StrategyStatus, completed, Strategy}
use hyper_solid.Strategies.Store.{Store, find, set_status, record_fill, record_trigger}

abbrev pub is_completed : StrategyStatus → Bool
is_completed completed = true
is_completed _ = false

-- The store, and the strategies that were announced as completed, under their ids (newest first).
pub record Notifying (N : Type 0) : Type 0 where
  pub inner : Store N
  pub announced : List (String × Strategy N)

module _ {N : Type 0} where
  -- `before === "completed"`
  abbrev pub was_completed : Option (Strategy N) → Bool
  was_completed none = false
  was_completed (some s) = is_completed s.status

  unfoldable pub fire_if_completed : String → Bool → Notifying N → Notifying N
  fire_if_completed id before y = elim (find id y.inner) [
    | none ↦ y
    | some s ↦
        if before || not (is_completed s.status)
        then y
        else record y { announced = (id, s) ∷ y.announced }
  ]

  unfoldable pub watching : String → (Store N → Store N) → Notifying N → Notifying N
  unfolding fire_if_completed
  watching id change y =
      let before = was_completed (find id y.inner) in
      fire_if_completed id before (record y { inner = change y.inner })

  unfoldable pub notifying_set_status : String → StrategyStatus → Notifying N → Notifying N
  unfolding watching
  notifying_set_status id status = watching id (set_status id status)

  unfoldable pub notifying_record_trigger : String → N → Notifying N → Notifying N
  unfolding watching
  notifying_record_trigger id now = watching id (record_trigger id now)

module _ {N : Type 0} ⦃num : Number N⦄ where
  unfoldable pub notifying_record_fill : String → N → N → Notifying N → Notifying N
  unfolding watching
  notifying_record_fill id quote_usdc next_run_at =
      watching id (record_fill id quote_usdc next_run_at)
