-- ===== src/Scheduler/Safety.antt =====
-- The safety of a whole tick of server/src/engine/scheduler.ts.
use hyper_solid.Prelude.{
  String, ◌≡◌, refl, true, ◌⊎◌, inl, inr, List, [], ◌∷◌, All, arith, subst, sym,
}
use hyper_solid.Number.{Number}
use hyper_solid.Strategies.Types.{Strategy, canceling}
use hyper_solid.Strategies.Store.{Store, list_all}
use hyper_solid.Scheduler.Context.{Context}
use hyper_solid.Scheduler.Session.{Session}
use hyper_solid.Scheduler.Entries.{dca_step, twap_step, scheduled_step, conditional_step}
use hyper_solid.Scheduler.Stops.{tpsl_step, trailing_step}
use hyper_solid.Scheduler.Grid.{grid_step_of}
use hyper_solid.Scheduler.Drain.{is_canceling}
use hyper_solid.Scheduler.Tick.{tick, tick_over}
use hyper_solid.Scheduler.Sends.{Sends, for_each-Sends, quiet}
use hyper_solid.Scheduler.Allowed.{
  Allowed, dca_at-Sends, twap_at-Sends, scheduled_at-Sends, conditional_at-Sends, tpsl_at-Sends,
  trailing_at-Sends, grid_at-Sends,
}
use hyper_solid.Scheduler.RestingAllowed.{grid_limit_pass-Sends}
use hyper_solid.Scheduler.Keeps.{Keeps, for_all-Keeps, steady}
use hyper_solid.Scheduler.Lifecycle.{Follows, Follows-refl}
use hyper_solid.Scheduler.Evolution.{
  dca_at-Keeps, twap_at-Keeps, scheduled_at-Keeps, conditional_at-Keeps, tpsl_at-Keeps,
  trailing_at-Keeps, grid_at-Keeps,
}
use hyper_solid.Scheduler.RestingEvolution.{grid_limit_pass-Keeps}

-- An id of a canceling strategy of a list.
abbrev pub IsCancelingIn : {N : Type 0} → List (Strategy N) → String → Type 0
IsCancelingIn [] id = ⊥
IsCancelingIn (s ∷ all) id = ((s.id ≡ id) × (s.status ≡ canceling)) ⊎ IsCancelingIn all id

module _ {N : Type 0} where
  All-removable :
      (Removable : String → Type 0) (all : List (Strategy N))
      → ((id : String) → IsCancelingIn all id → Removable id)
      → All (λ s. is_canceling s.status ≡ true → Removable s.id) all
  All-removable Removable [] h = tt
  All-removable Removable (s ∷ all) h =
      (λ c. h s.id (inl (refl, ground arith)), All-removable Removable all (λ id i. h id (inr i)))

module _ {N W : Type 0} ⦃num : Number N⦄ where
  ruleset passes = (
    quiet, for_each-Sends, dca_at-Sends, twap_at-Sends, scheduled_at-Sends, conditional_at-Sends,
    tpsl_at-Sends, trailing_at-Sends, grid_at-Sends, grid_limit_pass-Sends,
  )

  tick_over-Sends :
      (cx : Context N W) (all : List (Strategy N)) → Sends (Allowed cx) (tick_over cx all)
  unfolding tick_over dca_step twap_step scheduled_step conditional_step tpsl_step trailing_step
      grid_step_of
  tick_over-Sends cx all = search passes depth 20

  -- Whatever the world answers, and also when a call throws in the middle, every order that a tick
  -- sends goes out with the kill switch off; each one that is not reduce-only has a notional that the
  -- per-order gate lets through for its coin, and a resting one has the size of that notional at its
  -- price.
  pub tick_sends-Allowed :
      (cx : Context N W) (y : Session N W) → y.sent ≡ [] → All (Allowed cx) (tick cx y).1.sent
  unfolding tick
  tick_sends-Allowed cx y e =
      (tick_over-Sends cx (list_all y.store)).after y (subst (All (Allowed cx)) (sym e) tt)

  ruleset evolving = (
    steady, for_all-Keeps, dca_at-Keeps, twap_at-Keeps, scheduled_at-Keeps, conditional_at-Keeps,
    tpsl_at-Keeps, trailing_at-Keeps, grid_at-Keeps, grid_limit_pass-Keeps,
  )

  tick_over-Keeps :
      (Removable : String → Type 0) (start : Store N) (cx : Context N W) (all : List (Strategy N))
      → All (λ s. is_canceling s.status ≡ true → Removable s.id) all
      → Keeps (Follows Removable start) (tick_over cx all)
  unfolding tick_over dca_step twap_step scheduled_step conditional_step tpsl_step trailing_step
      grid_step_of
  tick_over-Keeps Removable start cx all may = search evolving depth 20

  -- Whatever the world answers, and also when a call throws in the middle, a tick adds no strategy;
  -- it leaves the id, owner, params and creation time of each alone, moves no status but to
  -- completed, and removes a strategy only if one of that id was canceling when the tick began.
  pub tick_evolves :
      (cx : Context N W) (y : Session N W)
      → Follows (IsCancelingIn (list_all y.store)) y.store (tick cx y).1.store
  unfolding tick
  tick_evolves cx y =
      let all = list_all y.store in
      (tick_over-Keeps (IsCancelingIn all) y.store cx all
          (All-removable (IsCancelingIn all) all (λ id i. i))).after
        y (Follows-refl (IsCancelingIn all) y.store)
