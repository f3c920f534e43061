-- ===== src/Scheduler/OneShots.antt =====
-- The steps of server/src/engine/scheduler.ts on scheduled and conditional orders: the one order of each,
-- and what comes of the answer to it.
use hyper_solid.Prelude.{
  Bool, false, not, ◌&&◌, ◌||◌, ◌≡◌, refl, inl, inr, some, none, arith, Bool-cases, string_eq,
  subst, sym,
}
use hyper_solid.Number.{Number}
use hyper_solid.Strategies.Types.{
  completed, StrategyParams, Strategy, ScheduledParams, ConditionalParams,
}
use hyper_solid.Strategies.Rules.{is_running, scheduled_due, conditional_triggered}
use hyper_solid.Strategies.Store.{Store, find, record_trigger}
use hyper_solid.Scheduler.Context.{
  Outcome, ok, thrown, Context, MarkDeps, PlaceResult, caps_ok, cloid_for_key,
}
use hyper_solid.Scheduler.Session.{Action, unless, gets, Session, on_store, ◌>>◌, ◌>>=◌}
use hyper_solid.Scheduler.Entries.{
  order, bad_mark, record_entry, scheduled_at, scheduled_step, conditional_at, conditional_step,
}
use hyper_solid.Scheduler.Placing.{placing, placing-Placed}
use hyper_solid.Scheduler.Confirmed.{Step, trigger-Writes, Spent, record_trigger-Spent}

module _ {N : Type 0} ⦃num : Number N⦄ where
  -- The mark is a price, and it is past the trigger.
  abbrev pub fires : ConditionalParams N → Outcome N → Bool
  fires p thrown = false
  fires p (ok mark) = not (bad_mark mark) && conditional_triggered p mark

module _ {N W : Type 0} ⦃num : Number N⦄ where
  open num use {add, of_ℕ, le}

  done_scheduled :
      (cx : Context N W) (t : Strategy N) (q : StrategyParams N) (z : Session N W)
      → t.status ≡ completed
      → scheduled_at cx t q z ≡ (ok tt, z)
  unfolding scheduled_at
  done_scheduled cx t (StrategyParams.scheduled p) z e = ground arith
  done_scheduled cx t _ z e = refl

  done_conditional :
      (cx : Context N W) (marks : MarkDeps N W) (t : Strategy N) (q : StrategyParams N)
      (z : Session N W)
      → t.status ≡ completed
      → conditional_at cx marks t q z ≡ (ok tt, z)
  unfolding conditional_at
  done_conditional cx marks t (StrategyParams.conditional p) z e = ground arith
  done_conditional cx marks t _ z e = refl

  abbrev pub ScheduledStep :
      Context N W
      → Context N W
      → Session N W
      → Strategy N
      → ScheduledParams N
      → Session N W
      → Session N W
      → Type 0
  ScheduledStep cx again later s p y =
      Step
        (is_running s.status
          && (scheduled_due p cx.now && caps_ok cx p.size_usdc s.owner p.coin y.activity))
        cx (order s p.coin (some p.size_usdc) none (cloid_for_key cx s.id "scheduled") p.side false)
        y.world (λ res. Spent (scheduled_step again) cx.now later s.id) y

  scheduled_at_lem :
      (cx again : Context N W) (s : Strategy N) (p : ScheduledParams N) (y later : Session N W)
      → find s.id y.store ≡ some s
      → ScheduledStep cx again later s p y (scheduled_at cx s (StrategyParams.scheduled p) y).1
  unfolding scheduled_at scheduled_step
  scheduled_at_lem cx again s p y later held =
      let P : PlaceResult N → Store N → Type 0 =
        λ res. Spent (scheduled_step again) cx.now later s.id in
      elim (Bool-cases (is_running s.status)) [
        | inr stopped ↦ rw stopped (inl (refl, refl, refl))
        | inl runs ↦ elim (Bool-cases (scheduled_due p cx.now)) [
          | inr early ↦ rw (runs, early) (inl (refl, refl, refl))
          | inl due ↦ elim (Bool-cases (caps_ok cx p.size_usdc s.owner p.coin y.activity)) [
            | inr no_room ↦ rw (runs, due, no_room) (inl (refl, refl, refl))
            | inl room ↦
                rw (runs, due, room)
                  (inr (
                    refl,
                    placing-Placed _ _ (λ res. record_trigger s.id cx.now) P
                        (λ res. trigger-Writes cx s p.coin p.side res) cx y
                        (λ res.
                          record_trigger-Spent (scheduled_step again) s cx.now later y.store held
                            (λ t e. done_scheduled again t t.params later e)),
                  ))
          ]
        ]
      ]

  -- A scheduled entry fires once. A step on one that the store holds sends and writes nothing where it
  -- does not run, is not due, or the caps refuse it. Otherwise its order is sent once, under an id that
  -- is the same in every tick. If it is not confirmed the store is as it was; if it is, the strategy is
  -- completed, and a later step on it, in any context and from any session, does nothing.
  pub scheduled_once :
      (cx again : Context N W) (s : Strategy N) (p : ScheduledParams N) (y later : Session N W)
      → s.params ≡ StrategyParams.scheduled p
      → find s.id y.store ≡ some s
      → ScheduledStep cx again later s p y (scheduled_step cx s y).1
  unfolding scheduled_step
  scheduled_once cx again s p y later e held =
      subst (λ q. ScheduledStep cx again later s p y (scheduled_at cx s q y).1) (sym e)
        (scheduled_at_lem cx again s p y later held)

  abbrev pub ConditionalStep :
      Context N W
      → Context N W
      → MarkDeps N W
      → Session N W
      → Strategy N
      → ConditionalParams N
      → Session N W
      → Session N W
      → Type 0
  ConditionalStep cx again marks later s p y =
      let (mark, w) = marks.resolve_mark p.coin y.world in
      Step
        (is_running s.status && (fires p mark && caps_ok cx p.size_usdc s.owner p.coin y.activity))
        cx
        (order s p.coin (some p.size_usdc) none (cloid_for_key cx s.id "conditional") p.side false)
        w (λ res. Spent (conditional_step again marks) cx.now later s.id) y

  -- The rest of a step, after the mark is read.
  abbrev after_mark :
      Context N W → Strategy N → ConditionalParams N → Outcome N → Action N W (Unit {0})
  after_mark cx s p r y = elim r [
    | ok mark ↦
        unless (bad_mark mark || not (conditional_triggered p mark))
          (gets (λ z. z.activity) >>= λ rows.
            unless (not (caps_ok cx p.size_usdc s.owner p.coin rows)) (
              placing cx
                (order s p.coin (some p.size_usdc) none (cloid_for_key cx s.id "conditional") p.side
                  false)
                (λ res.
                  record_entry cx s p.coin p.side res >> on_store (record_trigger s.id cx.now))))
          y
    | thrown ↦ (thrown, y)
  ]

  after_mark_lem :
      (cx again : Context N W) (marks : MarkDeps N W) (s : Strategy N) (p : ConditionalParams N)
      (y later : Session N W) (w : W) (r : Outcome N)
      → find s.id y.store ≡ some s
      → Step
          (fires p r && caps_ok cx p.size_usdc s.owner p.coin y.activity)
          cx
          (order s p.coin
            (some p.size_usdc)
            none
            (cloid_for_key cx s.id "conditional")
            p.side
            false)
          w
          (λ res. Spent (conditional_step again marks) cx.now later s.id)
          y
          (after_mark cx s p r (record y { world = w })).1
  unfolding conditional_step
  after_mark_lem cx again marks s p y later w thrown held = inl (refl, refl, refl)
  after_mark_lem cx again marks s p y later w (ok mark) held =
      let P : PlaceResult N → Store N → Type 0 =
        λ res. Spent (conditional_step again marks) cx.now later s.id in
      elim (Bool-cases (bad_mark mark)) [
        | inl bad ↦ rw bad (inl (refl, refl, refl))
        | inr good ↦ elim (Bool-cases (conditional_triggered p mark)) [
          | inr before ↦ rw (good, before) (inl (refl, refl, refl))
          | inl past ↦ elim (Bool-cases (caps_ok cx p.size_usdc s.owner p.coin y.activity)) [
            | inr no_room ↦ rw (good, past, no_room) (inl (refl, refl, refl))
            | inl room ↦
                rw (good, past, room)
                  (inr (
                    refl,
                    placing-Placed _ _ (λ res. record_trigger s.id cx.now) P
                        (λ res. trigger-Writes cx s p.coin p.side res) cx (record y { world = w })
                        (λ res.
                          record_trigger-Spent (conditional_step again marks) s cx.now later y.store
                            held (λ t e. done_conditional again marks t t.params later e)),
                  ))
          ]
        ]
      ]

  conditional_at_lem :
      (cx again : Context N W) (marks : MarkDeps N W) (s : Strategy N) (p : ConditionalParams N)
      (y later : Session N W)
      → find s.id y.store ≡ some s
      → ConditionalStep cx again marks later s p y
          (conditional_at cx marks s (StrategyParams.conditional p) y).1
  unfolding conditional_at conditional_step
  conditional_at_lem cx again marks s p y later held =
      let read = marks.resolve_mark p.coin y.world in
      elim (Bool-cases (is_running s.status)) [
        | inr stopped ↦ rw stopped (inl (refl, refl, refl))
        | inl runs ↦ rw runs (after_mark_lem cx again marks s p y later read.1 read.0 held)
      ]

  -- A conditional entry fires once. A step on one that the store holds sends and writes nothing where it
  -- does not run, has no mark past its trigger, or the caps refuse it. Otherwise its order is sent once,
  -- under an id that is the same in every tick. If it is not confirmed the store is as it was; if it is,
  -- the strategy is completed, and a later step on it, in any context and from any session, does
  -- nothing.
  pub conditional_once :
      (cx again : Context N W) (marks : MarkDeps N W) (s : Strategy N) (p : ConditionalParams N)
      (y later : Session N W)
      → s.params ≡ StrategyParams.conditional p
      → find s.id y.store ≡ some s
      → ConditionalStep cx again marks later s p y (conditional_step cx marks s y).1
  unfolding conditional_step
  conditional_once cx again marks s p y later e held =
      subst (λ q. ConditionalStep cx again marks later s p y (conditional_at cx marks s q y).1)
        (sym e) (conditional_at_lem cx again marks s p y later held)
