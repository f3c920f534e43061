-- ===== src/Scheduler/Confirmed.antt =====
-- What a step of server/src/engine/scheduler.ts sends, and what a confirmed order writes to the store of
-- server/src/strategies/store.ts.
use hyper_solid.Prelude.{
  ◌+◌, String, Bool, true, false, ◌≡◌, refl, ap, ◌∙◌, ◌⊎◌, some, get_or, leb, arith, string_eq,
  if◌then◌else◌,
}
use hyper_solid.Number.{Number}
use hyper_solid.Strategies.Types.{Side, completed, StrategyParams, Strategy, DcaParams, TwapParams}
use hyper_solid.Strategies.Store.{Store, find, record_fill, record_trigger, next_slice}
use hyper_solid.Scheduler.Context.{Outcome, ok, Context, PlaceRequest, PlaceResult}
use hyper_solid.Scheduler.Session.{Session, on_store, ◌>>◌}
use hyper_solid.Scheduler.Entries.{record_entry}
use hyper_solid.Scheduler.Placing.{Placed, Writes, on_store-Writes, record_entry-Writes, >>-Writes}
use hyper_solid.Scheduler.Settled.{find-update_self}

module _ {N : Type 0} ⦃num : Number N⦄ where
  open num use {add, of_ℕ}

  -- The strategy has its next run and the sum that it has filled with this.
  abbrev pub Filled : Strategy N → N → N → Store N → Type 0
  Filled s usdc next st =
      (t : Strategy N) × (find s.id st ≡ some t)
      × (t.next_run_at ≡ some next)
      × (t.filled_total_usdc ≡ some (add (get_or s.filled_total_usdc (of_ℕ 0)) usdc))

  -- And one slice more, with which it completes if it was the last.
  abbrev pub FilledSlice : Strategy N → TwapParams N → N → N → Store N → Type 0
  FilledSlice s p usdc next st =
      let done = get_or s.slices_done 0 + 1 in
      (t : Strategy N) × (find s.id st ≡ some t)
      × (t.next_run_at ≡ some next)
      × (t.filled_total_usdc ≡ some (add (get_or s.filled_total_usdc (of_ℕ 0)) usdc))
      × (t.slices_done ≡ some done)
      × (t.status ≡ (if leb p.slices done then completed else s.status))

  pub record_fill-Filled :
      (s : Strategy N) (p : DcaParams N) (usdc next : N) (st : Store N)
      → s.params ≡ StrategyParams.dca p
      → find s.id st ≡ some s
      → Filled s usdc next (record_fill s.id usdc next st)
  unfolding record_fill
  record_fill-Filled s p usdc next st e held =
      let t = record s {
        filled_total_usdc = some (add (get_or s.filled_total_usdc (of_ℕ 0)) usdc);
        next_run_at = some next;
      } in
      (t, find-update_self s.id _ st held ∙ ap (λ q. some (next_slice q t)) e, refl, refl)

  pub record_fill-FilledSlice :
      (s : Strategy N) (p : TwapParams N) (usdc next : N) (st : Store N)
      → s.params ≡ StrategyParams.twap p
      → find s.id st ≡ some s
      → FilledSlice s p usdc next (record_fill s.id usdc next st)
  unfolding record_fill
  record_fill-FilledSlice s p usdc next st e held =
      let t = record s {
        filled_total_usdc = some (add (get_or s.filled_total_usdc (of_ℕ 0)) usdc);
        next_run_at = some next;
      } in
      (
        next_slice (StrategyParams.twap p) t,
        find-update_self s.id _ st held ∙ ap (λ q. some (next_slice q t)) e,
        ground arith,
        ground arith,
        ground arith,
        ground arith,
      )

module _ {N W : Type 0} ⦃num : Number N⦄ where
  open num use {add, of_ℕ, le}

  -- A step: nothing is sent and nothing written where its gate is shut, and otherwise its order is sent
  -- from the world `w`, and what is written once it is confirmed.
  abbrev pub Step :
      Bool
      → Context N W
      → PlaceRequest N
      → W
      → (PlaceResult N → Store N → Type 0)
      → Session N W
      → Session N W
      → Type 0
  Step gate cx req w Written y z =
      ((gate ≡ false) × (z.sent ≡ y.sent) × (z.store ≡ y.store))
      ⊎ ((gate ≡ true) × Placed cx req w Written y z)

  pub fill-Writes :
      (cx : Context N W) (s : Strategy N) (coin : String) (side : Side) (usdc next : N)
      (res : PlaceResult N)
      → Writes
          (record_fill s.id usdc next)
          (on_store (record_fill s.id usdc next) >> record_entry cx s coin side res)
  fill-Writes cx s coin side usdc next res =
      >>-Writes (record_fill s.id usdc next) (λ st. st) _ _ (on_store-Writes _)
        (record_entry-Writes cx s coin side res)

  pub trigger-Writes :
      (cx : Context N W) (s : Strategy N) (coin : String) (side : Side) (res : PlaceResult N)
      → Writes
          (record_trigger s.id cx.now)
          (record_entry cx s coin side res >> on_store (record_trigger s.id cx.now))
  trigger-Writes cx s coin side res =
      >>-Writes (λ st. st) (record_trigger s.id cx.now) _ _ (record_entry-Writes cx s coin side res)
        (on_store-Writes _)

  -- The strategy is completed, triggered at this time, and a step on it as it is now does nothing.
  abbrev pub Spent :
      (Strategy N → Session N W → Outcome (Unit {0}) × Session N W)
      → N
      → Session N W
      → String
      → Store N
      → Type 0
  Spent step now later id st =
      (t : Strategy N) × (find id st ≡ some t)
      × (t.status ≡ completed)
      × (t.triggered_at ≡ some now)
      × (step t later ≡ (ok tt, later))

  pub record_trigger-Spent :
      (step : Strategy N → Session N W → Outcome (Unit {0}) × Session N W) (s : Strategy N)
      (now : N) (later : Session N W) (st : Store N)
      → find s.id st ≡ some s
      → ((t : Strategy N) → t.status ≡ completed → step t later ≡ (ok tt, later))
      → Spent step now later s.id (record_trigger s.id now st)
  unfolding record_trigger
  record_trigger-Spent step s now later st held over =
      let t = record s { triggered_at = some now; status = completed } in
      (t, find-update_self s.id _ st held, refl, refl, over t refl)
