-- ===== src/Scheduler/Drained.antt =====
-- The end of a grid of resting orders in server/src/engine/scheduler.ts: what draining it comes to once
-- the book shows none of its orders.
use text.Mathlib.TextPositions.{eq_refl}
use hyper_solid.Prelude.{
  ℕ, String, true, false, not, ◌&&◌, ◌||◌, ◌≡◌, refl, ap, ◌∙◌, sym, subst, inl, inr, none, get_or,
  insert, map, List, [], ◌∷◌, ◌++◌, All, keep, is_some, is_empty, range_from, Dict, lookup,
  lookup-erase, arith, Bool-cases, string_eq,
}
use hyper_solid.Number.{Number}
use hyper_solid.Strategies.Types.{canceling, StrategyParams, Strategy, GridLimitParams}
use hyper_solid.Strategies.Rules.{is_running}
use hyper_solid.Strategies.GridLimit.{RungState, rung_count}
use hyper_solid.Strategies.Store.{Store, find, remove}
use hyper_solid.Scheduler.Context.{
  ok, thrown, Outcome, Context, Effect, MarkDeps, OpenOrders, RestingExecutor,
}
use hyper_solid.Scheduler.Session.{
  Action, ◌>>=◌, ◌>>◌, Session, for_each, unless, when, modify, on_store, gets,
}
use hyper_solid.Scheduler.Rungs.{is_open, get_open}
use hyper_solid.Scheduler.Drain.{
  stored_rungs, is_canceling, rung_at, candidates, resting_of, to_cancel, drain_rung, drain,
}
use hyper_solid.Scheduler.Resting.{grid_limit_at}
use hyper_solid.Scheduler.Reads.{get_open-Keeps}

module _ {N : Type 0} where
  keep_none :
      (orders : OpenOrders N) (ids : List String)
      → All (λ c. is_open c orders ≡ false) ids
      → keep (λ c. is_open c orders) ids ≡ []
  keep_none orders [] h = refl
  keep_none orders (c ∷ ids) (e, h) = rw e (keep_none orders ids h)

  pub find-remove_self : (id : String) (st : Store N) → find id (remove id st) ≡ none
  unfolding find remove
  find-remove_self id st = rw (lookup-erase id id st.by_id, eq_refl id) refl

module _ {N W : Type 0} where
  goes_on :
      {A B : Type 0} (m : Action N W A) (f : A → Action N W B) (y z : Session N W) (a : A)
      {r : Outcome B × Session N W}
      → m y ≡ (ok a, z)
      → f a z ≡ r
      → (m >>= f) y ≡ r
  goes_on m f y z a e h = ap (λ r. elim r.0 [ ok a ↦ f a r.1 | thrown ↦ (thrown, r.1) ]) e ∙ h

module _ {N W : Type 0} ⦃num : Number N⦄ (cx : Context N W) (s : Strategy N) where
  -- No order of these rungs is in the book: neither the one that a rung names nor the next one.
  abbrev pub AllGone : OpenOrders N → Dict ℕ (RungState N) → List ℕ → Type 0
  AllGone orders stored =
      All λ i. All (λ c. is_open c orders ≡ false) (candidates cx s (rung_at stored i) i)

  to_cancel_none :
      (orders : OpenOrders N) (stored : Dict ℕ (RungState N)) (is : List ℕ)
      → AllGone orders stored is
      → to_cancel cx s orders stored is ≡ []
  unfolding to_cancel resting_of
  to_cancel_none orders stored [] h = refl
  to_cancel_none orders stored (i ∷ is) (gone, h) =
      rw (keep_none orders (candidates cx s (rung_at stored i) i) gone)
        (to_cancel_none orders stored is h)

  -- Clearing the rungs does not throw.
  clear_runs :
      (orders : OpenOrders N) (stored : Dict ℕ (RungState N)) (is : List ℕ) (y : Session N W)
      → (z : Session N W) × (for_each is (drain_rung cx s orders stored) y ≡ (ok tt, z))
  unfolding for_each drain_rung
  clear_runs orders stored [] y = (y, refl)
  clear_runs orders stored (i ∷ is) y =
      let r = rung_at stored i in
      elim (Bool-cases (is_empty (resting_of cx s orders r i) && is_some r.cloid)) [
        | inl clears ↦ rw clears (clear_runs orders stored is _)
        | inr stays ↦ rw stays (clear_runs orders stored is y)
      ]

  -- Reading the book leaves the store alone.
  get_open_store :
      (reader : String → Effect W (OpenOrders N)) (owner : String) (y : Session N W)
      → (get_open reader owner y).1.store ≡ y.store
  get_open_store reader owner y = (get_open-Keeps (λ st. st ≡ y.store) reader owner).after y refl

  -- The end of `drain`, with the orders that are left.
  abbrev closing : GridLimitParams N → List String → Action N W (Unit {0})
  closing p ids = do
    unless (is_empty ids) (
        modify λ y. record y {
          cancels_by_owner =
              insert s.owner
                (get_or (lookup s.owner y.cancels_by_owner) [] ++ map (λ c. (p.coin, c)) ids)
                y.cancels_by_owner;
        })
    when (is_canceling s.status && is_empty ids) (on_store (remove s.id))

  -- `drain` past the reading of the book.
  abbrev clearing : GridLimitParams N → OpenOrders N → Action N W (Unit {0})
  clearing p orders = do
    stored ← gets (λ y. stored_rungs s y.store)
    let rungs = range_from 0 (rung_count p)
    for_each rungs (drain_rung cx s orders stored)
    closing p (to_cancel cx s orders stored rungs)

  closing_none :
      (p : GridLimitParams N) (z : Session N W)
      → s.status ≡ canceling
      → closing p [] z ≡ (ok tt, record z { store = remove s.id z.store })
  closing_none p z stopped = rw (ap is_canceling stopped) refl

  drained :
      (reader : String → Effect W (OpenOrders N)) (p : GridLimitParams N) (y z : Session N W)
      (orders : OpenOrders N)
      → get_open reader s.owner y ≡ (ok orders, z)
      → s.status ≡ canceling
      → AllGone orders (stored_rungs s z.store) (range_from 0 (rung_count p))
      → (z' : Session N W) × (drain cx reader s p y
          ≡ (ok tt, record z' { store = remove s.id z'.store }))
  unfolding drain
  drained reader p y z orders book stopped gone =
      let rungs = range_from 0 (rung_count p) in
      let stored = stored_rungs s z.store in
      let (z', cleared) = clear_runs orders stored rungs z in
      (
        z',
        goes_on (get_open reader s.owner) (clearing p) y z orders book (
            goes_on (for_each rungs (drain_rung cx s orders stored))
              (λ _. closing p (to_cancel cx s orders stored rungs)) z z' tt cleared
              (ap (λ ids. closing p ids z') (to_cancel_none orders stored rungs gone)
                ∙ closing_none p z' stopped)),
      )

  drains : s.status ≡ canceling → (cx.kill_switch || not (is_running s.status)) ≡ true
  drains stopped = ground arith

  -- A canceled grid is removed by the first step that finds none of its orders in the book.
  pub grid_limit_at_removes :
      (exec : RestingExecutor N W) (reader : String → Effect W (OpenOrders N))
      (marks : MarkDeps N W) (p : GridLimitParams N) (y : Session N W) (orders : OpenOrders N)
      → s.params ≡ StrategyParams.grid_limit p
      → s.status ≡ canceling
      → (get_open reader s.owner y).0 ≡ ok orders
      → AllGone orders (stored_rungs s y.store) (range_from 0 (rung_count p))
      → find s.id (grid_limit_at cx exec reader marks s s.params y).1.store ≡ none
  unfolding grid_limit_at
  grid_limit_at_removes exec reader marks p y orders kind stopped book gone =
      let z = (get_open reader s.owner y).1 in
      let (z', e) = drained reader p y z orders (ap (λ r. (r, z)) book) stopped (
        subst (λ st. AllGone orders (stored_rungs s st) (range_from 0 (rung_count p)))
          (sym (get_open_store reader s.owner y)) gone) in
      rw (kind, drains stopped, e) (find-remove_self s.id z'.store)
