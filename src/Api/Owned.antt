-- ===== src/Api/Owned.antt =====
-- What the routes of server/src/http/app.ts that change or delete a strategy leave: one of another
-- owner, and a grid of resting orders that is canceled.
use mathlib.Core.Option
use hyper_solid.Prelude.{
  String, true, false, ◌≡◌, refl, ap, sym, ◌∙◌, subst, ◌⊎◌, inl, inr, some, get_or, lookup-erase,
  string_eq, ◌==◌, Bool-cases, arith,
}
use hyper_solid.Scheduler.Lifecycle.{find-update}
use hyper_solid.Strategies.Types.{
  StrategyStatus, canceling, StrategyKind, StrategyParams, Strategy, kind_of,
}
use hyper_solid.Strategies.Store
use hyper_solid.Strategies.Store.{Store}
use hyper_solid.Api.Types.{App, AppDeps, Reply}
use hyper_solid.Api.Automation
use hyper_solid.Api.Keyed.{WellKeyed, find-paused, if_owned_running, with_paused}
use hyper_solid.Api.Cases.{if_owned-cases}
use hyper_solid.Api.Untouched.{Holds}

module _ {N : Type 0} where
  -- The strategy is there under its id, as it was.
  abbrev pub Stays : String → Strategy N → Store N → Type 0
  Stays id s st = Store.find id st ≡ some s

  abbrev pub Foreign : AppDeps N → String → Strategy N → Type 0
  Foreign deps owner s = (deps.lower s.owner == deps.lower owner) ≡ false

  -- A grid whose orders are being cancelled.
  abbrev pub Draining : Strategy N → Type 0
  Draining s = (s.status ≡ canceling) × (kind_of s.params ≡ StrategyKind.grid_limit)

  abbrev pub Guarded : AppDeps N → String → Strategy N → Type 0
  Guarded deps owner s = Foreign deps owner s ⊎ Draining s

  find-set_status_other :
      (id j : String) (status : StrategyStatus) (st : Store N)
      → (id == j) ≡ false
      → Store.find j (Store.set_status id status st) ≡ Store.find j st
  unfolding Store.set_status
  find-set_status_other id j status st other =
      rw (find-update id j (λ s. record s { status = status }) st, other) refl

  find-remove_other :
      (id j : String) (st : Store N)
      → (id == j) ≡ false
      → Store.find j (Store.remove id st) ≡ Store.find j st
  unfolding Store.remove Store.find
  find-remove_other id j st other = rw (lookup-erase id j st.by_id, other) refl

  same_strategy :
      (id j : String) (st : Store N) (s t : Strategy N)
      → (id == j) ≡ true
      → Store.find id st ≡ some t
      → Store.find j st ≡ some s
      → t ≡ s
  same_strategy id j st s t same e e' =
      ap (λ o. get_or o t)
        (sym e ∙ (ap (λ k. Store.find k st) ((string_eq.same_iff id j).0 same) ∙ e'))

  absurd_Draining : (t : Strategy N) → false ≡ true → Draining t
  absurd_Draining t e = ground arith

  delete_owned_draining :
      (j : String) (t : Strategy N) (q : StrategyParams N) (st : Store N)
      → kind_of q ≡ StrategyKind.grid_limit
      → t.status ≡ canceling
      → Automation.delete_owned j t q st ≡ st
  delete_owned_draining j t (StrategyParams.grid_limit p) st kind stopped =
      rw (ap Automation.is_status_canceling stopped) refl
  delete_owned_draining j t (StrategyParams.dca p) st kind stopped = ground arith
  delete_owned_draining j t (StrategyParams.twap p) st kind stopped = ground arith
  delete_owned_draining j t (StrategyParams.tpsl p) st kind stopped = ground arith
  delete_owned_draining j t (StrategyParams.grid p) st kind stopped = ground arith
  delete_owned_draining j t (StrategyParams.trailing p) st kind stopped = ground arith
  delete_owned_draining j t (StrategyParams.conditional p) st kind stopped = ground arith
  delete_owned_draining j t (StrategyParams.scheduled p) st kind stopped = ground arith

  delete_owned_other :
      (j id : String) (t : Strategy N) (q : StrategyParams N) (st : Store N)
      → (j == id) ≡ false
      → Store.find id (Automation.delete_owned j t q st) ≡ Store.find id st
  delete_owned_other j id t (StrategyParams.grid_limit p) st other =
      elim (Bool-cases (Automation.is_status_canceling t.status)) [
        | inl drains ↦ rw drains refl
        | inr stands ↦ rw stands (find-set_status_other j id canceling st other)
      ]
  delete_owned_other j id t _ st other = find-remove_other j id st other

  not_paused :
      (deps : AppDeps N) (owner : String) (s : Strategy N)
      → Guarded deps owner s
      → if_owned_running deps.lower owner with_paused s ≡ s
  not_paused deps owner s (inl foreign) = rw foreign refl
  not_paused deps owner s (inr draining) =
      elim (Bool-cases (deps.lower s.owner == deps.lower owner)) [
        | inl mine ↦ rw (mine, ap Automation.is_status_running draining.0) refl
        | inr other ↦ rw other refl
      ]

  module _ (deps : AppDeps N) (owner id : String) (s : Strategy N) (app : App N)
      (found : Store.find id app.store ≡ some s) (guard : Guarded deps owner s) where
    untouched : (r : Reply N) → Holds (Stays id s) (r, app)
    untouched r = record { holds = found }

    -- The one under the id is not one that the caller may change.
    own-Draining :
        (j : String) (t : Strategy N)
        → (j == id) ≡ true
        → Store.find j app.store ≡ some t
        → (deps.lower t.owner == deps.lower owner) ≡ true
        → Draining t
    own-Draining j t same e mine =
        let one : t ≡ s = same_strategy j id app.store s t same e found in
        elim guard [
          | inl foreign ↦
              absurd_Draining t
                (sym foreign ∙ (ap (λ x. deps.lower x.owner == deps.lower owner) (sym one) ∙ mine))
          | inr draining ↦ subst Draining (sym one) draining
        ]

    pub patch_strategy-Kept :
        (j : String) (status : StrategyStatus)
        → Holds (Stays id s) (Automation.patch_strategy deps owner j status app)
    unfolding Automation.patch_strategy
    patch_strategy-Kept j status =
        if_owned-cases (Holds (Stays id s)) app deps owner (Store.find j app.store) _ (untouched _)
          λ t e mine. elim (Bool-cases (j == id)) [
            | inl same ↦
                rw (ap Automation.is_status_canceling (own-Draining j t same e mine).0)
                  (untouched _)
            | inr other ↦ elim (Bool-cases (Automation.is_status_canceling t.status)) [
              | inl drains ↦ rw drains (untouched _)
              | inr stands ↦
                  rw stands
                    (record { holds = find-set_status_other j id status app.store other ∙ found })
            ]
          ]

    pub delete_strategy-Kept :
        (j : String) → Holds (Stays id s) (Automation.delete_strategy deps owner j app)
    unfolding Automation.delete_strategy
    delete_strategy-Kept j =
        if_owned-cases (Holds (Stays id s)) app deps owner (Store.find j app.store) _ (untouched _)
          λ t e mine. elim (Bool-cases (j == id)) [
            | inl same ↦
                let (stopped, kind) = own-Draining j t same e mine in
                record {
                  holds =
                      ap (Store.find id) (delete_owned_draining j t t.params app.store kind stopped)
                      ∙ found;
                }
            | inr other ↦ record {
              holds = delete_owned_other j id t t.params app.store other ∙ found;
            }
          ]

    pub kill_switch-Kept :
        WellKeyed app.store.by_id → Holds (Stays id s) (Automation.kill_switch deps owner app)
    unfolding Automation.kill_switch
    kill_switch-Kept keyed = record {
      holds =
          find-paused deps.lower owner id app.store keyed
          ∙ ap (Option.map (if_owned_running deps.lower owner with_paused)) found
          ∙ ap some (not_paused deps owner s guard);
    }
