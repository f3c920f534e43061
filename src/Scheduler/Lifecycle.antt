-- ===== src/Scheduler/Lifecycle.antt =====
-- What a tick of server/src/engine/scheduler.ts does to the strategies in the store.
use mathlib.Core.Option
use text.Mathlib.TextEquality.{eq_iff}
use hyper_solid.Prelude.{
  Bool-cases, subst, String, true, false, ◌≡◌, refl, ◌⊎◌, inl, inr, Option, none, some, arith,
  Option-cases, lookup, lookup-insert, lookup-erase, string_eq, if◌then◌else◌, ◌==◌,
}
use hyper_solid.Number.{Number}
use hyper_solid.Strategies.Types.{completed, StrategyParams, Strategy}
use hyper_solid.Strategies.Store.{
  Store, update, find, record_trigger, seed_grid_level, set_trail_peak, set_grid_limit_rung, remove,
  record_fill, record_grid_action, add_filled_usdc, next_slice,
}
use hyper_solid.Strategies.GridLimit.{RungState}

module _ {N : Type 0} where
  -- The parts of a strategy that a tick may not touch, and the one way its status may go.
  pub record Evolves (s t : Strategy N) : Type 0 where
    pub same_id : t.id ≡ s.id
    pub same_owner : t.owner ≡ s.owner
    pub same_params : t.params ≡ s.params
    pub same_created : t.created_at ≡ s.created_at
    pub status_kept : (t.status ≡ s.status) ⊎ (t.status ≡ completed)

  -- What became of the entry of an id: it evolved, or it was removed as one that may be.
  abbrev pub Became : Type 0 → Option (Strategy N) → Option (Strategy N) → Type 0
  Became Removable none none = Unit
  Became Removable none (some t) = ⊥
  Became Removable (some s) none = Removable
  Became Removable (some s) (some t) = Evolves s t

  pub record Follows (Removable : String → Type 0) (start st : Store N) : Type 0 where
    pub became : (id : String) → Became (Removable id) (find id start) (find id st)

  pub find-update :
      (id j : String) (f : Strategy N → Strategy N) (st : Store N)
      → find j (update id f st) ≡ (if id == j then Option.map f (find j st) else find j st)
  unfolding find
  find-update id j f st = elim (Option-cases (lookup id st.by_id)) [
    | inl missing ↦ ground (arith, eq_iff id j)
    | inr (s, e) ↦ ground (arith, eq_iff id j, lookup-insert id j (f s) st.by_id)
  ]

  module _ (Removable : String → Type 0) (start : Store N) where
    Evolves-refl : (s : Strategy N) → Evolves s s
    Evolves-refl s = record {
      same_id = refl;
      same_owner = refl;
      same_params = refl;
      same_created = refl;
      status_kept = inl refl;
    }

    Became-self : (id : String) (o : Option (Strategy N)) → Became (Removable id) o o
    Became-self id none = tt
    Became-self id (some s) = Evolves-refl s

    pub Follows-refl : Follows Removable start start
    Follows-refl = record { became = λ id. Became-self id (find id start) }

    Became-map :
        (R : Type 0) (f : Strategy N → Strategy N) (o p : Option (Strategy N))
        → ((s t : Strategy N) → Evolves s t → Evolves s (f t))
        → Became R o p
        → Became R o (Option.map f p)
    Became-map R f none none h k = tt
    Became-map R f none (some t) h k = k
    Became-map R f (some s) none h k = k
    Became-map R f (some s) (some t) h k = h s t k

    update-Follows :
        (id : String) (f : Strategy N → Strategy N) (st : Store N)
        → ((s t : Strategy N) → Evolves s t → Evolves s (f t))
        → Follows Removable start st
        → Follows Removable start (update id f st)
    update-Follows id f st h k = record { became = λ j. step j (Bool-cases (id == j)) }
      where
        step :
            (j : String)
            → ((id == j) ≡ true) ⊎ ((id == j) ≡ false)
            → Became (Removable j) (find j start) (find j (update id f st))
        step j (inl same) =
            rw (find-update id j f st, same)
              (Became-map (Removable j) f (find j start) (find j st) h (k.became j))
        step j (inr other) = rw (find-update id j f st, other) (k.became j)

    abbrev Stays : (Store N → Store N) → Type 0
    Stays f = (st : Store N) → Follows Removable start st → Follows Removable start (f st)

    pub record_trigger-Follows : (id : String) (now : N) → Stays (record_trigger id now)
    unfolding record_trigger
    record_trigger-Follows id now st = update-Follows id _ st λ s t e. ground arith

    pub seed_grid_level-Follows : (id : String) (level : N) → Stays (seed_grid_level id level)
    unfolding seed_grid_level
    seed_grid_level-Follows id level st = update-Follows id _ st λ s t e. ground arith

    pub set_trail_peak-Follows : (id : String) (peak : N) → Stays (set_trail_peak id peak)
    unfolding set_trail_peak
    set_trail_peak-Follows id peak st = update-Follows id _ st λ s t e. ground arith

    pub set_grid_limit_rung-Follows :
        (id : String) (r : RungState N) → Stays (set_grid_limit_rung id r)
    unfolding set_grid_limit_rung find
    set_grid_limit_rung-Follows id r st k = record { became = λ j. k.became j }

    Became-none : (R : Type 0) (o : Option (Strategy N)) → R → Became R o none
    Became-none R none may = tt
    Became-none R (some s) may = may

    pub remove-Follows : (id : String) → Removable id → Stays (remove id)
    unfolding remove find
    remove-Follows id may st k = record { became = λ j. step j (Bool-cases (id == j)) }
      where
        step :
            (j : String)
            → ((id == j) ≡ true) ⊎ ((id == j) ≡ false)
            → Became (Removable j) (find j start) (find j (remove id st))
        step j (inl same) =
            rw (lookup-erase id j st.by_id, same)
              (Became-none (Removable j) (find j start)
                (subst Removable ((eq_iff id j).0 same) may))
        step j (inr other) = rw (lookup-erase id j st.by_id, other) (k.became j)

    module _ ⦃num : Number N⦄ where
      next_slice-Evolves :
          (q : StrategyParams N) (s t : Strategy N) → Evolves s t → Evolves s (next_slice q t)
      next_slice-Evolves (StrategyParams.twap p) s t e = ground arith
      next_slice-Evolves _ s t e = e

      pub record_fill-Follows : (id : String) (usdc next : N) → Stays (record_fill id usdc next)
      unfolding record_fill
      record_fill-Follows id usdc next st =
          update-Follows id _ st λ s t e. next_slice-Evolves t.params s _ (ground arith)

      pub record_grid_action-Follows :
          (id : String) (level usdc : N) → Stays (record_grid_action id level usdc)
      unfolding record_grid_action
      record_grid_action-Follows id level usdc st = update-Follows id _ st λ s t e. ground arith

      pub add_filled_usdc-Follows : (id : String) (usdc : N) → Stays (add_filled_usdc id usdc)
      unfolding add_filled_usdc
      add_filled_usdc-Follows id usdc st = update-Follows id _ st λ s t e. ground arith
