-- ===== src/Scheduler/RungTags.antt =====
-- The order ids of the rungs in the store of server/src/strategies/store.ts, as
-- server/src/engine/scheduler.ts gives them.
use Prim.Native.String.{◌++◌}
use hyper_solid.Prelude.{
  String, ◌≡◌, Option, none, some, get_or, [], All, lookup, insert, All-insert, lookup-insert,
  lookup-erase, string_eq, nat_eq, ◌==◌, Bool-cases, inl, inr, Option-cases, subst,
}
use hyper_solid.Number.{Number}
use hyper_solid.Strategies.Types.{Strategy}
use hyper_solid.Strategies.GridLimit.{RungPhase, idle, armed, holding, RungState}
use hyper_solid.Strategies.Store.{Store, remove, set_grid_limit_rung, add_filled_usdc, update}
use hyper_solid.Scheduler.Context.{Context, cloid_for_key}

-- A free rung tracks no order; an armed one tracks its own; a held one its own, or none where the
-- profit order is still to be placed.
abbrev pub Tag : RungPhase → Option String → String → Type 0
Tag idle none own = Unit
Tag idle (some _) own = ⊥
Tag armed none own = ⊥
Tag armed (some cloid) own = cloid ≡ own
Tag holding none own = Unit
Tag holding (some cloid) own = cloid ≡ own

module _ {N W : Type 0} ⦃num : Number N⦄ (cx : Context N W) where
  open num use {of_ℕ, show}

  -- A rung of a strategy, by the order id of its place and number.
  abbrev pub Tagged : String → RungState N → Type 0
  Tagged id r =
      Tag r.state r.cloid
        (cloid_for_key cx id ("gl:" ++ (show (of_ℕ r.rung) ++ (":" ++ show (of_ℕ r.seq)))))

  -- Each rung in the store tracks the order of its place and number, if any.
  abbrev pub TaggedStore : Store N → Type 0
  TaggedStore st = (id : String) → All (λ kv. Tagged id kv.1) (get_or (lookup id st.rungs) [])

  pub set_rung-TaggedStore :
      (id : String) (r : RungState N) (st : Store N)
      → Tagged id r
      → TaggedStore st
      → TaggedStore (set_grid_limit_rung id r st)
  unfolding set_grid_limit_rung
  set_rung-TaggedStore id r st own tagged k =
      let own_rungs = insert r.rung r (get_or (lookup id st.rungs) []) in
      elim (Bool-cases (id == k)) [
        | inl h ↦
            rw (lookup-insert id k own_rungs st.rungs, h)
              (subst (λ j. All (λ kv. Tagged j kv.1) own_rungs) ((string_eq.same_iff id k).0 h)
                (All-insert (Tagged id) r.rung r (get_or (lookup id st.rungs) []) own (tagged id)))
        | inr h ↦ rw (lookup-insert id k own_rungs st.rungs, h) (tagged k)
      ]

  pub remove-TaggedStore :
      (id : String) (st : Store N) → TaggedStore st → TaggedStore (remove id st)
  unfolding remove
  remove-TaggedStore id st tagged k = elim (Bool-cases (id == k)) [
    | inl h ↦ rw (lookup-erase id k st.rungs, h) tt
    | inr h ↦ rw (lookup-erase id k st.rungs, h) (tagged k)
  ]

  pub update-TaggedStore :
      (id : String) (f : Strategy N → Strategy N) (st : Store N)
      → TaggedStore st
      → TaggedStore (update id f st)
  update-TaggedStore id f st tagged = elim (Option-cases (lookup id st.by_id)) [
    | inl e ↦ rw (e, update) tagged
    | inr (s, e) ↦ rw (e, update) tagged
  ]

  pub add_filled_usdc-TaggedStore :
      (id : String) (usdc : N) (st : Store N)
      → TaggedStore st
      → TaggedStore (add_filled_usdc id usdc st)
  unfolding add_filled_usdc
  add_filled_usdc-TaggedStore id usdc = update-TaggedStore id _
