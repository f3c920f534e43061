-- ===== src/Api/Keyed.antt =====
-- The strategies of server/src/strategies/store.ts stand under their own ids; what the kill switch of
-- server/src/http/app.ts does to them by their ids.
use mathlib.Core.Option
use hyper_solid.Prelude.{
  String, Bool, true, false, ◌&&◌, ◌≡◌, refl, ap, sym, ◌∙◌, subst, inl, inr, Option, none, some,
  List, [], ◌∷◌, map, keep, Dict, lookup, insert, erase, lookup-insert, lookup-erase, string_eq,
  ◌==◌, Bool-cases, Option-cases, arith, if◌then◌else◌,
}
use hyper_solid.Strategies.Types.{StrategyStatus, paused, Strategy}
use hyper_solid.Strategies.Store.{Store, find, list_of, set_status, update}
use hyper_solid.Scheduler.Lifecycle.{find-update}
use hyper_solid.Api.Automation.{is_status_running, pause_all}

module _ {N : Type 0} where
  -- Each strategy is under its own id, and under no other.
  abbrev pub WellKeyed : Dict String (Strategy N) → Type 0
  WellKeyed [] = Unit
  WellKeyed ((k, s) ∷ d) = (s.id ≡ k) × (lookup k d ≡ none) × WellKeyed d

  abbrev pub with_paused : Strategy N → Strategy N
  with_paused s = record s { status = paused }

  -- A running strategy of the list has the id.
  abbrev names : String → List (Strategy N) → Bool
  names id [] = false
  names id (s ∷ ss) =
      let rest = names id ss in if is_status_running s.status && s.id == id then true else rest

  paused_twice :
      (o : Option (Strategy N))
      → Option.map with_paused (Option.map with_paused o) ≡ Option.map with_paused o
  paused_twice none = refl
  paused_twice (some s) = refl

  find-set_status :
      (id j : String) (st : Store N)
      → find j (set_status id paused st)
        ≡ (if id == j then Option.map with_paused (find j st) else find j st)
  unfolding set_status
  find-set_status id j st = find-update id j with_paused st

  find-pause_all :
      (id : String) (ss : List (Strategy N)) (st : Store N)
      → find id (pause_all ss st)
        ≡ (if names id ss then Option.map with_paused (find id st) else find id st)
  find-pause_all id [] st = refl
  find-pause_all id (s ∷ ss) st = elim (Bool-cases (is_status_running s.status)) [
    | inr stopped ↦ rw stopped (find-pause_all id ss st)
    | inl runs ↦ elim (Bool-cases (s.id == id)) [
      | inl same ↦ elim (Bool-cases (names id ss)) [
        | inl more ↦
            rw
              (
                runs,
                same,
                find-pause_all id ss (set_status s.id paused st),
                more,
                find-set_status s.id id st,
                same,
              )
              (paused_twice (find id st))
        | inr last ↦
            rw
              (
                runs,
                same,
                find-pause_all id ss (set_status s.id paused st),
                last,
                find-set_status s.id id st,
                same,
              )
              refl
      ]
      | inr other ↦
          rw
            (
              runs,
              other,
              find-pause_all id ss (set_status s.id paused st),
              find-set_status s.id id st,
              other,
            )
            refl
    ]
  ]

  abbrev owned_running : (String → String) → String → Option (Strategy N) → Bool
  owned_running lower owner none = false
  owned_running lower owner (some s) = lower s.owner == lower owner && is_status_running s.status

  names-keep :
      (lower : String → String) (owner id : String) (d : Dict String (Strategy N))
      → WellKeyed d
      → names id (keep (λ s. lower s.owner == lower owner) (map (λ kv. kv.1) d))
        ≡ owned_running lower owner (lookup id d)
  names-keep lower owner id [] h = refl
  names-keep lower owner id ((k, s) ∷ d) (own, past, rest) = elim (Bool-cases (k == id)) [
    | inl same ↦
        let gone : names id (keep (λ t. lower t.owner == lower owner) (map (λ kv. kv.1) d))
            ≡ false =
          names-keep lower owner id d rest
          ∙ ap (owned_running lower owner)
              (subst (λ j. lookup j d ≡ none) ((string_eq.same_iff k id).0 same) past) in
        elim (Bool-cases (lower s.owner == lower owner)) [
          | inl mine ↦ elim (Bool-cases (is_status_running s.status)) [
            | inl runs ↦ rw (same, mine, runs, ap (λ x. x == id) own ∙ same) refl
            | inr stopped ↦ rw (same, mine, stopped, gone) refl
          ]
          | inr foreign ↦ rw (same, foreign, gone) refl
        ]
    | inr other ↦ elim (Bool-cases (lower s.owner == lower owner)) [
      | inl mine ↦ elim (Bool-cases (is_status_running s.status)) [
        | inl runs ↦
            rw (other, mine, runs, ap (λ x. x == id) own ∙ other) (names-keep lower owner id d rest)
        | inr stopped ↦ rw (other, mine, stopped) (names-keep lower owner id d rest)
      ]
      | inr foreign ↦ rw (other, foreign) (names-keep lower owner id d rest)
    ]
  ]

  abbrev pub if_owned_running :
      (String → String) → String → (Strategy N → Strategy N) → Strategy N → Strategy N
  if_owned_running lower owner f s =
      if lower s.owner == lower owner && is_status_running s.status then f s else s

  paused_lem :
      (lower : String → String) (owner : String) (o : Option (Strategy N))
      → (if owned_running lower owner o then Option.map with_paused o else o)
        ≡ Option.map (if_owned_running lower owner with_paused) o
  paused_lem lower owner none = refl
  paused_lem lower owner (some s) =
      elim (Bool-cases (lower s.owner == lower owner && is_status_running s.status)) [
        | inl mine ↦ rw mine refl
        | inr left ↦ rw left refl
      ]

  -- What the loop of the kill switch leaves under an id.
  pub find-paused :
      (lower : String → String) (owner id : String) (st : Store N)
      → WellKeyed st.by_id
      → find id (pause_all (list_of lower owner st) st)
        ≡ Option.map (if_owned_running lower owner with_paused) (find id st)
  unfolding find list_of
  find-paused lower owner id st h =
      find-pause_all id (list_of lower owner st) st
      ∙ ap (λ b. if b then Option.map with_paused (find id st) else find id st)
          (names-keep lower owner id st.by_id h)
      ∙ paused_lem lower owner (find id st)

  pub insert-WellKeyed :
      (id : String) (t : Strategy N) (d : Dict String (Strategy N))
      → t.id ≡ id
      → WellKeyed d
      → WellKeyed (insert id t d)
  insert-WellKeyed id t [] own h = (own, refl, tt)
  insert-WellKeyed id t ((k, s) ∷ d) own (e, past, rest) = elim (Bool-cases (k == id)) [
    | inl same ↦ rw same (own ∙ sym ((string_eq.same_iff k id).0 same), past, rest)
    | inr other ↦ rw other (
      e,
      ground (arith, lookup-insert id k t d, string_eq.same_iff id k, string_eq.same_iff k id),
      insert-WellKeyed id t d own rest,
    )
  ]

  pub erase-WellKeyed :
      (id : String) (d : Dict String (Strategy N)) → WellKeyed d → WellKeyed (erase id d)
  erase-WellKeyed id [] h = tt
  erase-WellKeyed id ((k, s) ∷ d) (e, past, rest) = elim (Bool-cases (k == id)) [
    | inl gone ↦ rw gone (erase-WellKeyed id d rest)
    | inr other ↦ rw other (e, ground (arith, lookup-erase id k d), erase-WellKeyed id d rest)
  ]

  lookup-WellKeyed :
      (id : String) (s : Strategy N) (d : Dict String (Strategy N))
      → WellKeyed d
      → lookup id d ≡ some s
      → s.id ≡ id
  lookup-WellKeyed id s [] h e = ground arith
  lookup-WellKeyed id s ((k, t) ∷ d) (own, past, rest) e = elim (Bool-cases (k == id)) [
    | inl same ↦
        let one : t ≡ s = cc in ap (λ x. x.id) (sym one) ∙ own ∙ (string_eq.same_iff k id).0 same
    | inr other ↦ lookup-WellKeyed id s d rest (cc)
  ]

  -- A write to one strategy leaves it under its id.
  pub set_status-WellKeyed :
      (id : String) (status : StrategyStatus) (st : Store N)
      → WellKeyed st.by_id
      → WellKeyed (set_status id status st).by_id
  unfolding set_status
  set_status-WellKeyed id status st h = elim (Option-cases (lookup id st.by_id)) [
    | inl missing ↦ rw (missing, update) h
    | inr (s, found) ↦
        rw (found, update)
          (insert-WellKeyed id (record s { status = status }) st.by_id
            (lookup-WellKeyed id s st.by_id h found) h)
  ]

  either-WellKeyed :
      (b : Bool) (st st' : Store N)
      → WellKeyed st.by_id
      → WellKeyed st'.by_id
      → WellKeyed (if b then st else st').by_id
  either-WellKeyed true st st' h h' = h
  either-WellKeyed false st st' h h' = h'

  pub pause_all-WellKeyed :
      (ss : List (Strategy N)) (st : Store N)
      → WellKeyed st.by_id
      → WellKeyed (pause_all ss st).by_id
  pause_all-WellKeyed [] st h = h
  pause_all-WellKeyed (s ∷ ss) st h = pause_all-WellKeyed ss _ (
      either-WellKeyed (is_status_running s.status) (set_status s.id paused st) st
        (set_status-WellKeyed s.id paused st h) h)
