-- ===== src/Push/Kept.antt =====
-- The stores of server/src/push: what is read back after a write.
use hyper_solid.Prelude.{
  String, Bool, true, false, ◌&&◌, ◌≡◌, refl, sym, ◌∙◌, inl, inr, Option, none, some, get_or, List,
  [], ◌∷◌, string_eq, ◌==◌, Bool-cases, arith, if◌then◌else◌,
}
use hyper_solid.Push.Notifier.{PushCategory, fills, alerts, lifecycle}
use hyper_solid.Push.Stores.{
  PrefRow, SomePrefs, category_eq, is_pref, first_pref, is_enabled, get_prefs, upsert_pref,
  set_if_given, set_prefs,
}

both_true : (a b : Bool) → (a && b) ≡ true → (a ≡ true) × (b ≡ true)
both_true true true e = (refl, refl)
both_true true false e = (refl, e)
both_true false b e = (e, ground arith)

module _ {N : Type 0} (lower : String → String) where
  -- What is the row of one owner and category is that of another just where the two are the same.
  own_row :
      (owner other : String) (c d : PushCategory) (row : PrefRow N)
      → is_pref lower owner c row ≡ true
      → is_pref lower other d row ≡ ((lower owner == lower other) && c == d)
  own_row owner other c d row mine =
      let (at, in_category) = both_true (row.owner == lower owner) (row.category == c) mine in
      rw ((string_eq.same_iff _ _).0 at, (category_eq.same_iff _ _).0 in_category) refl

  other_row :
      (owner other : String) (c d : PushCategory) (row : PrefRow N)
      → is_pref lower owner c row ≡ false
      → is_pref lower other d row ≡ true
      → ((lower owner == lower other) && c == d) ≡ false
  other_row owner other c d row foreign theirs =
      elim (Bool-cases ((lower owner == lower other) && c == d)) [
        | inl same ↦
            let (at, in_category) = both_true (lower owner == lower other) (c == d) same in
            let one : is_pref lower owner c row ≡ is_pref lower other d row =
              rw ((string_eq.same_iff _ _).0 at, (category_eq.same_iff _ _).0 in_category) refl in
            same ∙ sym (sym foreign ∙ (one ∙ theirs))
        | inr differ ↦ differ
      ]

  first_pref-upsert_pref :
      (owner other : String) (c d : PushCategory) (on : Bool) (now : N) (rows : List (PrefRow N))
      → first_pref lower other d (upsert_pref lower owner c on now rows) ≡ (
          if (lower owner == lower other) && c == d then some on else first_pref lower other d rows)
  first_pref-upsert_pref owner other c d on now [] = refl
  first_pref-upsert_pref owner other c d on now (row ∷ rows) =
      elim (Bool-cases (is_pref lower owner c row)) [
        | inl mine ↦
            let here = own_row owner other c d row mine in
            elim (Bool-cases ((lower owner == lower other) && c == d)) [
              | inl same ↦ rw (mine, here ∙ same, same) refl
              | inr differ ↦ rw (mine, here ∙ differ, differ) refl
            ]
        | inr foreign ↦ elim (Bool-cases (is_pref lower other d row)) [
          | inl theirs ↦ rw (foreign, theirs, other_row owner other c d row foreign theirs) refl
          | inr neither ↦ rw (foreign, neither) (first_pref-upsert_pref owner other c d on now rows)
        ]
      ]

  is_enabled-set_if_given :
      (owner other : String) (c d : PushCategory) (o : Option Bool) (now : N)
      (rows : List (PrefRow N))
      → is_enabled lower other d (set_if_given lower owner c o now rows) ≡ (
          if (lower owner == lower other) && c == d
          then get_or o (is_enabled lower other d rows)
          else is_enabled lower other d rows)
  unfolding is_enabled
  is_enabled-set_if_given owner other c d none now rows = ground arith
  is_enabled-set_if_given owner other c d (some on) now rows =
      ground (arith, first_pref-upsert_pref owner other c d on now rows)

  three_writes :
      (owner other : String) (d : PushCategory) (p : SomePrefs) (now : N) (rows : List (PrefRow N))
      → (let own = λ (c : PushCategory). (lower owner == lower other) && c == d in
          let given =
            λ (c : PushCategory) (o : Option Bool) (on : Bool). if own c then get_or o on else on in
          is_enabled lower other d (set_prefs lower owner p now rows)
          ≡ given lifecycle p.lifecycle
              (given alerts p.alerts (given fills p.fills (is_enabled lower other d rows))))
  unfolding set_prefs
  three_writes owner other d p now rows =
      rw
        (
          is_enabled-set_if_given owner other lifecycle d p.lifecycle now (
              set_if_given lower owner alerts p.alerts now
                (set_if_given lower owner fills p.fills now rows)),
          is_enabled-set_if_given owner other alerts d p.alerts now
              (set_if_given lower owner fills p.fills now rows),
          is_enabled-set_if_given owner other fills d p.fills now rows,
        )
        refl

  is_enabled-set_prefs :
      (owner other : String) (d : PushCategory) (p : SomePrefs) (now : N) (rows : List (PrefRow N))
      → is_enabled lower other d (set_prefs lower owner p now rows) ≡ (
          if lower owner == lower other
          then get_or
              (elim d [ fills ↦ p.fills | alerts ↦ p.alerts | lifecycle ↦ p.lifecycle ])
              (is_enabled lower other d rows)
          else is_enabled lower other d rows)
  is_enabled-set_prefs owner other fills p now rows =
      ground (arith, three_writes owner other fills p now rows)
  is_enabled-set_prefs owner other alerts p now rows =
      ground (arith, three_writes owner other alerts p now rows)
  is_enabled-set_prefs owner other lifecycle p now rows =
      ground (arith, three_writes owner other lifecycle p now rows)

  -- Preferences that are set are read back: for the owner, in any case of the address, the categories
  -- that were given are as given and the others as they were, and the preferences of every other
  -- owner are as they were.
  pub get_prefs-set_prefs :
      (owner other : String) (p : SomePrefs) (now : N) (rows : List (PrefRow N))
      → (let before = get_prefs lower other rows in
          let after = get_prefs lower other (set_prefs lower owner p now rows) in
          after ≡ (
            if lower owner == lower other
            then record {
              fills = get_or p.fills before.fills;
              alerts = get_or p.alerts before.alerts;
              lifecycle = get_or p.lifecycle before.lifecycle;
            }
            else before))
  unfolding get_prefs
  get_prefs-set_prefs owner other p now rows = ground (
    arith,
    is_enabled-set_prefs owner other fills p now rows,
    is_enabled-set_prefs owner other alerts p now rows,
    is_enabled-set_prefs owner other lifecycle p now rows,
  )
