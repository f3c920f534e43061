-- ===== src/Strategies/Newest.antt =====
-- The order in which server/src/strategies/activityStore.ts lists the log.
use hyper_solid.Prelude.{
  ℕ, zero, suc, String, Bool, true, false, ◌≡◌, refl, sym, inl, inr, List, [], ◌∷◌, ◌++◌, keep,
  take, drop, length, min, ap, ◌∙◌, take-append-drop, subst, All, string_eq, ◌==◌, Bool-cases,
  arith,
}
use mathlib.Core.List.{Permᴰ}
use mathlib.Core.List.Permᴰ as Perms
use hyper_solid.Number.{Number, IsOrdered}
use hyper_solid.Strategies.Activity.{Activity, insert_newest, newest_first, list_recent}

module _ {ℓ} {A : Type ℓ} where
  All-map {κ μ} :
      {P : A → Type κ} {Q : A → Type μ} (xs : List A) → ((x : A) → P x → Q x) → All P xs → All Q xs
  All-map [] f ps = tt
  All-map (x ∷ xs) f (p, ps) = (f x p, All-map xs f ps)

  All-take {κ} : (P : A → Type κ) (n : ℕ) (xs : List A) → All P xs → All P (take n xs)
  All-take P zero xs ps = tt
  All-take P (suc n) [] ps = tt
  All-take P (suc n) (x ∷ xs) (p, ps) = (p, All-take P n xs ps)

  length-take-min : (n : ℕ) (xs : List A) → length (take n xs) ≡ min n (length xs)
  length-take-min zero xs = omega arith
  length-take-min (suc n) [] = omega arith
  length-take-min (suc n) (x ∷ xs) = omega (arith, length-take-min n xs)

  All-drop {κ} : (P : A → Type κ) (n : ℕ) (xs : List A) → All P xs → All P (drop n xs)
  All-drop P zero xs ps = ps
  All-drop P (suc n) [] ps = tt
  All-drop P (suc n) (x ∷ xs) (p, ps) = All-drop P n xs ps

  All-keep {κ} : (P : A → Type κ) (p : A → Bool) (xs : List A) → All P xs → All P (keep p xs)
  All-keep P p [] ps = tt
  All-keep P p (x ∷ xs) (q, ps) = elim (Bool-cases (p x)) [
    | inl in_it ↦ rw in_it (q, All-keep P p xs ps)
    | inr out ↦ rw out (All-keep P p xs ps)
  ]

module _ {N : Type 0} ⦃num : Number N⦄ ⦃ordered : IsOrdered N⦄ where
  open num use {lt, le}

  abbrev pub IsTime : N → Type 0
  IsTime t = le t t ≡ true

  -- No later entry of the list is newer than an earlier one.
  abbrev pub Sorted : List (Activity N) → Type 0
  Sorted [] = Unit
  Sorted (a ∷ rows) = All (λ b. le b.time a.time ≡ true) rows × Sorted rows

  insert_newest-All :
      (P : Activity N → Type 0) (a : Activity N) (rows : List (Activity N))
      → P a
      → All P rows
      → All P (insert_newest a rows)
  insert_newest-All P a [] p ps = (p, tt)
  insert_newest-All P a (b ∷ rows) p (q, ps) = elim (Bool-cases (lt a.time b.time)) [
    | inl newer ↦ rw newer (q, insert_newest-All P a rows p ps)
    | inr older ↦ rw older (p, (q, ps))
  ]

  pub newest_first-All :
      (P : Activity N → Type 0) (rows : List (Activity N)) → All P rows → All P (newest_first rows)
  newest_first-All P [] ps = tt
  newest_first-All P (a ∷ rows) (p, ps) =
      insert_newest-All P a (newest_first rows) p (newest_first-All P rows ps)

  insert_newest_perm :
      (a : Activity N) (rows : List (Activity N)) → Permᴰ (insert_newest a rows) (a ∷ rows)
  insert_newest_perm a [] = Perms.refl (a ∷ [])
  insert_newest_perm a (b ∷ rows) = elim (Bool-cases (lt a.time b.time)) [
    | inl newer ↦
        rw newer (Permᴰ.trans (Permᴰ.cons refl (insert_newest_perm a rows)) (Permᴰ.swap refl refl))
    | inr older ↦ rw older (Perms.refl (a ∷ b ∷ rows))
  ]

  newest_first_perm : (rows : List (Activity N)) → Permᴰ (newest_first rows) rows
  newest_first_perm [] = Permᴰ.nil
  newest_first_perm (a ∷ rows) =
      Permᴰ.trans (insert_newest_perm a (newest_first rows))
        (Permᴰ.cons refl (newest_first_perm rows))

  abbrev Timed : List (Activity N) → Type 0
  Timed rows = All (λ r. IsTime r.time) rows

  before :
      (a b : Activity N)
      → IsTime a.time
      → IsTime b.time
      → lt a.time b.time ≡ true
      → le a.time b.time ≡ true
  before a b t u newer =
      ground (arith, ordered.lt-eq-not_le a.time b.time t u, ordered.le_total a.time b.time t u)

  not_before :
      (a b : Activity N)
      → IsTime a.time
      → IsTime b.time
      → lt a.time b.time ≡ false
      → le b.time a.time ≡ true
  not_before a b t u older = ground (arith, ordered.lt-eq-not_le a.time b.time t u)

  insert_newest-Sorted :
      (a : Activity N) (rows : List (Activity N))
      → IsTime a.time
      → Timed rows
      → Sorted rows
      → Sorted (insert_newest a rows)
  insert_newest-Sorted a [] t ts s = (tt, tt)
  insert_newest-Sorted a (b ∷ rows) t (u, ts) (s, ss) = elim (Bool-cases (lt a.time b.time)) [
    | inl newer ↦ rw newer (
      insert_newest-All (λ r. le r.time b.time ≡ true) a rows (before a b t u newer) s,
      insert_newest-Sorted a rows t ts ss,
    )
    | inr older ↦
        let below = not_before a b t u older in
        rw older
          ((below, All-map rows (λ r h. ordered.le_trans r.time b.time a.time h below) s), (s, ss))
  ]

  newest_first-Sorted : (rows : List (Activity N)) → Timed rows → Sorted (newest_first rows)
  newest_first-Sorted [] ts = tt
  newest_first-Sorted (a ∷ rows) (t, ts) =
      insert_newest-Sorted a (newest_first rows) t (newest_first-All (λ r. IsTime r.time) rows ts)
        (newest_first-Sorted rows ts)

  -- A list that is sorted, cut after some of its entries.
  cut-Sorted :
      (n : ℕ) (rows : List (Activity N))
      → Sorted rows
      → Sorted (take n rows)
        × All (λ a. All (λ b. le b.time a.time ≡ true) (drop n rows)) (take n rows)
  cut-Sorted zero rows s = (tt, tt)
  cut-Sorted (suc n) [] s = (tt, tt)
  cut-Sorted (suc n) (a ∷ rows) (s, ss) =
      let (sorted, apart) = cut-Sorted n rows ss in
      ((All-take _ n rows s, sorted), (All-drop _ n rows s, apart))

  length-insert_newest :
      (a : Activity N) (rows : List (Activity N))
      → length (insert_newest a rows) ≡ suc (length rows)
  length-insert_newest a [] = refl
  length-insert_newest a (b ∷ rows) = elim (Bool-cases (lt a.time b.time)) [
    | inl newer ↦ rw newer (ap suc (length-insert_newest a rows))
    | inr older ↦ rw older refl
  ]

  length-newest_first : (rows : List (Activity N)) → length (newest_first rows) ≡ length rows
  length-newest_first [] = refl
  length-newest_first (a ∷ rows) =
      length-insert_newest a (newest_first rows) ∙ ap suc (length-newest_first rows)

  -- The recent fills of an owner are the newest ones, where every time is a number: with the fills that
  -- are left out they are a rearrangement of all of the owner's fills, they are newest first, there are
  -- as many of them as the limit, or all where there are fewer, and no fill that is left out is newer than one that is not.
  pub list_recent_newest :
      (lower : String → String) (owner : String) (limit : ℕ) (rows : List (Activity N))
      → All (λ r. IsTime r.time) rows
      → (let recent = list_recent lower owner limit rows in
          (length recent ≡ min limit (length (keep (λ r. r.owner == lower owner) rows)))
          × Sorted recent
          × ((left : List (Activity N)) × Permᴰ
                (recent ++ left)
                (keep (λ r. r.owner == lower owner) rows)
              × All (λ a. All (λ b. le b.time a.time ≡ true) left) recent))
  unfolding list_recent
  list_recent_newest lower owner limit rows times =
      let own = keep (λ r. r.owner == lower owner) rows in
      let (sorted, apart) =
        cut-Sorted limit (newest_first own)
          (newest_first-Sorted own (All-keep (λ r. IsTime r.time) _ rows times)) in
      (
        length-take-min limit (newest_first own) ∙ ap (min limit) (length-newest_first own),
        sorted,
        (
          drop limit (newest_first own),
          subst (λ xs. Permᴰ xs own) (sym (take-append-drop limit (newest_first own)))
              (newest_first_perm own),
          apart,
        ),
      )
