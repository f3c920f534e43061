-- ===== src/Push/Once.antt =====
-- How often server/src/strategies/notifyingStrategyStore.ts announces that a strategy completed.
use hyper_solid.Prelude.{
  ℕ, suc, ◌+◌, String, Bool, true, false, ◌≡◌, refl, inl, inr, Bool-cases, Option-cases, subst, sym,
  List, [], ◌∷◌, arith, string_eq, ◌==◌, if◌then◌else◌,
}
use text.Mathlib.TextPositions.{eq_refl}
use hyper_solid.Number.{Number}
use hyper_solid.Strategies.Types.{Strategy, StrategyParams}
use hyper_solid.Strategies.Store.{Store, find, update, record_fill, record_trigger, next_slice}
use hyper_solid.Scheduler.Lifecycle.{find-update}
use hyper_solid.Push.Completed.{
  Notifying, is_completed, was_completed, fire_if_completed, watching, notifying_record_trigger,
  notifying_record_fill,
}

-- What the scheduler writes that can complete a strategy.
pub data Write (N : Type 0) : Type 0 where
  fill : String → N → N → Write N
  trigger : String → N → Write N

module _ {N : Type 0} ⦃num : Number N⦄ where
  unfoldable pub write : Write N → Notifying N → Notifying N
  unfolding notifying_record_fill notifying_record_trigger
  write (fill id quote next) y = notifying_record_fill id quote next y
  write (trigger id now) y = notifying_record_trigger id now y

  unfoldable pub writes : List (Write N) → Notifying N → Notifying N
  unfolding write
  writes [] y = y
  writes (w ∷ ws) y = writes ws (write w y)

abbrev pub times_announced : {N : Type 0} → String → List (String × Strategy N) → ℕ
times_announced k [] = 0
times_announced k ((id, _) ∷ rest) = let n = times_announced k rest in if id == k then suc n else n

abbrev pub one_if : Bool → ℕ
one_if true = 1
one_if false = 0

module _ {N : Type 0} where
  -- The announcements of an id, with one for a strategy that was complete at the start.
  abbrev Once : String → ℕ → Notifying N → Type 0
  Once k start y = times_announced k y.announced + start ≡ one_if (was_completed (find k y.inner))

  watching-Once_other :
      (id k : String) (f : Strategy N → Strategy N) (start : ℕ) (y : Notifying N)
      → (id == k) ≡ false
      → Once k start y
      → Once k start (watching id (update id f) y)
  unfolding watching fire_if_completed
  watching-Once_other id k f start y other once =
      ground (arith, other, find-update id k f y.inner, find-update id id f y.inner)

  watching-Once_self :
      (k : String) (f : Strategy N → Strategy N) (start : ℕ) (y : Notifying N)
      → ((s : Strategy N) → is_completed s.status ≡ true → is_completed (f s).status ≡ true)
      → Once k start y
      → Once k start (watching k (update k f) y)
  unfolding watching fire_if_completed
  watching-Once_self k f start y keeps once = elim (Option-cases (find k y.inner)) [
    | inl e ↦ ground (arith, e, find-update k k f y.inner, eq_refl k)
    | inr (s, e) ↦ ground (arith, e, find-update k k f y.inner, eq_refl k, keeps s)
  ]

  watching-Once :
      (id k : String) (f : Strategy N → Strategy N) (start : ℕ) (y : Notifying N)
      → ((s : Strategy N) → is_completed s.status ≡ true → is_completed (f s).status ≡ true)
      → Once k start y
      → Once k start (watching id (update id f) y)
  watching-Once id k f start y keeps once = elim (Bool-cases (id == k)) [
    | inl h ↦
        subst (λ i. Once k start (watching i (update i f) y)) (sym ((string_eq.same_iff id k).0 h))
          (watching-Once_self k f start y keeps once)
    | inr h ↦ watching-Once_other id k f start y h once
  ]

module _ {N : Type 0} ⦃num : Number N⦄ where
  next_slice_completed :
      (p : StrategyParams N) (s : Strategy N)
      → is_completed s.status ≡ true
      → is_completed (next_slice p s).status ≡ true
  next_slice_completed (StrategyParams.twap p) s h = ground arith
  next_slice_completed _ s h = h

  write-Once :
      (k : String) (start : ℕ) (w : Write N) (y : Notifying N)
      → Once k start y
      → Once k start (write w y)
  unfolding write notifying_record_fill notifying_record_trigger record_fill record_trigger
  write-Once k start (fill id quote next) y =
      watching-Once id k _ start y (λ s h. next_slice_completed s.params _ h)
  write-Once k start (trigger id now) y = watching-Once id k _ start y (λ s h. refl)

  writes-Once :
      (k : String) (start : ℕ) (ws : List (Write N)) (y : Notifying N)
      → Once k start y
      → Once k start (writes ws y)
  unfolding writes
  writes-Once k start [] y once = once
  writes-Once k start (w ∷ ws) y once =
      writes-Once k start ws (write w y) (write-Once k start w y once)

  -- Over any fills and triggers that the scheduler records, on this strategy and others, a strategy's
  -- completion is announced once if it was not complete at first and is at the end, and never
  -- otherwise.
  pub announced_once :
      (k : String) (ws : List (Write N)) (st : Store N)
      → times_announced k (writes ws (record { inner = st; announced = [] })).announced
          + one_if (was_completed (find k st))
        ≡ one_if (was_completed (find k (writes ws (record { inner = st; announced = [] })).inner))
  announced_once k ws st =
      writes-Once k (one_if (was_completed (find k st))) ws (record { inner = st; announced = [] })
        (omega arith)
