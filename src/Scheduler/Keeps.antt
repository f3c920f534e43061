-- ===== src/Scheduler/Keeps.antt =====
-- Rules about what an action keeps of the store, whatever the world answers and whether or not it
-- throws.
use hyper_solid.Prelude.{
  String, Bool, true, false, ◌≡◌, refl, Option, none, some, List, [], ◌∷◌, All, arith, subst, sym,
  if◌then◌else◌,
}
use hyper_solid.Number.{Number}
use hyper_solid.Strategies.Types.{Side, Strategy}
use hyper_solid.Strategies.Store.{Store}
use hyper_solid.Scheduler.Context.{
  Outcome, ok, thrown, Effect, Context, PlaceRequest, PlaceLimitRequest, PlaceResult, Activity,
  CancelRequest, RestingExecutor,
}
use hyper_solid.Scheduler.Session.{
  Action, Session, ◌>>=◌, skip, pure, gets, modify, known_or, on_store, when, unless, with_some,
  for_each, reading, place, place_limit, cancel_many, record_activity,
}
use hyper_solid.Scheduler.Entries.{record_entry}

pub record Keeps {N W A : Type 0} (I : Store N → Type 0) (m : Action N W A) : Type 0 where
  pub after : (y : Session N W) → I y.store → I (m y).1.store

module _ {N W : Type 0} ⦃num : Number N⦄ (I : Store N → Type 0) where
  pub >>=-Keeps :
      {A B : Type 0} (m : Action N W A) (f : A → Action N W B)
      → Keeps I m
      → ((a : A) → Keeps I (f a))
      → Keeps I (m >>= f)
  >>=-Keeps {A} m f h k = record { after = λ y t. go (m y) (h.after y t) }
    where
      go :
          (r : Outcome A × Session N W)
          → I r.1.store
          → I (((λ (_ : Session N W). r) >>= f) r.1).1.store
      go (ok a, y') u = (k a).after y' u
      go (thrown, y') u = u

  pub unless-Keeps :
      (c : Bool) (m : Action N W (Unit {0})) → (c ≡ false → Keeps I m) → Keeps I (unless c m)
  unless-Keeps true m h = record { after = λ y t. t }
  unless-Keeps false m h = h refl

  pub when-Keeps :
      (c : Bool) (m : Action N W (Unit {0})) → (c ≡ true → Keeps I m) → Keeps I (when c m)
  when-Keeps true m h = h refl
  when-Keeps false m h = record { after = λ y t. t }

  pub branch-Keeps :
      (c : Bool) (m n : Action N W (Unit {0}))
      → (c ≡ true → Keeps I m)
      → (c ≡ false → Keeps I n)
      → Keeps I (if c then m else n)
  branch-Keeps true m n h k = h refl
  branch-Keeps false m n h k = k refl

  pub place-Keeps : (cx : Context N W) (req : PlaceRequest N) → Keeps I (place cx req)
  unfolding place
  place-Keeps cx req = record { after = λ y t. t }

  pub place_limit-Keeps :
      (exec : RestingExecutor N W) (req : PlaceLimitRequest N) → Keeps I (place_limit exec req)
  unfolding place_limit
  place_limit-Keeps exec req = record { after = λ y t. t }

  pub cancel_many-Keeps :
      (exec : RestingExecutor N W) (req : CancelRequest) → Keeps I (cancel_many exec req)
  unfolding cancel_many
  cancel_many-Keeps exec req = record { after = λ y t. t }

  pub record_activity-Keeps : (cx : Context N W) (a : Activity N) → Keeps I (record_activity cx a)
  unfolding record_activity
  record_activity-Keeps cx a = record { after = λ y t. ground arith }

  pub record_entry-Keeps :
      (cx : Context N W) (s : Strategy N) (coin : String) (side : Side) (res : PlaceResult N)
      → Keeps I (record_entry cx s coin side res)
  unfolding record_entry
  record_entry-Keeps cx s coin side res = record { after = λ y t. ground arith }

  pub gets-Keeps : {A : Type 0} (f : Session N W → A) → Keeps I (gets f)
  gets-Keeps f = record { after = λ y t. t }

  pub on_store-Keeps :
      (f : Store N → Store N) → ((st : Store N) → I st → I (f st)) → Keeps I (on_store {W = W} f)
  on_store-Keeps f h = record { after = λ y t. h y.store t }

  pub modify-Keeps :
      (f : Session N W → Session N W)
      → ((y : Session N W) → (f y).store ≡ y.store)
      → Keeps I (modify f)
  modify-Keeps f h = record { after = λ y t. subst I (sym (h y)) t }

  pub reading-Keeps : {A : Type 0} (e : Effect W A) → Keeps I (reading e)
  reading-Keeps e = record { after = λ y t. t }

  pub skip-Keeps : Keeps I (skip {W = W})
  skip-Keeps = record { after = λ y t. t }

  pub pure-Keeps : {A : Type 0} (a : A) → Keeps I (pure {W = W} a)
  pure-Keeps a = record { after = λ y t. t }

  pub with_some-Keeps :
      {A : Type 0} (o : Option A) (k : A → Action N W (Unit {0}))
      → ((a : A) → Keeps I (k a))
      → Keeps I (with_some o k)
  with_some-Keeps none k h = skip-Keeps
  with_some-Keeps (some a) k h = h a

  pub known_or-Keeps :
      {A : Type 0} (o : Option A) (m : Action N W A) → Keeps I m → Keeps I (known_or o m)
  known_or-Keeps none m h = h
  known_or-Keeps (some a) m h = pure-Keeps a

  pub for_each-Keeps :
      {A : Type 0} (Q : A → Type 0) (xs : List A) (body : A → Action N W (Unit {0}))
      → All Q xs
      → ((x : A) → Q x → Keeps I (body x))
      → Keeps I (for_each xs body)
  unfolding for_each
  for_each-Keeps Q [] body q h = skip-Keeps
  for_each-Keeps Q (x ∷ xs) body (q, qs) h =
      >>=-Keeps _ _ (h x q) (λ _. for_each-Keeps Q xs body qs h)

  pub for_all-Keeps :
      {A : Type 0} (xs : List A) (body : A → Action N W (Unit {0}))
      → ((x : A) → Keeps I (body x))
      → Keeps I (for_each xs body)
  unfolding for_each
  for_all-Keeps [] body h = skip-Keeps
  for_all-Keeps (x ∷ xs) body h = >>=-Keeps _ _ (h x) (λ _. for_all-Keeps xs body h)

pub ruleset steady = (
  record_entry-Keeps, record_activity-Keeps, gets-Keeps, reading-Keeps, skip-Keeps, pure-Keeps,
  place-Keeps, place_limit-Keeps, cancel_many-Keeps, when-Keeps, unless-Keeps, branch-Keeps,
  with_some-Keeps, known_or-Keeps, modify-Keeps, >>=-Keeps,
)
