-- ===== src/Scheduler/Sends.antt =====
-- Rules about what an action sends, whatever the world answers and whether or not it throws.
use hyper_solid.Prelude.{
  String, Bool, true, false, ◌≡◌, refl, Option, none, some, List, [], ◌∷◌, All, arith, subst, sym,
  if◌then◌else◌,
}
use hyper_solid.Number.{Number}
use hyper_solid.Strategies.Types.{Side, Strategy}
use hyper_solid.Strategies.Store.{Store}
use hyper_solid.Scheduler.Context.{
  Outcome, ok, thrown, Effect, Context, PlaceRequest, PlaceLimitRequest, PlaceResult, Activity,
  CancelRequest, RestingExecutor,
}
use hyper_solid.Scheduler.Session.{
  Action, Call, placed, rested, cancelled, Session, ◌>>=◌, skip, pure, gets, modify, known_or,
  on_store, when, unless, with_some, for_each, reading, place, place_limit, cancel_many,
  record_activity,
}
use hyper_solid.Scheduler.Entries.{record_entry}

-- Whatever was sent before, and whether or not the action throws, all that it has sent is `P`.
pub record Sends {N W A : Type 0} (P : Call N → Type 0) (m : Action N W A) : Type 0 where
  pub after : (y : Session N W) → All P y.sent → All P (m y).1.sent

module _ {N W : Type 0} ⦃num : Number N⦄ (P : Call N → Type 0) where
  pub >>=-Sends :
      {A B : Type 0} (m : Action N W A) (f : A → Action N W B)
      → Sends P m
      → ((a : A) → Sends P (f a))
      → Sends P (m >>= f)
  >>=-Sends {A} m f h k = record { after = λ y t. go (m y) (h.after y t) }
    where
      go :
          (r : Outcome A × Session N W)
          → All P r.1.sent
          → All P (((λ (_ : Session N W). r) >>= f) r.1).1.sent
      go (ok a, y') u = (k a).after y' u
      go (thrown, y') u = u

  pub unless-Sends :
      (c : Bool) (m : Action N W (Unit {0})) → (c ≡ false → Sends P m) → Sends P (unless c m)
  unless-Sends true m h = record { after = λ y t. t }
  unless-Sends false m h = h refl

  pub when-Sends : (c : Bool) (m : Action N W (Unit {0})) → Sends P m → Sends P (when c m)
  when-Sends true m h = h
  when-Sends false m h = record { after = λ y t. t }

  pub place-Sends :
      (cx : Context N W) (req : PlaceRequest N) → P (placed req) → Sends P (place cx req)
  unfolding place
  place-Sends cx req h = record { after = λ y t. (h, t) }

  pub record_entry-Sends :
      (cx : Context N W) (s : Strategy N) (coin : String) (side : Side) (res : PlaceResult N)
      → Sends P (record_entry cx s coin side res)
  unfolding record_entry
  record_entry-Sends cx s coin side res = record { after = λ y t. ground arith }

  pub gets-Sends : {A : Type 0} (f : Session N W → A) → Sends P (gets f)
  gets-Sends f = record { after = λ y t. t }

  pub on_store-Sends : (f : Store N → Store N) → Sends P (on_store {W = W} f)
  on_store-Sends f = record { after = λ y t. t }

  pub reading-Sends : {A : Type 0} (e : Effect W A) → Sends P (reading e)
  reading-Sends e = record { after = λ y t. t }

  pub skip-Sends : Sends P (skip {W = W})
  skip-Sends = record { after = λ y t. t }

  pub for_each-Sends :
      {A : Type 0} (xs : List A) (body : A → Action N W (Unit {0}))
      → ((x : A) → Sends P (body x))
      → Sends P (for_each xs body)
  unfolding for_each
  for_each-Sends [] body h = skip-Sends
  for_each-Sends (x ∷ xs) body h = >>=-Sends _ _ (h x) (λ _. for_each-Sends xs body h)

  pub pure-Sends : {A : Type 0} (a : A) → Sends P (pure {W = W} a)
  pure-Sends a = record { after = λ y t. t }

  pub record_activity-Sends : (cx : Context N W) (a : Activity N) → Sends P (record_activity cx a)
  unfolding record_activity
  record_activity-Sends cx a = record { after = λ y t. ground arith }

  pub with_some-Sends :
      {A : Type 0} (o : Option A) (k : A → Action N W (Unit {0}))
      → ((a : A) → Sends P (k a))
      → Sends P (with_some o k)
  with_some-Sends none k h = skip-Sends
  with_some-Sends (some a) k h = h a

  pub known_or-Sends :
      {A : Type 0} (o : Option A) (m : Action N W A) → Sends P m → Sends P (known_or o m)
  known_or-Sends none m h = h
  known_or-Sends (some a) m h = pure-Sends a

  pub branch-Sends :
      (c : Bool) (m n : Action N W (Unit {0}))
      → (c ≡ true → Sends P m)
      → (c ≡ false → Sends P n)
      → Sends P (if c then m else n)
  branch-Sends true m n h k = h refl
  branch-Sends false m n h k = k refl

  pub place_limit-Sends :
      (exec : RestingExecutor N W) (req : PlaceLimitRequest N)
      → P (rested req)
      → Sends P (place_limit exec req)
  unfolding place_limit
  place_limit-Sends exec req h = record { after = λ y t. (h, t) }

  pub cancel_many-Sends :
      (exec : RestingExecutor N W) (req : CancelRequest)
      → P (cancelled req)
      → Sends P (cancel_many exec req)
  unfolding cancel_many
  cancel_many-Sends exec req h = record { after = λ y t. (h, t) }

  -- A change of the session that leaves the trace alone.
  pub modify-Sends :
      (f : Session N W → Session N W)
      → ((y : Session N W) → (f y).sent ≡ y.sent)
      → Sends P (modify f)
  modify-Sends f h = record { after = λ y t. subst (All P) (sym (h y)) t }

pub ruleset quiet = (
  record_entry-Sends, record_activity-Sends, gets-Sends, on_store-Sends, reading-Sends, skip-Sends,
  pure-Sends, when-Sends, with_some-Sends, known_or-Sends, >>=-Sends,
)
