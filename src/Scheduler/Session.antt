-- ===== src/Scheduler/Session.antt =====
-- What a tick works on: the store, the activity log, the calls that it has sent (newest first), the
-- caches of the resting-grid pass and the world outside. An exception keeps what was written.
use hyper_solid.Prelude.{String, Bool, Option, none, some, List, [], ◌∷◌, Dict, if◌then◌else◌}
use hyper_solid.Strategies.Store.{Store}
use hyper_solid.Scheduler.Context.{
  Outcome, ok, thrown, Effect, Context, PlaceRequest, PlaceResult, PlaceLimitRequest,
  PlaceLimitResult, CancelRequest, OpenOrders, CloidFill, Activity, RestingExecutor,
}

pub data Call (N : Type 0) : Type 0 where
  placed : PlaceRequest N → Call N
  rested : PlaceLimitRequest N → Call N
  cancelled : CancelRequest → Call N

pub record Session (N W : Type 0) : Type 0 where
  pub store : Store N
  pub activity : List (Activity N)
  pub sent : List (Call N)
  pub open_by_owner : Dict String (OpenOrders N)
  pub fills_by_owner : Dict String (Dict String (CloidFill N))
  pub cancels_by_owner : Dict String (List (String × String))
  pub world : W

abbrev pub Action : Type 0 → Type 0 → Type 0 → Type 0
Action N W A = Session N W → Outcome A × Session N W

module _ {N W : Type 0} where
  infixl 5 ◌>>=◌ ◌>>◌
  abbrev pub ◌>>=◌ : {A B : Type 0} → Action N W A → (A → Action N W B) → Action N W B
  ◌>>=◌ m f y = let (r, y') = m y in elim r [ ok a ↦ f a y' | thrown ↦ (thrown, y') ]

  abbrev pub ◌>>◌ : {B : Type 0} → Action N W (Unit {0}) → Action N W B → Action N W B
  m >> k = m >>= λ _. k

  abbrev pub pure : {A : Type 0} → A → Action N W A
  pure a y = (ok a, y)

  abbrev pub skip : Action N W (Unit {0})
  skip y = (ok tt, y)

  abbrev pub gets : {A : Type 0} → (Session N W → A) → Action N W A
  gets f y = (ok (f y), y)

  abbrev pub modify : (Session N W → Session N W) → Action N W (Unit {0})
  modify f y = (ok tt, f y)

  abbrev pub known_or : {A : Type 0} → Option A → Action N W A → Action N W A
  known_or (some a) m = pure a
  known_or none m = m

  abbrev pub on_store : (Store N → Store N) → Action N W (Unit {0})
  on_store f y = (ok tt, record y { store = f y.store })

  -- A call that the trace does not keep: it only reads.
  abbrev pub reading : {A : Type 0} → Effect W A → Action N W A
  reading e y = let (r, w) = e y.world in (r, record y { world = w })

  -- A call that the trace keeps, also when it throws.
  abbrev pub calling : {A : Type 0} → Call N → Effect W A → Action N W A
  calling c e y = let (r, w) = e y.world in (r, record y { sent = c ∷ y.sent; world = w })

  unfoldable pub place : Context N W → PlaceRequest N → Action N W (PlaceResult N)
  place cx req = calling (Call.placed req) (cx.place req)

  unfoldable pub place_limit :
      RestingExecutor N W → PlaceLimitRequest N → Action N W (PlaceLimitResult N)
  place_limit exec req = calling (Call.rested req) (exec.place_limit req)

  unfoldable pub cancel_many : RestingExecutor N W → CancelRequest → Action N W Bool
  cancel_many exec req = calling (Call.cancelled req) (exec.cancel_many req)

  -- `if (activity && ...) activity.record(a)`
  unfoldable pub record_activity : Context N W → Activity N → Action N W (Unit {0})
  record_activity cx a = elim cx.activity [
    | none ↦ skip
    | some _ ↦ λ y. (ok tt, record y { activity = a ∷ y.activity })
  ]

  -- `if (c) m`, and `if (c) continue; m`
  abbrev pub when : Bool → Action N W (Unit {0}) → Action N W (Unit {0})
  when c m = if c then m else skip

  abbrev pub unless : Bool → Action N W (Unit {0}) → Action N W (Unit {0})
  unless c m = if c then skip else m

  -- `if (o === undefined) continue;`, and the value otherwise
  abbrev pub with_some :
      {A : Type 0} → Option A → (A → Action N W (Unit {0})) → Action N W (Unit {0})
  with_some none k = skip
  with_some (some a) k = k a

  -- `for (const x of xs)`
  unfoldable pub for_each :
      {A : Type 0} → List A → (A → Action N W (Unit {0})) → Action N W (Unit {0})
  for_each [] body = skip
  for_each (x ∷ xs) body = body x >>= λ _. for_each xs body
