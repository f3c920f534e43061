-- ===== src/Api/Guarded.antt =====
-- The strategies that a request to server/src/http/app.ts may not change: those of another owner, and a
-- grid of resting orders that is canceled.
use hyper_solid.Prelude.{
  String, false, ◌≡◌, subst, inl, inr, Option, none, some, Dict, lookup-insert, string_eq, ◌==◌,
}
use hyper_solid.Number.{Number}
use hyper_solid.Strategies.Types.{canceling, StrategyKind, StrategyParams, Strategy, kind_of}
use hyper_solid.Strategies.Values.{Value, Checked, accepted, refused}
use hyper_solid.Strategies.Store
use hyper_solid.Strategies.Store.{Store}
use hyper_solid.Api.Types.{App, AppDeps, Draws, Request}
use hyper_solid.Api.Account
use hyper_solid.Api.Automation
use hyper_solid.Api.Handler.{handle, serve}
use hyper_solid.Api.Keyed.{WellKeyed}
use hyper_solid.Api.Untouched.{Holds, serve-Holds, handle-Holds}
use hyper_solid.Api.Owned.{
  Stays, Foreign, Guarded, patch_strategy-Kept, delete_strategy-Kept, kill_switch-Kept,
}

module _ {N : Type 0} ⦃num : Number N⦄ where
  module _ (deps : AppDeps N) (draws : Draws N) (owner id : String) (s : Strategy N) (app : App N)
      (found : Store.find id app.store ≡ some s) where
    create_checked-Kept :
        (c : Checked (StrategyParams N))
        → (draws.id == id) ≡ false
        → Holds (Stays id s) (Automation.create_checked deps draws owner c app)
    unfolding Store.create Store.find
    create_checked-Kept (refused error) fresh = record { holds = found }
    create_checked-Kept (accepted params) fresh = record {
      holds =
          rw
            (
              lookup-insert draws.id id (Store.build draws.id owner params draws.now)
                  app.store.by_id,
              fresh,
            )
            found;
    }

    create_strategy-Kept :
        (body : Option (String × Option (Dict String (Value N))))
        → (draws.id == id) ≡ false
        → Holds (Stays id s) (Automation.create_strategy deps draws owner body app)
    unfolding Automation.create_strategy
    create_strategy-Kept none fresh = record { holds = found }
    create_strategy-Kept (some (name, params)) fresh = create_checked-Kept _ fresh

    serve-Stays :
        (request : Request N)
        → Guarded deps owner s
        → (draws.id == id) ≡ false
        → WellKeyed app.store.by_id
        → Holds (Stays id s) (serve deps draws owner request app)
    serve-Stays request guard fresh keyed =
        serve-Holds (Stays id s) deps draws owner app found request
          (λ body. create_strategy-Kept body fresh)
          (patch_strategy-Kept deps owner id s app found guard)
          (delete_strategy-Kept deps owner id s app found guard)
          (kill_switch-Kept deps owner id s app found guard keyed)

  handle-Stays :
      (deps : AppDeps N) (draws : Draws N) (authorization : Option String) (request : Request N)
      (id : String) (s : Strategy N) (app : App N)
      → Store.find id app.store ≡ some s
      → ((caller : String)
          → Account.owner_of deps draws.now authorization ≡ some caller
          → Guarded deps caller s)
      → (draws.id == id) ≡ false
      → WellKeyed app.store.by_id
      → Store.find id (handle deps draws authorization request app).1.store ≡ some s
  handle-Stays deps draws authorization request id s app found guard fresh keyed =
      (handle-Holds (Stays id s) deps draws authorization request app found (λ caller e.
        serve-Stays deps draws caller id s app found request (guard caller e) fresh keyed)).holds

  -- The caller's token, if there is one that verifies, is not the owner's.
  abbrev pub ForeignTo : AppDeps N → Option String → Strategy N → Type 0
  ForeignTo deps none s = Unit
  ForeignTo deps (some caller) s = Foreign deps caller s

  foreign_guard :
      (deps : AppDeps N) (o : Option String) (s : Strategy N)
      → ForeignTo deps o s
      → (caller : String) → o ≡ some caller
      → Guarded deps caller s
  foreign_guard deps o s h caller e = inl (subst (λ p. ForeignTo deps p s) e h)

  -- Owners are kept apart. Whatever is requested, a strategy stays exactly as it was where the
  -- caller has no token that verifies, or one of another owner, where the id drawn for a new
  -- strategy is not its own, and where the store holds each strategy under its own id.
  pub strangers_change_nothing :
      (deps : AppDeps N) (draws : Draws N) (authorization : Option String) (request : Request N)
      (id : String) (s : Strategy N) (app : App N)
      → Store.find id app.store ≡ some s
      → ForeignTo deps (Account.owner_of deps draws.now authorization) s
      → (draws.id == id) ≡ false
      → WellKeyed app.store.by_id
      → Store.find id (handle deps draws authorization request app).1.store ≡ some s
  strangers_change_nothing deps draws authorization request id s app found foreign fresh keyed =
      handle-Stays deps draws authorization request id s app found
        (foreign_guard deps (Account.owner_of deps draws.now authorization) s foreign) fresh keyed

  -- A grid of resting orders that is being deleted cannot be brought back. Whatever its owner or
  -- anyone requests, a canceling grid stays exactly as it was, where the id drawn for a new strategy
  -- is not its own and the store holds each strategy under its own id.
  pub draining_kept :
      (deps : AppDeps N) (draws : Draws N) (authorization : Option String) (request : Request N)
      (id : String) (s : Strategy N) (app : App N)
      → Store.find id app.store ≡ some s
      → s.status ≡ canceling
      → kind_of s.params ≡ StrategyKind.grid_limit
      → (draws.id == id) ≡ false
      → WellKeyed app.store.by_id
      → Store.find id (handle deps draws authorization request app).1.store ≡ some s
  draining_kept deps draws authorization request id s app found stopped kind fresh keyed =
      handle-Stays deps draws authorization request id s app found (λ caller e. inr (stopped, kind))
        fresh keyed
