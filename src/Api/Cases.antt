-- ===== src/Api/Cases.antt =====
-- The early returns of the routes of server/src/http/app.ts: what holds of the reply on every way out of
-- one of them.
use hyper_solid.Prelude.{
  String, Bool, true, ◌≡◌, refl, inl, inr, Option, none, some, string_eq, ◌==◌, Bool-cases,
}
use hyper_solid.Strategies.Types.{Strategy}
use hyper_solid.Strategies.Values.{Value, absent, flag}
use hyper_solid.Api.Types.{App, AppDeps, Reply}
use hyper_solid.Api.Account.{fail, configured, needed, with_flag}
use hyper_solid.Api.Automation.{if_owned}

module _ {N : Type 0} (P : Reply N × App N → Type 0) (app : App N) where
  pub configured-cases :
      {A : Type 0} (o : Option A) (k : A → Reply N × App N)
      → P (fail 503 "push not configured", app)
      → ((a : A) → P (k a))
      → P (configured app o k)
  configured-cases none k out on = out
  configured-cases (some a) k out on = on a

  pub needed-cases :
      {A : Type 0} (o : Option A) (error : String) (k : A → Reply N × App N)
      → P (fail 400 error, app)
      → ((a : A) → P (k a))
      → P (needed app o error k)
  needed-cases none error k out on = out
  needed-cases (some a) error k out on = on a

  pub with_flag-cases :
      (v : Value N) (error : String) (k : Option Bool → Reply N × App N)
      → P (fail 400 error, app)
      → ((o : Option Bool) → P (k o))
      → P (with_flag app error v k)
  with_flag-cases absent error k out on = on none
  with_flag-cases (flag b) error k out on = on (some b)
  with_flag-cases _ error k out on = out

  pub if_owned-cases :
      (deps : AppDeps N) (owner : String) (o : Option (Strategy N))
      (k : Strategy N → Reply N × App N)
      → P (fail 404 "not found", app)
      → ((s : Strategy N) → o ≡ some s → (deps.lower s.owner == deps.lower owner) ≡ true → P (k s))
      → P (if_owned deps owner app k o)
  if_owned-cases deps owner none k out on = out
  if_owned-cases deps owner (some s) k out on =
      elim (Bool-cases (deps.lower s.owner == deps.lower owner)) [
        | inl mine ↦ rw mine (on s refl mine)
        | inr foreign ↦ rw foreign out
      ]
