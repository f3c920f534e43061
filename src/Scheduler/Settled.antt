-- ===== src/Scheduler/Settled.antt =====
-- What a write of server/src/strategies/store.ts leaves under its id, as the steps of
-- server/src/engine/scheduler.ts find it.
use text.Mathlib.TextPositions.{eq_refl}
use hyper_solid.Prelude.{String, ◌≡◌, some, string_eq}
use hyper_solid.Strategies.Types.{Strategy}
use hyper_solid.Strategies.Store.{Store, find, update}
use hyper_solid.Scheduler.Lifecycle.{find-update}

module _ {N : Type 0} where
  pub find-update_self :
      (id : String) (f : Strategy N → Strategy N) (st : Store N) {s : Strategy N}
      → find id st ≡ some s
      → find id (update id f st) ≡ some (f s)
  find-update_self id f st e = rw (find-update id id f st, eq_refl id, e)
