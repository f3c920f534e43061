-- ===== src/Scheduler/Reads.antt =====
-- The caches of the resting-grid pass in server/src/engine/scheduler.ts leave the store alone.
use hyper_solid.Prelude.{String, Option, none, some, Dict, string_eq}
use hyper_solid.Number.{Number}
use hyper_solid.Strategies.Store.{Store}
use hyper_solid.Scheduler.Context.{Effect, OpenOrders, CloidFill}
use hyper_solid.Scheduler.Rungs.{get_open, get_fills}
use hyper_solid.Scheduler.Keeps.{Keeps, steady}

module _ {N W : Type 0} ⦃num : Number N⦄ (I : Store N → Type 0) where
  pub get_open-Keeps :
      (reader : String → Effect W (OpenOrders N)) (owner : String) → Keeps I (get_open reader owner)
  unfolding get_open
  get_open-Keeps reader owner = search steady depth 12

  pub get_fills-Keeps :
      (reader : Option (String → Effect W (Dict String (CloidFill N)))) (owner : String)
      → Keeps I (get_fills reader owner)
  unfolding get_fills
  get_fills-Keeps none owner = search steady
  get_fills-Keeps (some reader) owner = search steady depth 12
