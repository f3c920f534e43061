-- ===== src/Scheduler/Tests.antt =====
-- A tick on a concrete store and world, and the theorems of `Safety` there.
use hyper_solid.Prelude.{String, true, false, ◌≡◌, refl, List, [], ◌∷◌, All, map}
use hyper_solid.Number.{Cents, pos, cents_number, show_ℤ}
use hyper_solid.Strategies.Store.{
  list_all, grid_limit_rungs, record_fill, set_grid_limit_rung, remove,
}
use hyper_solid.Strategies.GridLimit.{
  rung_count, armable, rung_sell_price, rung_buy_price, rung_size_coin,
}
use hyper_solid.Strategies.Rules.{within_caps, due_dca, due_twap, dca_next_run_at}
use hyper_solid.Scheduler.Context.{ok, caps_ok, cloid_for, cloid_for_key}
use hyper_solid.Scheduler.Session.{Call, placed, rested, cancelled}
use hyper_solid.Scheduler.Rungs.{over_open_cap}
use hyper_solid.Scheduler.Tick.{tick}
use hyper_solid.Scheduler.Lifecycle.{Follows}
use hyper_solid.Scheduler.Allowed.{Allowed}
use hyper_solid.Strategies.Store.{find}
use hyper_solid.Scheduler.Entries.{scheduled_step, conditional_step}
use hyper_solid.Scheduler.OneShots.{
  ScheduledStep, ConditionalStep, scheduled_once, conditional_once,
}
use hyper_solid.Scheduler.Tick.{grid_limit_pass}
use hyper_solid.Scheduler.RungTags.{TaggedStore, set_rung-TaggedStore}
use hyper_solid.Scheduler.Tagged.{grid_limit_pass_tags}
use hyper_solid.Scheduler.Batches.{CancelDeps}
use hyper_solid.Scheduler.Rungs.{rung}
use hyper_solid.Prelude.{ℕ, ◌+◌, some, if◌then◌else◌, ◌==◌, string_eq, true}
use hyper_solid.Scheduler.Context.{Effect, RestingExecutor, OpenOrders, resting, thrown}
use hyper_solid.Scheduler.Session.{Session}
use hyper_solid.Strategies.GridLimit.{RungState, armed}
use hyper_solid.Strategies.Types.{buy}
use hyper_solid.Strategies.Store.{Store}
use hyper_solid.Scheduler.Safety.{tick_sends-Allowed, tick_evolves, IsCancelingIn}
use hyper_solid.Scheduler.Fixtures.{
  context, scheduled_strategy, scheduled_params, conditional_params, conditional_strategy, store,
  session, entries, marks,
}

abbrev call_cloid : Call Cents → String
call_cloid (placed req) = req.cloid
call_cloid (rested req) = req.cloid
call_cloid (cancelled req) = req.owner

run_ids : List String
run_ids = map call_cloid (tick (context false) session).1.sent

tick_runs :
    (map call_cloid (tick (context false) session).1.sent ≡ "0xg:gl:0:1" ∷ "0xd:900" ∷ [])
    × (map (λ kv. kv.0) (tick (context false) session).1.store.by_id ≡ "d" ∷ "g" ∷ [])
unfolding tick due_dca caps_ok within_caps due_twap rung_count grid_limit_rungs rung_sell_price
    rung_buy_price rung_size_coin set_grid_limit_rung remove over_open_cap record_fill armable
    cloid_for dca_next_run_at show_ℤ
tick_runs = (refl, refl)

tick_sends-Allowed_example : All (Allowed (context false)) (tick (context false) session).1.sent
tick_sends-Allowed_example = tick_sends-Allowed (context false) session refl

tick_evolves_example :
    Follows (IsCancelingIn (list_all store)) store (tick (context false) session).1.store
tick_evolves_example = tick_evolves (context false) session

scheduled_once_example :
    ScheduledStep
      (context false)
      (context true)
      session
      scheduled_strategy
      scheduled_params
      entries
      (scheduled_step (context false) scheduled_strategy entries).1
unfolding find
scheduled_once_example =
    scheduled_once (context false) (context true) scheduled_strategy scheduled_params entries
      session refl refl

conditional_once_example :
    ConditionalStep
      (context false)
      (context true)
      marks
      session
      conditional_strategy
      conditional_params
      entries
      (conditional_step (context false) marks conditional_strategy entries).1
unfolding find
conditional_once_example =
    conditional_once (context false) (context true) marks conditional_strategy conditional_params
      entries session refl refl

abbrev armed_rung : RungState Cents
armed_rung = rung 0 armed (some buy) (some "0xg:gl:0:1") (some (pos 90)) 1

abbrev armed_store : Store Cents
armed_store = set_grid_limit_rung "g" armed_rung store

armed_store-TaggedStore : TaggedStore (context false) armed_store
unfolding cloid_for_key show_ℤ
armed_store-TaggedStore = set_rung-TaggedStore (context false) "g" armed_rung store refl (λ id. tt)

abbrev exec : RestingExecutor Cents ℕ
exec = record {
  place_limit = λ req w. (ok (resting 7), w + 1);
  cancel_many = λ req w. (ok true, w + 1);
}

abbrev reader : String → Effect ℕ (OpenOrders Cents)
reader owner w = (ok (record { by_cloid = []; total = 0 }), w)

abbrev armed_session : Session Cents ℕ
armed_session = record session { store = armed_store }

grid_limit_pass_tags_example :
    TaggedStore
      (context false)
      (grid_limit_pass
        (context false)
        exec
        reader
        marks
        (list_all armed_store)
        armed_session).1.store
grid_limit_pass_tags_example =
    grid_limit_pass_tags (context false) exec reader marks (list_all armed_store) armed_session
      armed_store-TaggedStore

abbrev refuses : List (ℕ × String) → Effect ℕ (Unit {0})
refuses batch w = (thrown, w + 1)

abbrev cancel_deps : CancelDeps ℕ
cancel_deps = record {
  client_for = λ owner. some refuses;
  resolve_asset = λ coin w. (if coin == "BTC" then ok 0 else thrown, w);
  max_cancel_batch = some 2;
}

abbrev three_cancels : List (String × String)
three_cancels = ("DOGE", "0x2") ∷ ("BTC", "0x3") ∷ ("BTC", "0x4") ∷ []
