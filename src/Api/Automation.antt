-- ===== src/Api/Automation.antt =====
-- server/src/http/app.ts: the routes on strategies, their fills and their rungs, and the kill switch.
use hyper_solid.Prelude.{
  ℕ, String, Bool, true, false, not, Option, none, some, get_or, List, [], ◌∷◌, map, keep, min,
  length, range_from, Dict, lookup, string_eq, nat_eq, ◌==◌, leb, if◌then◌else◌,
}
use hyper_solid.Number.{Number}
use hyper_solid.Strategies.Types.{
  StrategyStatus, running, paused, canceling, StrategyKind, StrategyParams, Strategy,
  GridLimitParams, kind_of,
}
use hyper_solid.Strategies.GridLimit.{
  RungPhase, idle, armed, holding, rung_count, rung_buy_price, rung_sell_price,
}
use hyper_solid.Strategies.Values.{
  Value, Checked, accepted, refused, need, field, coin_of, dead_man_of,
}
use hyper_solid.Strategies.Validate.{validate_params}
use hyper_solid.Strategies.Store
use hyper_solid.Strategies.Store.{Store}
use hyper_solid.Strategies.Activity.{Activity, list_activity}
use hyper_solid.Strategies.Activity
use hyper_solid.Api.Types.{App, AppDeps, Draws, Reply, Body, StrategyDto, RungDto}
use hyper_solid.Api.Account.{reply, fail, done}

abbrev pub is_armed : RungPhase → Bool
is_armed armed = true
is_armed _ = false

abbrev pub is_holding : RungPhase → Bool
is_holding holding = true
is_holding _ = false

abbrev pub is_status_running : StrategyStatus → Bool
is_status_running running = true
is_status_running _ = false

abbrev pub is_status_canceling : StrategyStatus → Bool
is_status_canceling canceling = true
is_status_canceling _ = false

abbrev pub kind_named : String → Option StrategyKind
kind_named name =
    if name == "dca"
    then some StrategyKind.dca
    else if name == "twap"
    then some StrategyKind.twap
    else if name == "tpsl"
    then some StrategyKind.tpsl
    else if name == "grid"
    then some StrategyKind.grid
    else if name == "gridLimit"
    then some StrategyKind.grid_limit
    else if name == "trailing"
    then some StrategyKind.trailing
    else if name == "conditional"
    then some StrategyKind.conditional
    else if name == "scheduled"
    then some StrategyKind.scheduled
    else none

-- `Number.isFinite(raw) && raw >= 1 ? Math.min(200, Math.floor(raw)) : 50`
abbrev pub limit_of : Option ℕ → ℕ
limit_of none = 50
limit_of (some n) = if leb 1 n then min 200 n else 50

module _ {N : Type 0} where
  unfoldable pub to_dto : Strategy N → Store N → StrategyDto N
  to_dto s st =
      let dto : StrategyDto N = record {
        id = s.id;
        kind = kind_of s.params;
        status = s.status;
        params = s.params;
        filled_total_usdc = s.filled_total_usdc;
        next_run_at = s.next_run_at;
        slices_done = s.slices_done;
        triggered_at = s.triggered_at;
        last_level = s.last_level;
        armed_count = none;
        holding_count = none;
      } in
      elim s.params [
        | StrategyParams.grid_limit _ ↦
            let rungs = Store.grid_limit_rungs s.id st in
            record dto {
              armed_count = some (length (keep (λ r. is_armed r.state) rungs));
              holding_count = some (length (keep (λ r. is_holding r.state) rungs));
            }
        | _ ↦ dto
      ]

  -- `toDto(store.get(id)!, store)`
  abbrev pub dto_reply : String → App N → Reply N
  dto_reply id app = elim (Store.find id app.store) [
    | none ↦ fail 500 "Internal Server Error"
    | some s ↦ reply 200 (Body.strategy (to_dto s app.store))
  ]

  unfoldable pub list_strategies : AppDeps N → String → App N → Reply N × App N
  list_strategies deps owner app =
      let own = Store.list_of deps.lower owner app.store in
      (reply 200 (Body.strategies (map (λ s. to_dto s app.store) own)), app)

  -- A strategy that is not there, or that is another owner's, is not found.
  abbrev pub if_owned :
      AppDeps N
      → String
      → App N
      → (Strategy N → Reply N × App N)
      → Option (Strategy N)
      → Reply N × App N
  if_owned deps owner app k none = (fail 404 "not found", app)
  if_owned deps owner app k (some s) =
      if deps.lower s.owner == deps.lower owner then k s else (fail 404 "not found", app)

  -- `ownedStrategy`
  abbrev pub with_owned :
      AppDeps N → String → String → App N → (Strategy N → Reply N × App N) → Reply N × App N
  with_owned deps owner id app k = if_owned deps owner app k (Store.find id app.store)

  unfoldable pub patch_strategy :
      AppDeps N → String → String → StrategyStatus → App N → Reply N × App N
  patch_strategy deps owner id status app = with_owned deps owner id app λ s.
      if is_status_canceling s.status
      then (fail 409 "strategy is canceling", app)
      else let app' = record app { store = Store.set_status id status app.store } in
        (dto_reply id app', app')

  -- A grid of resting orders is marked, for the scheduler to drain it; another strategy is removed.
  abbrev pub delete_owned : String → Strategy N → StrategyParams N → Store N → Store N
  delete_owned id s (StrategyParams.grid_limit _) st =
      if not (is_status_canceling s.status) then Store.set_status id canceling st else st
  delete_owned id s _ st = Store.remove id st

  unfoldable pub delete_strategy : AppDeps N → String → String → App N → Reply N × App N
  delete_strategy deps owner id app =
      with_owned deps owner id app
        λ s. (done, record app { store = delete_owned id s s.params app.store })

  -- `for (const s of store.list(owner)) if (s.status === "running") store.setStatus(s.id, "paused")`
  abbrev pub pause_all : List (Strategy N) → Store N → Store N
  pause_all [] st = st
  pause_all (s ∷ ss) st =
      pause_all ss (if is_status_running s.status then Store.set_status s.id paused st else st)

  unfoldable pub kill_switch : AppDeps N → String → App N → Reply N × App N
  kill_switch deps owner app =
      let own = Store.list_of deps.lower owner app.store in
      (done, record app { store = pause_all own app.store })

module _ {N : Type 0} ⦃num : Number N⦄ where
  -- `validateParams` of a kind that it does not know
  abbrev pub validate_named : String → Dict String (Value N) → Checked (StrategyParams N)
  validate_named name p = elim (kind_named name) [
    | some kind ↦ validate_params kind p
    | none ↦ need (coin_of (field "coin" p)) "coin required" λ coin.
        need (dead_man_of (field "deadMan" p)) "deadMan must be a boolean"
          λ dead_man. refused "unknown strategy kind"
  ]

  abbrev pub create_checked :
      AppDeps N → Draws N → String → Checked (StrategyParams N) → App N → Reply N × App N
  create_checked deps draws owner (refused error) app = (fail 400 error, app)
  create_checked deps draws owner (accepted params) app =
      let (st, s) = Store.create draws.id owner params draws.now app.store in
      (reply 200 (Body.strategy (to_dto s st)), record app { store = st })

  -- The body is none where it is no object; its params may be left out.
  unfoldable pub create_strategy :
      AppDeps N
      → Draws N
      → String
      → Option (String × Option (Dict String (Value N)))
      → App N
      → Reply N × App N
  create_strategy deps draws owner none app = (fail 400 "invalid strategy body", app)
  create_strategy deps draws owner (some (name, params)) app =
      create_checked deps draws owner (validate_named name (get_or params [])) app

  -- `activity?.list(...) ?? []`
  abbrev pub from_log :
      Option (List (Activity N)) → (List (Activity N) → List (Activity N)) → List (Activity N)
  from_log none f = []
  from_log (some rows) f = f rows

  unfoldable pub strategy_activity : AppDeps N → String → String → App N → Reply N × App N
  strategy_activity deps owner id app = with_owned deps owner id app λ s.
      (reply 200 (Body.activity (from_log app.activity (list_activity deps.lower owner id))), app)

  unfoldable pub rung_dtos : GridLimitParams N → Dict ℕ RungPhase → List ℕ → List (RungDto N)
  rung_dtos p states [] = []
  rung_dtos p states (i ∷ is) =
      record {
        rung = i;
        state = get_or (lookup i states) idle;
        buy_price = rung_buy_price p i;
        sell_price = rung_sell_price p i;
      }
      ∷ rung_dtos p states is

  abbrev pub rungs_body : String → StrategyParams N → Store N → List (RungDto N)
  rungs_body id (StrategyParams.grid_limit p) st =
      rung_dtos p (map (λ r. (r.rung, r.state)) (Store.grid_limit_rungs id st))
        (range_from 0 (rung_count p))
  rungs_body id _ st = []

  unfoldable pub strategy_rungs : AppDeps N → String → String → App N → Reply N × App N
  strategy_rungs deps owner id app =
      with_owned deps owner id app
        λ s. (reply 200 (Body.rungs (rungs_body id s.params app.store)), app)

  unfoldable pub recent_activity : AppDeps N → String → Option ℕ → App N → Reply N × App N
  recent_activity deps owner limit app =
      let rows = from_log app.activity (Activity.list_recent deps.lower owner (limit_of limit)) in
      (reply 200 (Body.activity rows), app)
