-- ===== src/Scheduler/Fixtures.antt =====
-- A concrete store and world to run server/src/engine/scheduler.ts on.
use hyper_solid.Prelude.{ℕ, ◌+◌, String, Bool, true, false, none, some, [], ◌∷◌}
use hyper_solid.Number.{Cents, pos, cents_number}
use hyper_solid.Strategies.Types.{
  buy, sell, StrategyStatus, running, canceling, StrategyParams, Strategy, DcaParams,
  GridLimitParams, TwapParams, ScheduledParams, ConditionalParams, completed, above,
}
use hyper_solid.Strategies.Store.{Store}
use hyper_solid.Strategies.Rules.{RiskLimits}
use hyper_solid.Scheduler.Context.{ok, Context, resting, MarkDeps}
use hyper_solid.Scheduler.Session.{Session}

abbrev pub limits : RiskLimits Cents
limits = record {
  max_notional_usdc = pos 1000;
  per_coin_max_notional_usdc = none;
  daily_max_notional_usdc = none;
  max_open_orders = some (pos 50);
}

-- Every order fills at 5, the mark is 100 everywhere, the position is 3, and one order rests.
abbrev pub context : Bool → Context Cents ℕ
context killed = record {
  place = λ req w. (
    ok (record { ok = true; filled_usdc = none; filled_sz = some (pos 1); avg_px = some (pos 5) }),
    w + 1,
  );
  limits = limits;
  kill_switch = killed;
  now = pos 1000;
  activity = some (record { notional_since = none });
  marks = some (record {
    resolve_mark = λ coin w. (ok (pos 100), w);
    resolve_position = λ owner coin w. (ok (some (pos 3)), w);
  });
  resting_exec = some (record {
    place_limit = λ req w. (ok (resting 7), w + 1);
    cancel_many = λ req w. (ok true, w + 1);
  });
  open_orders = some λ owner w. (
    ok (record {
      by_cloid = ("0xg:r", record { oid = 1; coin = "BTC"; side = buy; px = pos 90 }) ∷ [];
      total = 1;
    }),
    w,
  );
  fills_by_cloid = none;
  digest = λ text. text;
}

abbrev pub strategy_of : String → StrategyStatus → StrategyParams Cents → Strategy Cents
strategy_of id status params = record {
  id = id;
  owner = "0xA";
  status = status;
  created_at = pos 0;
  params = params;
  next_run_at = some (pos 900);
  filled_total_usdc = some (pos 0);
  slices_done = none;
  triggered_at = none;
  last_level = none;
  actions_done = none;
  trail_peak = none;
}

abbrev pub dca_params : DcaParams Cents
dca_params = record {
  coin = "BTC";
  side = buy;
  quote_amount_usdc = pos 25;
  interval_hours = pos 1;
  max_total_usdc = none;
  dead_man = false;
}

abbrev pub grid_limit_params : GridLimitParams Cents
grid_limit_params = record {
  coin = "BTC";
  lower_price = pos 90;
  upper_price = pos 110;
  levels = 3;
  per_level_usdc = pos 180;
  mode = none;
  dead_man = false;
}

abbrev pub dca_strategy : Strategy Cents
dca_strategy = strategy_of "d" running (StrategyParams.dca dca_params)

abbrev pub twap_params : TwapParams Cents
twap_params = record {
  coin = "ETH";
  side = sell;
  total_usdc = pos 80;
  slices = 4;
  duration_hours = pos 20;
  dead_man = false;
}

abbrev pub scheduled_params : ScheduledParams Cents
scheduled_params = record {
  coin = "BTC";
  side = buy;
  size_usdc = pos 30;
  run_at = pos 950;
  dead_man = false;
}

abbrev pub conditional_params : ConditionalParams Cents
conditional_params = record {
  coin = "BTC";
  side = buy;
  size_usdc = pos 30;
  trigger_price = pos 90;
  trigger_direction = above;
  dead_man = false;
}

abbrev pub twap_strategy : Strategy Cents
twap_strategy = strategy_of "t" running (StrategyParams.twap twap_params)

abbrev pub scheduled_strategy : Strategy Cents
scheduled_strategy = strategy_of "s" running (StrategyParams.scheduled scheduled_params)

abbrev pub conditional_strategy : Strategy Cents
conditional_strategy = strategy_of "c" running (StrategyParams.conditional conditional_params)

abbrev pub done_strategy : Strategy Cents
done_strategy = strategy_of "x" completed (StrategyParams.scheduled scheduled_params)

abbrev pub store : Store Cents
store = record {
  by_id =
      ("d", dca_strategy)
      ∷ ("g", strategy_of "g" running (StrategyParams.grid_limit grid_limit_params))
      ∷ ("h", strategy_of "h" canceling (StrategyParams.grid_limit grid_limit_params))
      ∷ [];
  rungs = [];
}

abbrev pub session : Session Cents ℕ
session = record {
  store = store;
  activity = [];
  sent = [];
  open_by_owner = [];
  fills_by_owner = [];
  cancels_by_owner = [];
  world = 0;
}

abbrev pub entries : Session Cents ℕ
entries = record {
  store = record {
    by_id =
        ("t", twap_strategy)
        ∷ ("s", scheduled_strategy)
        ∷ ("c", conditional_strategy)
        ∷ ("x", done_strategy)
        ∷ [];
    rungs = [];
  };
  activity = [];
  sent = [];
  open_by_owner = [];
  fills_by_owner = [];
  cancels_by_owner = [];
  world = 0;
}

abbrev pub marks : MarkDeps Cents ℕ
marks = record {
  resolve_mark = λ coin w. (ok (pos 100), w);
  resolve_position = λ owner coin w. (ok (some (pos 3)), w);
}
