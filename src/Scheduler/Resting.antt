-- ===== src/Scheduler/Resting.antt =====
-- The resting-grid pass of `tick`: one step on each rung of a strategy that runs.
use hyper_solid.Prelude.{
  ℕ, String, Bool, true, false, not, ◌&&◌, ◌||◌, Option, none, some, get_or, List, [], ◌∷◌,
  if◌then◌else◌, is_some, range_from, Dict, lookup, nat_eq, string_eq,
}
use hyper_solid.Number.{Number}
use hyper_solid.Strategies.Types.{Side, buy, sell, StrategyParams, Strategy, GridLimitParams}
use hyper_solid.Strategies.Rules.{is_running}
use hyper_solid.Strategies.GridLimit.{
  RungPhase, armed, holding, RungState, rung_count, rung_buy_price, rung_sell_price, rung_size_coin,
  rung_short_size_coin, armable, armable_short, rung_is_short,
}
use hyper_solid.Strategies.Store.{add_filled_usdc}
use hyper_solid.Scheduler.Context.{
  Context, Effect, MarkDeps, OpenOrders, CloidFill, RestingExecutor,
}
use hyper_solid.Scheduler.Session.{
  Action, ◌>>=◌, ◌>>◌, skip, gets, on_store, when, unless, reading, for_each, record_activity,
  cancel_many,
}
use hyper_solid.Scheduler.Entries.{bad_mark}
use hyper_solid.Scheduler.Grid.{is_symmetric, is_buy}
use hyper_solid.Scheduler.Rungs.{
  idle_rung, is_open, get_open, get_fills, Desk, set_rung, place_sell, place_buy, place_tp_buy,
  place_short_entry,
}
use hyper_solid.Scheduler.Drain.{stored_rungs, rung_at, drain}

abbrev pub is_holding : RungPhase → Bool
is_holding holding = true
is_holding _ = false

abbrev pub is_armed : RungPhase → Bool
is_armed armed = true
is_armed _ = false

module _ {N : Type 0} where
  -- `r.cloid && open.has(r.cloid)`
  abbrev pub rests : Option String → OpenOrders N → Bool
  rests none orders = false
  rests (some cloid) orders = is_open cloid orders

  -- `r.cloid && !open.has(r.cloid)`
  abbrev pub vanished : Option String → OpenOrders N → Bool
  vanished none orders = false
  vanished (some cloid) orders = not (is_open cloid orders)

  abbrev pub fill_of : Option String → Dict String (CloidFill N) → Option (CloidFill N)
  fill_of none fills = none
  fill_of (some cloid) fills = lookup cloid fills

module _ {N : Type 0} ⦃num : Number N⦄ where
  open num use {of_ℕ, sub, mul, largest}

  -- `fill?.px ?? r.px ?? rungBuyPrice(p, i)`
  abbrev pub fill_px : Option (CloidFill N) → RungState N → GridLimitParams N → ℕ → N
  fill_px (some fill) r p i = fill.px
  fill_px none r p i = get_or r.px (rung_buy_price p i)

  -- `fill?.sz ?? ...`: the size that the direction was opened with
  abbrev pub fill_sz : Option (CloidFill N) → Bool → GridLimitParams N → ℕ → N
  fill_sz (some fill) is_short p i = fill.sz
  fill_sz none is_short p i = if is_short then rung_short_size_coin p i else rung_size_coin p i

  abbrev pub closed_pnl : Option (CloidFill N) → N → GridLimitParams N → ℕ → N
  closed_pnl (some fill) sz p i = fill.closed_pnl
  closed_pnl none sz p i =
      largest (of_ℕ 0) (mul (sub (rung_sell_price p i) (rung_buy_price p i)) sz)

module _ {N W : Type 0} ⦃num : Number N⦄ where
  -- The end of a step: a free rung is armed, a failed profit order retried, the rest left alone.
  unfoldable pub arm : Context N W → Desk N W → N → ℕ → RungState N → Action N W (Unit {0})
  unfolding place_sell place_tp_buy place_buy place_short_entry
  arm cx d mark i r =
      if is_holding r.state
      then unless (is_some r.cloid)
          (if is_buy (get_or r.side sell) then place_tp_buy cx d i r else place_sell cx d i r)
      else unless (is_armed r.state && rests r.cloid d.orders) (
          if is_symmetric d.params.mode && rung_is_short d.params i mark
          then when (armable_short d.params i mark) (place_short_entry cx d i r)
          else when (armable d.params i mark) (place_buy cx d i r))

  abbrev pub log_fill : Context N W → Desk N W → Side → N → N → Action N W (Unit {0})
  log_fill cx d side sz px = record_activity cx (record {
    strategy_id = d.strategy.id;
    owner = d.strategy.owner;
    time = cx.now;
    coin = d.params.coin;
    side = side;
    sz = sz;
    px = px;
  })

  -- An entry that filled: log it and rest the order that takes its profit.
  unfoldable pub entry_filled :
      Context N W → Desk N W → ℕ → RungState N → Option (CloidFill N) → Action N W (Unit {0})
  unfolding place_sell place_tp_buy record_activity
  entry_filled cx d i r fill = do
    let side = get_or r.side buy
    log_fill cx d side (fill_sz fill (not (is_buy side)) d.params i) (fill_px fill r d.params i)
    if is_buy side then place_sell cx d i r else place_tp_buy cx d i r

  -- A profit order that filled: log it, add its gain, free the rung and go on to arm it.
  unfoldable pub exit_filled :
      Context N W → Desk N W → N → ℕ → RungState N → Option (CloidFill N) → Action N W (Unit {0})
  unfolding arm record_activity
  exit_filled cx d mark i r fill = do
    let side = get_or r.side sell
    let sz = fill_sz fill (is_buy side) d.params i
    log_fill cx d side sz (fill_px fill r d.params i)
    on_store (add_filled_usdc d.strategy.id (closed_pnl fill sz d.params i))
    set_rung d (idle_rung i r.seq)
    arm cx d mark i (idle_rung i r.seq)

  unfoldable pub rung_step :
      Context N W → Desk N W → N → Dict ℕ (RungState N) → ℕ → Action N W (Unit {0})
  unfolding arm entry_filled exit_filled get_fills
  rung_step cx d mark stored i =
      let r = rung_at stored i in
      if (is_armed r.state || is_holding r.state) && vanished r.cloid d.orders
      then (do
        fills ← get_fills cx.fills_by_cloid d.strategy.owner
        let fill = fill_of r.cloid fills
        if is_armed r.state then entry_filled cx d i r fill else exit_filled cx d mark i r fill)
      else arm cx d mark i r

  unfoldable pub reconcile :
      Context N W
      → RestingExecutor N W
      → (String → Effect W (OpenOrders N))
      → MarkDeps N W
      → Strategy N
      → GridLimitParams N
      → Action N W (Unit {0})
  unfolding get_open rung_step for_each
  reconcile cx exec reader marks s p = do
    mark ← reading (marks.resolve_mark p.coin)
    unless (bad_mark mark) do
      orders ← get_open reader s.owner
      stored ← gets (λ y. stored_rungs s y.store)
      let d : Desk N W = record { exec = exec; strategy = s; params = p; orders = orders }
      for_each (range_from 0 (rung_count p)) (rung_step cx d mark stored)

  unfoldable pub grid_limit_at :
      Context N W
      → RestingExecutor N W
      → (String → Effect W (OpenOrders N))
      → MarkDeps N W
      → Strategy N
      → StrategyParams N
      → Action N W (Unit {0})
  unfolding drain reconcile
  grid_limit_at cx exec reader marks s (StrategyParams.grid_limit p) =
      if cx.kill_switch || not (is_running s.status)
      then drain cx reader s p
      else reconcile cx exec reader marks s p
  grid_limit_at cx exec reader marks s _ = skip

  -- `restingExec.cancelMany({ owner, cancels })` for each owner that has some
  unfoldable pub send_cancels :
      RestingExecutor N W → Dict String (List (String × String)) → Action N W (Unit {0})
  unfolding cancel_many
  send_cancels exec [] = skip
  send_cancels exec ((owner, cancels) ∷ rest) = do
    _ ← cancel_many exec (record { owner = owner; cancels = cancels })
    send_cancels exec rest
