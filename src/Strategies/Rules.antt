-- ===== src/Strategies/Rules.antt =====
-- The pure rules of each kind of strategy: server/src/strategies/dca.ts, twap.ts, tpsl.ts, trailing.ts,
-- conditional.ts, scheduled.ts and grid.ts, and the per-order gate of server/src/risk/guards.ts.
use hyper_solid.Prelude.{
  ℕ, String, Bool, true, false, not, ◌&&◌, Option, none, some, get_or, List, if◌then◌else◌, ltb,
  lookup, Dict, keep, string_eq,
}
use hyper_solid.Number.{Number}
use hyper_solid.Strategies.Types.{
  Side, buy, sell, above, below, StrategyStatus, running, StrategyParams, Strategy, DcaParams,
  TwapParams, TpslParams, TrailingParams, ConditionalParams, ScheduledParams, GridParams,
}

abbrev pub is_running : StrategyStatus → Bool
is_running running = true
is_running _ = false

module _ {N : Type 0} ⦃num : Number N⦄ where
  open num use {of_ℕ, add, sub, mul, div, lt, le, round, largest, smallest}

  -- A running DCA strategy whose next run is due, below its optional cap on the total.
  unfoldable pub is_due_dca : N → Strategy N → Bool
  is_due_dca now s = elim s.params [
    | StrategyParams.dca p ↦
        is_running s.status && le (get_or s.next_run_at (of_ℕ 0)) now && elim p.max_total_usdc [
          | none ↦ true
          | some cap ↦ lt (get_or s.filled_total_usdc (of_ℕ 0)) cap
        ]
    | _ ↦ false
  ]

  unfoldable pub due_dca : List (Strategy N) → N → List (Strategy N)
  unfolding is_due_dca
  due_dca list now = keep (is_due_dca now) list

  unfoldable pub dca_next_run_at : DcaParams N → N → N
  dca_next_run_at p now = add now (mul (mul p.interval_hours (of_ℕ 3600)) (of_ℕ 1000))

  unfoldable pub dca_order_size : N → N → N
  dca_order_size quote_usdc price = if lt (of_ℕ 0) price then div quote_usdc price else of_ℕ 0

  -- A running TWAP strategy whose next slice is due and that has slices left.
  unfoldable pub is_due_twap : N → Strategy N → Bool
  is_due_twap now s = elim s.params [
    | StrategyParams.twap p ↦
        is_running s.status
        && le (get_or s.next_run_at (of_ℕ 0)) now
        && ltb (get_or s.slices_done 0) p.slices
    | _ ↦ false
  ]

  unfoldable pub due_twap : List (Strategy N) → N → List (Strategy N)
  unfolding is_due_twap
  due_twap list now = keep (is_due_twap now) list

  unfoldable pub twap_slice_usdc : TwapParams N → N
  twap_slice_usdc p = if ltb 0 p.slices then div p.total_usdc (of_ℕ p.slices) else of_ℕ 0

  unfoldable pub twap_interval_ms : TwapParams N → N
  twap_interval_ms p =
      if ltb 0 p.slices
      then div (mul (mul p.duration_hours (of_ℕ 3600)) (of_ℕ 1000)) (of_ℕ p.slices)
      else of_ℕ 0

  -- `p !== undefined && test(p)`
  abbrev given : Option N → (N → Bool) → Bool
  given none test = false
  given (some x) test = test x

  -- The mark has crossed a configured price, for a position of the sign of `szi`.
  unfoldable pub tpsl_triggered : TpslParams N → N → N → Bool
  tpsl_triggered p szi mark =
      if lt (of_ℕ 0) szi
      then (if given p.take_profit_price (λ tp. le tp mark)
          then true
          else given p.stop_loss_price (λ sl. le mark sl))
      else if lt szi (of_ℕ 0)
      then (if given p.take_profit_price (λ tp. le mark tp)
          then true
          else given p.stop_loss_price (λ sl. le sl mark))
      else false

  unfoldable pub close_side : N → Side
  close_side szi = if lt (of_ℕ 0) szi then sell else buy

  -- The favourable extreme: the running maximum for a long, the running minimum for a short.
  unfoldable pub update_trail_peak : N → N → Option N → N
  update_trail_peak szi mark none = mark
  update_trail_peak szi mark (some prev) =
      if lt (of_ℕ 0) szi then largest prev mark else smallest prev mark

  unfoldable pub trailing_triggered : TrailingParams N → N → N → N → Bool
  trailing_triggered p szi mark peak =
      let r = div p.trail_pct (of_ℕ 100) in
      if lt (of_ℕ 0) szi
      then le mark (mul peak (sub (of_ℕ 1) r))
      else if lt szi (of_ℕ 0)
      then le (mul peak (add (of_ℕ 1) r)) mark
      else false

  unfoldable pub conditional_triggered : ConditionalParams N → N → Bool
  conditional_triggered p mark = elim p.trigger_direction [
    | above ↦ le p.trigger_price mark
    | below ↦ le mark p.trigger_price
  ]

  unfoldable pub scheduled_due : ScheduledParams N → N → Bool
  scheduled_due p now = le p.run_at now

  -- `levels - 1` is a number of the source: it is -1 for no level.
  unfoldable pub grid_step : GridParams N → N
  grid_step p =
      if ltb 1 p.levels
      then div (sub p.upper_price p.lower_price) (sub (of_ℕ p.levels) (of_ℕ 1))
      else of_ℕ 0

  -- The grid line nearest to the mark, held to the ends.
  unfoldable pub band_index : N → N → N → ℕ → N
  band_index mark lower_price step levels =
      if not (lt (of_ℕ 0) step)
      then of_ℕ 0
      else largest (of_ℕ 0)
          (smallest (sub (of_ℕ levels) (of_ℕ 1)) (round (div (sub mark lower_price) step)))

module _ (N : Type 0) where
  pub record GridAction : Type 0 where
    pub side : Side
    pub usdc : N
    pub target_level : N

  pub record RiskInput : Type 0 where
    pub notional_usdc : N
    pub kill_switch : Bool
    pub coin : Option String

  pub record RiskLimits : Type 0 where
    pub max_notional_usdc : N
    pub per_coin_max_notional_usdc : Option (Dict String N)
    pub daily_max_notional_usdc : Option N
    pub max_open_orders : Option N

pub record RiskVerdict : Type 0 where
  pub ok : Bool
  pub reason : Option String

module _ {N : Type 0} ⦃num : Number N⦄ where
  open num use {of_ℕ, sub, mul, div, lt}

  -- A move down buys the crossed distance and a move up sells it.
  unfoldable pub grid_action : N → N → N → Option (GridAction N)
  grid_action last_level cur_band per_level_usdc =
      if lt cur_band last_level
      then some (record {
        side = buy;
        usdc = mul (sub last_level cur_band) per_level_usdc;
        target_level = cur_band;
      })
      else if lt last_level cur_band
      then some (record {
        side = sell;
        usdc = mul (sub cur_band last_level) per_level_usdc;
        target_level = cur_band;
      })
      else none

  unfoldable pub target_net_usdc : N → ℕ → N → N
  target_net_usdc band levels per_level_usdc =
      mul (sub (div (sub (of_ℕ levels) (of_ℕ 1)) (of_ℕ 2)) band) per_level_usdc

  -- The cap of the coin where it has one, else the cap of all orders.
  abbrev pub cap_of : Option String → RiskLimits N → N
  cap_of none limits = limits.max_notional_usdc
  cap_of (some coin) limits = elim limits.per_coin_max_notional_usdc [
    | none ↦ limits.max_notional_usdc
    | some caps ↦ get_or (lookup coin caps) limits.max_notional_usdc
  ]

  unfoldable pub within_caps : RiskInput N → RiskLimits N → RiskVerdict
  within_caps input limits =
      if input.kill_switch
      then record { ok = false; reason = some "kill-switch active" }
      else if lt (cap_of input.coin limits) input.notional_usdc
      then record { ok = false; reason = some "over notional cap" }
      else record { ok = true; reason = none }
