-- ===== src/Strategies/Json.antt =====
-- The parameters of a strategy as the JSON that a client sends for server/src/strategies/validate.ts.
use hyper_solid.Prelude.{
  String, Bool, true, Option, none, some, Dict, [], ◌∷◌, ◌++◌, is_some, string_eq,
}
use hyper_solid.Strategies.Types.{
  Side, buy, sell, Mode, long_only, symmetric, Direction, above, below, StrategyParams,
}
use hyper_solid.Strategies.Values.{Value, text, flag, whole, positive_integer}

abbrev pub coin_in : {N : Type 0} → StrategyParams N → String
coin_in (StrategyParams.dca p) = p.coin
coin_in (StrategyParams.twap p) = p.coin
coin_in (StrategyParams.tpsl p) = p.coin
coin_in (StrategyParams.grid p) = p.coin
coin_in (StrategyParams.grid_limit p) = p.coin
coin_in (StrategyParams.trailing p) = p.coin
coin_in (StrategyParams.conditional p) = p.coin
coin_in (StrategyParams.scheduled p) = p.coin

abbrev pub dead_man_in : {N : Type 0} → StrategyParams N → Bool
dead_man_in (StrategyParams.dca p) = p.dead_man
dead_man_in (StrategyParams.twap p) = p.dead_man
dead_man_in (StrategyParams.tpsl p) = p.dead_man
dead_man_in (StrategyParams.grid p) = p.dead_man
dead_man_in (StrategyParams.grid_limit p) = p.dead_man
dead_man_in (StrategyParams.trailing p) = p.dead_man
dead_man_in (StrategyParams.conditional p) = p.dead_man
dead_man_in (StrategyParams.scheduled p) = p.dead_man

abbrev pub side_text : Side → String
side_text buy = "buy"
side_text sell = "sell"

abbrev pub mode_text : Mode → String
mode_text long_only = "longOnly"
mode_text symmetric = "symmetric"

abbrev pub direction_text : Direction → String
direction_text above = "above"
direction_text below = "below"

-- `as_value` is the JSON of a number.
module _ {N : Type 0} (as_value : N → Value N) where
  abbrev pub given : String → Option N → Dict String (Value N)
  given name none = []
  given name (some x) = (name, as_value x) ∷ []

  abbrev pub given_mode : Option Mode → Dict String (Value N)
  given_mode none = []
  given_mode (some mode) = ("mode", text (mode_text mode)) ∷ []

  abbrev pub fields_of : StrategyParams N → Dict String (Value N)
  fields_of (StrategyParams.dca p) =
      ("coin", text p.coin)
      ∷ ("deadMan", flag p.dead_man)
      ∷ ("side", text (side_text p.side))
      ∷ ("quoteAmountUsdc", as_value p.quote_amount_usdc)
      ∷ ("intervalHours", as_value p.interval_hours)
      ∷ given "maxTotalUsdc" p.max_total_usdc
  fields_of (StrategyParams.twap p) =
      ("coin", text p.coin)
      ∷ ("deadMan", flag p.dead_man)
      ∷ ("side", text (side_text p.side))
      ∷ ("totalUsdc", as_value p.total_usdc)
      ∷ ("slices", whole p.slices)
      ∷ ("durationHours", as_value p.duration_hours)
      ∷ []
  fields_of (StrategyParams.tpsl p) =
      ("coin", text p.coin)
      ∷ ("deadMan", flag p.dead_man)
      ∷ (given "takeProfitPrice" p.take_profit_price ++ given "stopLossPrice" p.stop_loss_price)
  fields_of (StrategyParams.grid p) =
      ("coin", text p.coin)
      ∷ ("deadMan", flag p.dead_man)
      ∷ ("lowerPrice", as_value p.lower_price)
      ∷ ("upperPrice", as_value p.upper_price)
      ∷ ("levels", whole p.levels)
      ∷ ("perLevelUsdc", as_value p.per_level_usdc)
      ∷ given_mode p.mode
  fields_of (StrategyParams.grid_limit p) =
      ("coin", text p.coin)
      ∷ ("deadMan", flag p.dead_man)
      ∷ ("lowerPrice", as_value p.lower_price)
      ∷ ("upperPrice", as_value p.upper_price)
      ∷ ("levels", whole p.levels)
      ∷ ("perLevelUsdc", as_value p.per_level_usdc)
      ∷ given_mode p.mode
  fields_of (StrategyParams.trailing p) =
      ("coin", text p.coin) ∷ ("deadMan", flag p.dead_man) ∷ ("trailPct", as_value p.trail_pct) ∷ []
  fields_of (StrategyParams.conditional p) =
      ("coin", text p.coin)
      ∷ ("deadMan", flag p.dead_man)
      ∷ ("side", text (side_text p.side))
      ∷ ("sizeUsdc", as_value p.size_usdc)
      ∷ ("triggerPrice", as_value p.trigger_price)
      ∷ ("triggerDirection", text (direction_text p.trigger_direction))
      ∷ []
  fields_of (StrategyParams.scheduled p) =
      ("coin", text p.coin)
      ∷ ("deadMan", flag p.dead_man)
      ∷ ("side", text (side_text p.side))
      ∷ ("sizeUsdc", as_value p.size_usdc)
      ∷ ("runAt", as_value p.run_at)
      ∷ []

  -- The time of a scheduled order is a positive whole number.
  abbrev pub is_timed : StrategyParams N → Bool
  is_timed (StrategyParams.scheduled p) = is_some (positive_integer (as_value p.run_at))
  is_timed _ = true
