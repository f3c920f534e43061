-- ===== src/Strategies/Validate.antt =====
-- server/src/strategies/validate.ts: the parameters of a new strategy, from the JSON of a request.
use hyper_solid.Prelude.{ℕ, String, Bool, not, ◌||◌, none, some, Dict, string_eq, ltb}
use hyper_solid.Number.{Number}
use hyper_solid.Strategies.Types.{
  buy, Mode, StrategyKind, dca, twap, tpsl, grid, grid_limit, trailing, conditional, scheduled,
  StrategyParams,
}
use hyper_solid.Strategies.Values.{
  Value, Checked, accepted, need, require, field, coin_of, dead_man_of, side_of, direction_of,
  mode_of, positive_integer, is_absent, positive_number, positive_if_given,
}

module _ {N : Type 0} ⦃num : Number N⦄ where
  open num use {of_ℕ, le}

  unfoldable pub check_dca : Dict String (Value N) → String → Bool → Checked (StrategyParams N)
  check_dca p coin dead_man =
      need (elim (side_of (field "side" p)) [ some buy ↦ some buy | _ ↦ none ])
        "dca side must be buy"
        λ side.
          need (positive_number (field "quoteAmountUsdc" p)) "quoteAmountUsdc must be > 0" λ quote.
            need (positive_number (field "intervalHours" p)) "intervalHours must be > 0" λ interval.
              need (positive_if_given (field "maxTotalUsdc" p)) "maxTotalUsdc must be > 0" λ most.
                accepted (
                  StrategyParams.dca (record {
                    coin = coin;
                    side = side;
                    quote_amount_usdc = quote;
                    interval_hours = interval;
                    max_total_usdc = most;
                    dead_man = dead_man;
                  }))

  unfoldable pub check_twap : Dict String (Value N) → String → Bool → Checked (StrategyParams N)
  check_twap p coin dead_man =
      need (side_of (field "side" p)) "twap side must be buy or sell" λ side.
        need (positive_number (field "totalUsdc" p)) "totalUsdc must be > 0" λ total.
          need (positive_integer (field "slices" p)) "slices must be a positive integer" λ slices.
            need (positive_number (field "durationHours" p)) "durationHours must be > 0" λ hours.
              accepted (
                StrategyParams.twap (record {
                  coin = coin;
                  side = side;
                  total_usdc = total;
                  slices = slices;
                  duration_hours = hours;
                  dead_man = dead_man;
                }))

  unfoldable pub check_tpsl : Dict String (Value N) → String → Bool → Checked (StrategyParams N)
  check_tpsl p coin dead_man =
      require
        (not (is_absent (field "takeProfitPrice" p)) || not (is_absent (field "stopLossPrice" p)))
        "takeProfitPrice or stopLossPrice required"
        (need (positive_if_given (field "takeProfitPrice" p)) "takeProfitPrice must be > 0" λ tp.
          need (positive_if_given (field "stopLossPrice" p)) "stopLossPrice must be > 0" λ sl.
            accepted (
              StrategyParams.tpsl (record {
                coin = coin;
                take_profit_price = tp;
                stop_loss_price = sl;
                dead_man = dead_man;
              })))

  -- What `grid` and `gridLimit` check alike: the bounds, the lines, the size of a level and the mode.
  unfoldable pub check_levels :
      Dict String (Value N) → (N → N → ℕ → N → Mode → StrategyParams N) → Checked (StrategyParams N)
  check_levels p build =
      need (positive_number (field "lowerPrice" p)) "lowerPrice must be > 0" λ lower.
        need (positive_number (field "upperPrice" p)) "upperPrice must be > lowerPrice" λ upper.
          require (not (le upper lower)) "upperPrice must be > lowerPrice" (
            need (positive_integer (field "levels" p)) "levels must be an integer >= 2" λ levels.
              require (not (ltb levels 2)) "levels must be an integer >= 2" (
                need (positive_number (field "perLevelUsdc" p)) "perLevelUsdc must be > 0" λ each.
                  need (mode_of (field "mode" p)) "mode must be longOnly or symmetric"
                    λ mode. accepted (build lower upper levels each mode)))

  unfoldable pub check_grid : Dict String (Value N) → String → Bool → Checked (StrategyParams N)
  unfolding check_levels
  check_grid p coin dead_man = check_levels p λ lower upper levels each mode.
      StrategyParams.grid (record {
        coin = coin;
        lower_price = lower;
        upper_price = upper;
        levels = levels;
        per_level_usdc = each;
        mode = some mode;
        dead_man = dead_man;
      })

  unfoldable pub check_grid_limit :
      Dict String (Value N) → String → Bool → Checked (StrategyParams N)
  unfolding check_levels
  check_grid_limit p coin dead_man = check_levels p λ lower upper levels each mode.
      StrategyParams.grid_limit (record {
        coin = coin;
        lower_price = lower;
        upper_price = upper;
        levels = levels;
        per_level_usdc = each;
        mode = some mode;
        dead_man = dead_man;
      })

  unfoldable pub check_trailing : Dict String (Value N) → String → Bool → Checked (StrategyParams N)
  check_trailing p coin dead_man =
      need (positive_number (field "trailPct" p)) "trailPct must be between 0 and 100" λ pct.
        require (not (le (of_ℕ 100) pct)) "trailPct must be between 0 and 100" (
          accepted (
            StrategyParams.trailing (record { coin = coin; trail_pct = pct; dead_man = dead_man })))

  unfoldable pub check_conditional :
      Dict String (Value N) → String → Bool → Checked (StrategyParams N)
  check_conditional p coin dead_man =
      need (side_of (field "side" p)) "conditional side must be buy or sell" λ side.
        need (positive_number (field "sizeUsdc" p)) "sizeUsdc must be > 0" λ size.
          need (positive_number (field "triggerPrice" p)) "triggerPrice must be > 0" λ price.
            need (direction_of (field "triggerDirection" p))
              "triggerDirection must be above or below"
              λ direction. accepted (
                StrategyParams.conditional (record {
                  coin = coin;
                  side = side;
                  size_usdc = size;
                  trigger_price = price;
                  trigger_direction = direction;
                  dead_man = dead_man;
                }))

  unfoldable pub check_scheduled :
      Dict String (Value N) → String → Bool → Checked (StrategyParams N)
  check_scheduled p coin dead_man =
      need (side_of (field "side" p)) "scheduled side must be buy or sell" λ side.
        need (positive_number (field "sizeUsdc" p)) "sizeUsdc must be > 0" λ size.
          need (positive_integer (field "runAt" p)) "runAt must be a positive epoch-ms timestamp"
            λ run_at. accepted (
              StrategyParams.scheduled (record {
                coin = coin;
                side = side;
                size_usdc = size;
                run_at = of_ℕ run_at;
                dead_man = dead_man;
              }))

  unfoldable pub check_kind :
      StrategyKind → Dict String (Value N) → String → Bool → Checked (StrategyParams N)
  unfolding check_dca check_twap check_tpsl check_grid check_grid_limit check_trailing
      check_conditional check_scheduled
  check_kind dca = check_dca
  check_kind twap = check_twap
  check_kind tpsl = check_tpsl
  check_kind grid = check_grid
  check_kind grid_limit = check_grid_limit
  check_kind trailing = check_trailing
  check_kind conditional = check_conditional
  check_kind scheduled = check_scheduled

  unfoldable pub validate_params : StrategyKind → Dict String (Value N) → Checked (StrategyParams N)
  unfolding check_kind
  validate_params kind p = need (coin_of (field "coin" p)) "coin required" λ coin.
      need (dead_man_of (field "deadMan" p)) "deadMan must be a boolean"
        λ dead_man. check_kind kind p coin dead_man
