-- ===== src/Strategies/Encoded.antt =====
-- What server/src/strategies/validate.ts makes of parameters that make sense, sent as JSON.
use hyper_solid.Prelude.{
  true, false, ◌≡◌, refl, Option, none, some, is_some, arith, Option-cases, inl, inr, string_eq,
  ◌==◌,
}
use hyper_solid.Number.{Number}
use hyper_solid.Strategies.Types.{
  Side, buy, sell, Mode, long_only, symmetric, Direction, above, below, StrategyParams, kind_of,
  DcaParams, TpslParams, TwapParams, GridParams, GridLimitParams, TrailingParams, ConditionalParams,
  ScheduledParams,
}
use hyper_solid.Strategies.Values.{
  Value, text, accepted, as_number, field, side_of, direction_of, mode_of, coin_of, dead_man_of,
}
use hyper_solid.Strategies.Accepted.{sound}
use hyper_solid.Strategies.Validate.{
  check_dca, check_twap, check_tpsl, check_levels, check_grid, check_grid_limit, check_trailing,
  check_conditional, check_scheduled, check_kind, validate_params,
}
use hyper_solid.Strategies.Json.{
  coin_in, dead_man_in, side_text, direction_text, given_mode, fields_of, is_timed,
}

side_of-side_text : (N : Type 0) (side : Side) → side_of {N = N} (text (side_text side)) ≡ some side
side_of-side_text N buy = refl
side_of-side_text N sell = refl

direction_of-direction_text :
    (N : Type 0) (direction : Direction)
    → direction_of {N = N} (text (direction_text direction)) ≡ some direction
direction_of-direction_text N above = refl
direction_of-direction_text N below = refl

module _ {N : Type 0} where
  mode_of-given_mode :
      (as_value : N → Value N) (mode : Option Mode)
      → is_some mode ≡ true
      → mode_of (field "mode" (given_mode as_value mode)) ≡ mode
  mode_of-given_mode as_value none h = absurd (ground arith)
  mode_of-given_mode as_value (some long_only) h = refl
  mode_of-given_mode as_value (some symmetric) h = refl

module _ {N : Type 0} ⦃num : Number N⦄ (as_value : N → Value N) where
  check_dca-fields_of :
      (p : DcaParams N)
      → ((x : N) → as_number (as_value x) ≡ some x)
      → sound (StrategyParams.dca p) ≡ true
      → check_dca (fields_of as_value (StrategyParams.dca p)) p.coin p.dead_man
        ≡ accepted (StrategyParams.dca p)
  unfolding check_dca
  check_dca-fields_of p read fine = elim (Option-cases p.max_total_usdc) [
    | inl h ↦
        ground
          (arith, h, side_of-side_text N p.side, read p.quote_amount_usdc, read p.interval_hours)
    | inr (most, h) ↦ ground (
      arith,
      h,
      side_of-side_text N p.side,
      read p.quote_amount_usdc,
      read p.interval_hours,
      read most,
    )
  ]

  check_twap-fields_of :
      (p : TwapParams N)
      → ((x : N) → as_number (as_value x) ≡ some x)
      → sound (StrategyParams.twap p) ≡ true
      → check_twap (fields_of as_value (StrategyParams.twap p)) p.coin p.dead_man
        ≡ accepted (StrategyParams.twap p)
  unfolding check_twap
  check_twap-fields_of p read fine =
      ground (arith, side_of-side_text N p.side, read p.total_usdc, read p.duration_hours)

  check_grid-fields_of :
      (p : GridParams N)
      → ((x : N) → as_number (as_value x) ≡ some x)
      → sound (StrategyParams.grid p) ≡ true
      → check_grid (fields_of as_value (StrategyParams.grid p)) p.coin p.dead_man
        ≡ accepted (StrategyParams.grid p)
  unfolding check_grid check_levels
  check_grid-fields_of p read fine = ground (
    arith,
    mode_of-given_mode as_value p.mode,
    read p.lower_price,
    read p.upper_price,
    read p.per_level_usdc,
  )

  check_grid_limit-fields_of :
      (p : GridLimitParams N)
      → ((x : N) → as_number (as_value x) ≡ some x)
      → sound (StrategyParams.grid_limit p) ≡ true
      → check_grid_limit (fields_of as_value (StrategyParams.grid_limit p)) p.coin p.dead_man
        ≡ accepted (StrategyParams.grid_limit p)
  unfolding check_grid_limit check_levels
  check_grid_limit-fields_of p read fine = ground (
    arith,
    mode_of-given_mode as_value p.mode,
    read p.lower_price,
    read p.upper_price,
    read p.per_level_usdc,
  )

  check_trailing-fields_of :
      (p : TrailingParams N)
      → ((x : N) → as_number (as_value x) ≡ some x)
      → sound (StrategyParams.trailing p) ≡ true
      → check_trailing (fields_of as_value (StrategyParams.trailing p)) p.coin p.dead_man
        ≡ accepted (StrategyParams.trailing p)
  unfolding check_trailing
  check_trailing-fields_of p read fine = ground (arith, read p.trail_pct)

  check_conditional-fields_of :
      (p : ConditionalParams N)
      → ((x : N) → as_number (as_value x) ≡ some x)
      → sound (StrategyParams.conditional p) ≡ true
      → check_conditional (fields_of as_value (StrategyParams.conditional p)) p.coin p.dead_man
        ≡ accepted (StrategyParams.conditional p)
  unfolding check_conditional
  check_conditional-fields_of p read fine = ground (
    arith,
    side_of-side_text N p.side,
    direction_of-direction_text N p.trigger_direction,
    read p.size_usdc,
    read p.trigger_price,
  )

  check_scheduled-fields_of :
      (p : ScheduledParams N)
      → ((x : N) → as_number (as_value x) ≡ some x)
      → sound (StrategyParams.scheduled p) ≡ true
      → is_timed as_value (StrategyParams.scheduled p) ≡ true
      → check_scheduled (fields_of as_value (StrategyParams.scheduled p)) p.coin p.dead_man
        ≡ accepted (StrategyParams.scheduled p)
  unfolding check_scheduled
  check_scheduled-fields_of p read fine timed =
      ground (arith, side_of-side_text N p.side, read p.size_usdc, read p.run_at)

  check_tpsl-fields_of :
      (p : TpslParams N)
      → ((x : N) → as_number (as_value x) ≡ some x)
      → sound (StrategyParams.tpsl p) ≡ true
      → check_tpsl (fields_of as_value (StrategyParams.tpsl p)) p.coin p.dead_man
        ≡ accepted (StrategyParams.tpsl p)
  unfolding check_tpsl
  check_tpsl-fields_of p read fine = elim (Option-cases p.take_profit_price) [
    | inl h ↦ elim (Option-cases p.stop_loss_price) [
      | inl g ↦ ground (arith, h, g)
      | inr (sl, g) ↦ ground (arith, h, g, read sl)
    ]
    | inr (tp, h) ↦ elim (Option-cases p.stop_loss_price) [
      | inl g ↦ ground (arith, h, g, read tp)
      | inr (sl, g) ↦ ground (arith, h, g, read sl, read tp)
    ]
  ]

  check_kind-fields_of :
      (q : StrategyParams N)
      → ((x : N) → as_number (as_value x) ≡ some x)
      → sound q ≡ true
      → is_timed as_value q ≡ true
      → check_kind (kind_of q) (fields_of as_value q) (coin_in q) (dead_man_in q) ≡ accepted q
  unfolding check_kind
  check_kind-fields_of (StrategyParams.dca p) read fine _ = check_dca-fields_of p read fine
  check_kind-fields_of (StrategyParams.twap p) read fine _ = check_twap-fields_of p read fine
  check_kind-fields_of (StrategyParams.tpsl p) read fine _ = check_tpsl-fields_of p read fine
  check_kind-fields_of (StrategyParams.grid p) read fine _ = check_grid-fields_of p read fine
  check_kind-fields_of (StrategyParams.grid_limit p) read fine _ =
      check_grid_limit-fields_of p read fine
  check_kind-fields_of (StrategyParams.trailing p) read fine _ =
      check_trailing-fields_of p read fine
  check_kind-fields_of (StrategyParams.conditional p) read fine _ =
      check_conditional-fields_of p read fine
  check_kind-fields_of (StrategyParams.scheduled p) read fine timed =
      check_scheduled-fields_of p read fine timed

  coin_of-fields_of :
      (q : StrategyParams N)
      → (coin_in q == "") ≡ false
      → coin_of (field "coin" (fields_of as_value q)) ≡ some (coin_in q)
  coin_of-fields_of (StrategyParams.dca p) h = rw h refl
  coin_of-fields_of (StrategyParams.twap p) h = rw h refl
  coin_of-fields_of (StrategyParams.tpsl p) h = rw h refl
  coin_of-fields_of (StrategyParams.grid p) h = rw h refl
  coin_of-fields_of (StrategyParams.grid_limit p) h = rw h refl
  coin_of-fields_of (StrategyParams.trailing p) h = rw h refl
  coin_of-fields_of (StrategyParams.conditional p) h = rw h refl
  coin_of-fields_of (StrategyParams.scheduled p) h = rw h refl

  dead_man_of-fields_of :
      (q : StrategyParams N)
      → dead_man_of (field "deadMan" (fields_of as_value q)) ≡ some (dead_man_in q)
  dead_man_of-fields_of (StrategyParams.dca p) = refl
  dead_man_of-fields_of (StrategyParams.twap p) = refl
  dead_man_of-fields_of (StrategyParams.tpsl p) = refl
  dead_man_of-fields_of (StrategyParams.grid p) = refl
  dead_man_of-fields_of (StrategyParams.grid_limit p) = refl
  dead_man_of-fields_of (StrategyParams.trailing p) = refl
  dead_man_of-fields_of (StrategyParams.conditional p) = refl
  dead_man_of-fields_of (StrategyParams.scheduled p) = refl

  -- Parameters that make sense, of a named coin and with a whole number for the time of a scheduled
  -- order, are accepted as they are when they are sent as JSON.
  pub validate_params-fields_of :
      (q : StrategyParams N)
      → ((x : N) → as_number (as_value x) ≡ some x)
      → (coin_in q == "") ≡ false
      → sound q ≡ true
      → is_timed as_value q ≡ true
      → validate_params (kind_of q) (fields_of as_value q) ≡ accepted q
  unfolding validate_params
  validate_params-fields_of q read named fine timed =
      rw (coin_of-fields_of q named, dead_man_of-fields_of q)
        (check_kind-fields_of q read fine timed)
