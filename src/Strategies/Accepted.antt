-- ===== src/Strategies/Accepted.antt =====
-- What server/src/strategies/validate.ts lets into the store.
use hyper_solid.Prelude.{
  ℕ, String, Bool, true, false, not, ◌&&◌, ◌||◌, ◌≡◌, refl, sym, ◌∙◌, Option, none, some, Dict,
  string_eq, Option-cases, is_some, ltb, arith, inl, inr,
}
use hyper_solid.Number.{Number}
use hyper_solid.Strategies.Types.{
  Side, buy, sell, StrategyKind, dca, twap, tpsl, grid, grid_limit, trailing, conditional,
  scheduled, StrategyParams, kind_of,
}
use hyper_solid.Strategies.Values.{Value, accepted, field, coin_of, dead_man_of, is_positive}
use hyper_solid.Strategies.Validate.{
  check_dca, check_twap, check_tpsl, check_levels, check_grid, check_grid_limit, check_trailing,
  check_conditional, check_scheduled, check_kind, validate_params,
}

abbrev is_buy : Side → Bool
is_buy buy = true
is_buy sell = false

module _ {N : Type 0} ⦃num : Number N⦄ where
  open num use {of_ℕ, le}

  abbrev pub positive_or_none : Option N → Bool
  positive_or_none none = true
  positive_or_none (some x) = is_positive x

  abbrev pub sound_levels : N → N → ℕ → N → Bool
  sound_levels lower upper levels each =
      is_positive lower
      && is_positive upper
      && not (le upper lower)
      && not (ltb levels 2)
      && is_positive each

  -- The parameters make sense for their kind.
  abbrev pub sound : StrategyParams N → Bool
  sound (StrategyParams.dca p) =
      is_buy p.side
      && is_positive p.quote_amount_usdc
      && is_positive p.interval_hours
      && positive_or_none p.max_total_usdc
  sound (StrategyParams.twap p) =
      is_positive p.total_usdc && ltb 0 p.slices && is_positive p.duration_hours
  sound (StrategyParams.tpsl p) =
      (is_some p.take_profit_price || is_some p.stop_loss_price)
      && positive_or_none p.take_profit_price
      && positive_or_none p.stop_loss_price
  sound (StrategyParams.grid p) =
      sound_levels p.lower_price p.upper_price p.levels p.per_level_usdc && is_some p.mode
  sound (StrategyParams.grid_limit p) =
      sound_levels p.lower_price p.upper_price p.levels p.per_level_usdc && is_some p.mode
  sound (StrategyParams.trailing p) = is_positive p.trail_pct && not (le (of_ℕ 100) p.trail_pct)
  sound (StrategyParams.conditional p) = is_positive p.size_usdc && is_positive p.trigger_price
  sound (StrategyParams.scheduled p) = is_positive p.size_usdc

  check_dca-sound :
      (p : Dict String (Value N)) (coin : String) (dead_man : Bool) (q : StrategyParams N)
      → check_dca p coin dead_man ≡ accepted q
      → (kind_of q ≡ dca) × (sound q ≡ true)
  unfolding check_dca
  check_dca-sound p coin dead_man q e = ground arith

  check_twap-sound :
      (p : Dict String (Value N)) (coin : String) (dead_man : Bool) (q : StrategyParams N)
      → check_twap p coin dead_man ≡ accepted q
      → (kind_of q ≡ twap) × (sound q ≡ true)
  unfolding check_twap
  check_twap-sound p coin dead_man q e = ground arith

  check_tpsl-sound :
      (p : Dict String (Value N)) (coin : String) (dead_man : Bool) (q : StrategyParams N)
      → check_tpsl p coin dead_man ≡ accepted q
      → (kind_of q ≡ tpsl) × (sound q ≡ true)
  unfolding check_tpsl
  check_tpsl-sound p coin dead_man q e = ground arith

  check_grid-sound :
      (p : Dict String (Value N)) (coin : String) (dead_man : Bool) (q : StrategyParams N)
      → check_grid p coin dead_man ≡ accepted q
      → (kind_of q ≡ grid) × (sound q ≡ true)
  unfolding check_grid check_levels
  check_grid-sound p coin dead_man q e = ground arith

  check_grid_limit-sound :
      (p : Dict String (Value N)) (coin : String) (dead_man : Bool) (q : StrategyParams N)
      → check_grid_limit p coin dead_man ≡ accepted q
      → (kind_of q ≡ grid_limit) × (sound q ≡ true)
  unfolding check_grid_limit check_levels
  check_grid_limit-sound p coin dead_man q e = ground arith

  check_trailing-sound :
      (p : Dict String (Value N)) (coin : String) (dead_man : Bool) (q : StrategyParams N)
      → check_trailing p coin dead_man ≡ accepted q
      → (kind_of q ≡ trailing) × (sound q ≡ true)
  unfolding check_trailing
  check_trailing-sound p coin dead_man q e = ground arith

  check_conditional-sound :
      (p : Dict String (Value N)) (coin : String) (dead_man : Bool) (q : StrategyParams N)
      → check_conditional p coin dead_man ≡ accepted q
      → (kind_of q ≡ conditional) × (sound q ≡ true)
  unfolding check_conditional
  check_conditional-sound p coin dead_man q e = ground arith

  check_scheduled-sound :
      (p : Dict String (Value N)) (coin : String) (dead_man : Bool) (q : StrategyParams N)
      → check_scheduled p coin dead_man ≡ accepted q
      → (kind_of q ≡ scheduled) × (sound q ≡ true)
  unfolding check_scheduled
  check_scheduled-sound p coin dead_man q e = ground arith

  check_kind-sound :
      (kind : StrategyKind) (p : Dict String (Value N)) (coin : String) (dead_man : Bool)
      (q : StrategyParams N)
      → check_kind kind p coin dead_man ≡ accepted q
      → (kind_of q ≡ kind) × (sound q ≡ true)
  unfolding check_kind
  check_kind-sound dca = check_dca-sound
  check_kind-sound twap = check_twap-sound
  check_kind-sound tpsl = check_tpsl-sound
  check_kind-sound grid = check_grid-sound
  check_kind-sound grid_limit = check_grid_limit-sound
  check_kind-sound trailing = check_trailing-sound
  check_kind-sound conditional = check_conditional-sound
  check_kind-sound scheduled = check_scheduled-sound

  -- Parameters that are accepted are of the kind asked for, and make sense for it: amounts, prices and
  -- intervals are positive, a grid's bounds are in order with two lines or more, a trail is under
  -- a hundred percent, and a stop has a price on one side at least.
  pub validate_params-sound :
      (kind : StrategyKind) (p : Dict String (Value N)) (q : StrategyParams N)
      → validate_params kind p ≡ accepted q
      → (kind_of q ≡ kind) × (sound q ≡ true)
  unfolding validate_params
  validate_params-sound kind p q e = elim (Option-cases (coin_of (field "coin" p))) [
    | inl h ↦ absurd (ground (arith, h, e))
    | inr (coin, h) ↦ elim (Option-cases (dead_man_of (field "deadMan" p))) [
      | inl g ↦ absurd (ground (arith, h, g, e))
      | inr (dead_man, g) ↦
          let step : validate_params kind p ≡ check_kind kind p coin dead_man = rw (h, g) refl in
          check_kind-sound kind p coin dead_man q (sym step ∙ e)
    ]
  ]
