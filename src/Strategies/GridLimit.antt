-- ===== src/Strategies/GridLimit.antt =====
-- server/src/strategies/gridLimit.ts: the rungs of a grid of resting limit orders. `rung` and `seq` are
-- counters, so naturals.
use hyper_solid.Prelude.{ℕ, ◌-◌, ◌+◌, String, Bool, Option, ltb, if◌then◌else◌}
use hyper_solid.Number.{Number}
use hyper_solid.Strategies.Types.{Side, GridLimitParams}

pub data RungPhase : Type 0 where
  idle armed holding : RungPhase

pub record RungState (N : Type 0) : Type 0 where
  pub rung : ℕ
  pub state : RungPhase
  pub side : Option Side
  pub cloid : Option String
  pub px : Option N
  pub seq : ℕ

-- `Math.max(0, p.levels - 1)`
unfoldable pub rung_count : {N : Type 0} → GridLimitParams N → ℕ
rung_count p = p.levels - 1

module _ {N : Type 0} ⦃num : Number N⦄ where
  open num use {of_ℕ, add, sub, mul, div, lt, le}

  unfoldable pub grid_limit_step : GridLimitParams N → N
  grid_limit_step p =
      if ltb 1 p.levels
      then div (sub p.upper_price p.lower_price) (sub (of_ℕ p.levels) (of_ℕ 1))
      else of_ℕ 0

  unfoldable pub grid_limit_line : GridLimitParams N → ℕ → N
  unfolding grid_limit_step
  grid_limit_line p i = add p.lower_price (mul (of_ℕ i) (grid_limit_step p))

  unfoldable pub rung_buy_price : GridLimitParams N → ℕ → N
  unfolding grid_limit_line
  rung_buy_price p i = grid_limit_line p i

  unfoldable pub rung_sell_price : GridLimitParams N → ℕ → N
  unfolding grid_limit_line
  rung_sell_price p i = grid_limit_line p (i + 1)

  unfoldable pub rung_size_coin : GridLimitParams N → ℕ → N
  unfolding rung_buy_price
  rung_size_coin p i =
      let px = rung_buy_price p i in if lt (of_ℕ 0) px then div p.per_level_usdc px else of_ℕ 0

  unfoldable pub armable : GridLimitParams N → ℕ → N → Bool
  unfolding rung_buy_price
  armable p i mark = lt (rung_buy_price p i) mark

  unfoldable pub rung_center : GridLimitParams N → ℕ → N
  unfolding rung_buy_price rung_sell_price
  rung_center p i = div (add (rung_buy_price p i) (rung_sell_price p i)) (of_ℕ 2)

  unfoldable pub rung_is_short : GridLimitParams N → ℕ → N → Bool
  unfolding rung_center
  rung_is_short p i mark = le mark (rung_center p i)

  unfoldable pub armable_short : GridLimitParams N → ℕ → N → Bool
  unfolding rung_sell_price
  armable_short p i mark = lt mark (rung_sell_price p i)

  unfoldable pub rung_short_size_coin : GridLimitParams N → ℕ → N
  unfolding rung_sell_price
  rung_short_size_coin p i =
      let px = rung_sell_price p i in if lt (of_ℕ 0) px then div p.per_level_usdc px else of_ℕ 0
