-- ===== src/Strategies/Types.antt =====
-- server/src/strategies/types.ts. The source's union of a kind with its params is one data type with a
-- constructor for each kind; `levels` and `slices`, which `validateParams` holds to positive
-- integers, are naturals.
use hyper_solid.Prelude.{ℕ, String, Bool, Option}

pub data Side : Type 0 where
  buy sell : Side

pub data Mode : Type 0 where
  long_only symmetric : Mode

pub data Direction : Type 0 where
  above below : Direction

pub data StrategyStatus : Type 0 where
  running paused completed canceling : StrategyStatus

pub data StrategyKind : Type 0 where
  dca twap tpsl grid grid_limit trailing conditional scheduled : StrategyKind

module _ (N : Type 0) where
  -- The source's type of `side` here is the literal "buy".
  pub record DcaParams : Type 0 where
    pub coin : String
    pub side : Side
    pub quote_amount_usdc : N
    pub interval_hours : N
    pub max_total_usdc : Option N
    pub dead_man : Bool

  pub record TwapParams : Type 0 where
    pub coin : String
    pub side : Side
    pub total_usdc : N
    pub slices : ℕ
    pub duration_hours : N
    pub dead_man : Bool

  pub record TpslParams : Type 0 where
    pub coin : String
    pub take_profit_price : Option N
    pub stop_loss_price : Option N
    pub dead_man : Bool

  pub record TrailingParams : Type 0 where
    pub coin : String
    pub trail_pct : N
    pub dead_man : Bool

  pub record ConditionalParams : Type 0 where
    pub coin : String
    pub side : Side
    pub size_usdc : N
    pub trigger_price : N
    pub trigger_direction : Direction
    pub dead_man : Bool

  pub record ScheduledParams : Type 0 where
    pub coin : String
    pub side : Side
    pub size_usdc : N
    pub run_at : N
    pub dead_man : Bool

  pub record GridParams : Type 0 where
    pub coin : String
    pub lower_price : N
    pub upper_price : N
    pub levels : ℕ
    pub per_level_usdc : N
    pub mode : Option Mode
    pub dead_man : Bool

  pub record GridLimitParams : Type 0 where
    pub coin : String
    pub lower_price : N
    pub upper_price : N
    pub levels : ℕ
    pub per_level_usdc : N
    pub mode : Option Mode
    pub dead_man : Bool

pub data StrategyParams (N : Type 0) : Type 0 where
  dca : DcaParams N → StrategyParams N
  twap : TwapParams N → StrategyParams N
  tpsl : TpslParams N → StrategyParams N
  grid : GridParams N → StrategyParams N
  grid_limit : GridLimitParams N → StrategyParams N
  trailing : TrailingParams N → StrategyParams N
  conditional : ConditionalParams N → StrategyParams N
  scheduled : ScheduledParams N → StrategyParams N

pub record Strategy (N : Type 0) : Type 0 where
  pub id : String
  pub owner : String
  pub status : StrategyStatus
  pub created_at : N
  pub params : StrategyParams N
  pub next_run_at : Option N
  pub filled_total_usdc : Option N
  pub slices_done : Option ℕ
  pub triggered_at : Option N
  pub last_level : Option N
  pub actions_done : Option ℕ
  pub trail_peak : Option N

abbrev pub kind_of : {N : Type 0} → StrategyParams N → StrategyKind
kind_of (StrategyParams.dca _) = StrategyKind.dca
kind_of (StrategyParams.twap _) = StrategyKind.twap
kind_of (StrategyParams.tpsl _) = StrategyKind.tpsl
kind_of (StrategyParams.grid _) = StrategyKind.grid
kind_of (StrategyParams.grid_limit _) = StrategyKind.grid_limit
kind_of (StrategyParams.trailing _) = StrategyKind.trailing
kind_of (StrategyParams.conditional _) = StrategyKind.conditional
kind_of (StrategyParams.scheduled _) = StrategyKind.scheduled
