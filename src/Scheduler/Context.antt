-- ===== src/Scheduler/Context.antt =====
-- The arguments of `tick` in server/src/engine/scheduler.ts, and the requests and answers of the
-- interfaces that it calls. `W` is the world outside: each call may change it, and may throw.
use Prim.Native.String.{◌++◌, slice}
use hyper_solid.Prelude.{
  ℕ, String, Bool, false, not, Option, none, some, List, Dict, if◌then◌else◌, ◌≡◌, refl, ◌⊎◌, inl,
  inr,
}
use hyper_solid.Number.{Number}
use hyper_solid.Strategies.Types.{Side}
use hyper_solid.Strategies.Rules.{RiskLimits, RiskInput, within_caps}

pub data Outcome (A : Type 0) : Type 0 where
  ok : A → Outcome A
  thrown : Outcome A

pub Outcome-cases : {A : Type 0} (o : Outcome A) → ((a : A) × (o ≡ ok a)) ⊎ (o ≡ thrown)
Outcome-cases (ok a) = inl (a, refl)
Outcome-cases thrown = inr refl

-- A call of something outside: an answer or an exception, and the world after it.
abbrev pub Effect : Type 0 → Type 0 → Type 0
Effect W A = W → Outcome A × W

module _ (N : Type 0) where
  pub record PlaceRequest : Type 0 where
    pub owner : String
    pub coin : String
    pub cloid : String
    pub side : Side
    pub reduce_only : Bool
    pub size_usdc : Option N
    pub size_coin : Option N

  pub record PlaceResult : Type 0 where
    pub ok : Bool
    pub filled_usdc : Option N
    pub filled_sz : Option N
    pub avg_px : Option N

  pub record Activity : Type 0 where
    pub strategy_id : String
    pub owner : String
    pub time : N
    pub coin : String
    pub side : Side
    pub sz : N
    pub px : N

  -- `ActivityRecorder`: `record` appends to the log; `notionalSince`, where there is one, reads it.
  pub record ActivityRecorder : Type 0 where
    pub notional_since : Option (String → N → List Activity → N)

  pub record PlaceLimitRequest : Type 0 where
    pub owner : String
    pub coin : String
    pub price : N
    pub size_coin : N
    pub side : Side
    pub reduce_only : Bool
    pub cloid : String

  -- `{ ok: true, oid }`, `{ ok: true, filledSz, avgPx }` and `{ ok: false, rejected? }`
  pub data PlaceLimitResult : Type 0 where
    resting : ℕ → PlaceLimitResult
    filled : N → N → PlaceLimitResult
    failed : Option Bool → PlaceLimitResult

  pub record OpenOrderInfo : Type 0 where
    pub oid : ℕ
    pub coin : String
    pub side : Side
    pub px : N

  pub record OpenOrders : Type 0 where
    pub by_cloid : Dict String OpenOrderInfo
    pub total : ℕ

  pub record CloidFill : Type 0 where
    pub sz : N
    pub px : N
    pub closed_pnl : N

pub record CancelRequest : Type 0 where
  pub owner : String
  pub cancels : List (String × String)

module _ (N W : Type 0) where
  pub record MarkDeps : Type 0 where
    pub resolve_mark : String → Effect W N
    pub resolve_position : String → String → Effect W (Option N)

  pub record RestingExecutor : Type 0 where
    pub place_limit : PlaceLimitRequest N → Effect W (PlaceLimitResult N)
    pub cancel_many : CancelRequest → Effect W Bool

  pub record Context : Type 0 where
    pub place : PlaceRequest N → Effect W (PlaceResult N)
    pub limits : RiskLimits N
    pub kill_switch : Bool
    pub now : N
    pub activity : Option (ActivityRecorder N)
    pub marks : Option MarkDeps
    pub resting_exec : Option RestingExecutor
    pub open_orders : Option (String → Effect W (OpenOrders N))
    pub fills_by_cloid : Option (String → Effect W (Dict String (CloidFill N)))
    -- `createHash("sha256").update(text).digest("hex")`
    pub digest : String → String

module _ {N : Type 0} ⦃num : Number N⦄ where
  open num use {of_ℕ, mul, div, floor}

  abbrev pub day_ms : N
  day_ms = of_ℕ 86_400_000

  unfoldable pub day_start_utc_ms : N → N
  day_start_utc_ms now = mul (floor (div now day_ms)) day_ms

module _ {N W : Type 0} ⦃num : Number N⦄ where
  open num use {add, lt, show}

  unfoldable pub cloid_for_key : Context N W → String → String → String
  cloid_for_key cx strategy_id key = "0x" ++ slice (cx.digest ((strategy_id ++ ":") ++ key)) 0 32

  unfoldable pub cloid_for : Context N W → String → N → String
  unfolding cloid_for_key
  cloid_for cx strategy_id scheduled_next_run_at =
      cloid_for_key cx strategy_id (show scheduled_next_run_at)

  -- The daily spend cap is set, there is a log to read, and the order would go over it.
  unfoldable pub over_daily_cap : Context N W → String → N → List (Activity N) → Bool
  unfolding day_start_utc_ms
  over_daily_cap cx owner notional rows = elim cx.limits.daily_max_notional_usdc [
    | none ↦ false
    | some cap ↦ elim cx.activity [
      | none ↦ false
      | some rec ↦ elim rec.notional_since [
        | none ↦ false
        | some since ↦ lt cap (add (since owner (day_start_utc_ms cx.now) rows) notional)
      ]
    ]
  ]

  abbrev pub risk_input : Context N W → N → String → RiskInput N
  risk_input cx notional coin = record {
    notional_usdc = notional;
    kill_switch = cx.kill_switch;
    coin = some coin;
  }

  -- `gridCapsOk`, which the other passes write out: the per-order gate, then the daily cap.
  unfoldable pub caps_ok : Context N W → N → String → String → List (Activity N) → Bool
  unfolding over_daily_cap
  caps_ok cx notional owner coin rows =
      if not (within_caps (risk_input cx notional coin) cx.limits).ok
      then false
      else not (over_daily_cap cx owner notional rows)
