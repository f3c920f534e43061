-- ===== src/Scheduler/Rungs.antt =====
-- The resting-grid pass of `tick`: the open orders of an owner, and the placement of a rung's orders.
use Prim.Native.String.{◌++◌}
use hyper_solid.Prelude.{
  ℕ, ◌+◌, String, Bool, true, false, not, ◌&&◌, Option, none, some, if◌then◌else◌, is_some, Dict,
  lookup, insert, [], string_eq,
}
use hyper_solid.Number.{Number}
use hyper_solid.Strategies.Types.{Side, buy, sell, Strategy, GridLimitParams}
use hyper_solid.Strategies.GridLimit.{
  RungPhase, idle, armed, holding, RungState, rung_buy_price, rung_sell_price, rung_size_coin,
  rung_short_size_coin,
}
use hyper_solid.Strategies.Store.{set_grid_limit_rung}
use hyper_solid.Scheduler.Context.{
  Context, Effect, PlaceLimitRequest, PlaceLimitResult, resting, filled, failed, OpenOrders,
  CloidFill, RestingExecutor, caps_ok, cloid_for_key,
}
use hyper_solid.Scheduler.Session.{
  Action, ◌>>=◌, ◌>>◌, pure, gets, modify, known_or, on_store, when, unless, reading, place_limit,
}

module _ {N : Type 0} where
  abbrev pub rung : ℕ → RungPhase → Option Side → Option String → Option N → ℕ → RungState N
  rung i state side cloid px seq = record {
    rung = i;
    state = state;
    side = side;
    cloid = cloid;
    px = px;
    seq = seq;
  }

  abbrev pub idle_rung : ℕ → ℕ → RungState N
  idle_rung i seq = rung i idle none none none seq

  -- `open.has(cloid)`
  abbrev pub is_open : String → OpenOrders N → Bool
  is_open cloid orders = is_some (lookup cloid orders.by_cloid)

  -- `res.ok && "oid" in res`
  abbrev pub is_resting : PlaceLimitResult N → Bool
  is_resting (resting _) = true
  is_resting (filled _ _) = false
  is_resting (failed _) = false

-- What a step on a rung has at hand: the strategy, its params, and the owner's open orders.
pub record Desk (N W : Type 0) : Type 0 where
  pub exec : RestingExecutor N W
  pub strategy : Strategy N
  pub params : GridLimitParams N
  pub orders : OpenOrders N

module _ {N W : Type 0} ⦃num : Number N⦄ where
  open num use {of_ℕ, lt, le, show}

  -- `getOpen`: the first read of an owner's orders in a tick is kept for the rest of it.
  unfoldable pub get_open : (String → Effect W (OpenOrders N)) → String → Action N W (OpenOrders N)
  get_open reader owner = do
    known ← gets (λ y. lookup owner y.open_by_owner)
    known_or known do
      orders ← reading (reader owner)
      modify λ y. record y { open_by_owner = insert owner orders y.open_by_owner }
      pure orders

  -- `getFills`: as `getOpen`; with no reader there are no fills.
  unfoldable pub get_fills :
      Option (String → Effect W (Dict String (CloidFill N)))
      → String
      → Action N W (Dict String (CloidFill N))
  get_fills none owner = pure []
  get_fills (some reader) owner = do
    known ← gets (λ y. lookup owner y.fills_by_owner)
    known_or known do
      fills ← reading (reader owner)
      modify λ y. record y { fills_by_owner = insert owner fills y.fills_by_owner }
      pure fills

  -- `overOpenCap`, with the owner's orders at hand: a ceiling is set, above zero, and reached.
  unfoldable pub over_open_cap : Context N W → OpenOrders N → Bool
  over_open_cap cx orders = elim cx.limits.max_open_orders [
    | none ↦ false
    | some ceiling ↦ lt (of_ℕ 0) ceiling && le ceiling (of_ℕ orders.total)
  ]

  -- `cloidForKey(s.id, `gl:${i}:${seq}`)`
  unfoldable pub rung_cloid : Context N W → Strategy N → ℕ → ℕ → String
  rung_cloid cx s i seq =
      cloid_for_key cx s.id ("gl:" ++ (show (of_ℕ i) ++ (":" ++ show (of_ℕ seq))))

  abbrev pub limit_order : Desk N W → N → N → Side → Bool → String → PlaceLimitRequest N
  limit_order d price size_coin side reduce_only cloid = record {
    owner = d.strategy.owner;
    coin = d.params.coin;
    price = price;
    size_coin = size_coin;
    side = side;
    reduce_only = reduce_only;
    cloid = cloid;
  }

  abbrev pub set_rung : Desk N W → RungState N → Action N W (Unit {0})
  set_rung d r = on_store (set_grid_limit_rung d.strategy.id r)

  -- `placeSell` and `placeTpBuy`: the reduce-only order that takes a rung's profit. A resting order
  -- of the same id is adopted; a refusal keeps the rung for a retry.
  unfoldable pub place_exit :
      Context N W → Desk N W → ℕ → RungState N → Side → N → N → Action N W (Unit {0})
  unfolding place_limit rung_cloid
  place_exit cx d i prev side price size_coin = do
    let seq = prev.seq + 1
    let cloid = rung_cloid cx d.strategy i seq
    if is_open cloid d.orders
        then set_rung d (rung i holding (some side) (some cloid) (some price) seq)
        else do
          res ← place_limit d.exec (limit_order d price size_coin side true cloid)
          if is_resting res
              then set_rung d (rung i holding (some side) (some cloid) (some price) seq)
              else set_rung d (rung i holding (some side) none (some price) prev.seq)

  unfoldable pub place_sell : Context N W → Desk N W → ℕ → RungState N → Action N W (Unit {0})
  unfolding place_exit
  place_sell cx d i prev =
      place_exit cx d i prev sell (rung_sell_price d.params i) (rung_size_coin d.params i)

  unfoldable pub place_tp_buy : Context N W → Desk N W → ℕ → RungState N → Action N W (Unit {0})
  unfolding place_exit
  place_tp_buy cx d i prev =
      place_exit cx d i prev buy (rung_buy_price d.params i) (rung_short_size_coin d.params i)

  -- `placeBuy` and `placeShortEntry`: the order that opens a rung, within the ceiling on open orders
  -- and the caps. A resting order of the same id is adopted before a fresh allowance is spent.
  unfoldable pub place_entry :
      Context N W → Desk N W → ℕ → RungState N → Side → N → N → Action N W (Unit {0})
  unfolding place_limit rung_cloid
  place_entry cx d i prev side price size_coin = do
    let seq = prev.seq + 1
    let cloid = rung_cloid cx d.strategy i seq
    if is_open cloid d.orders
        then set_rung d (rung i armed (some side) (some cloid) (some price) seq)
        else unless (over_open_cap cx d.orders) do
          rows ← gets (λ y. y.activity)
          unless (not (caps_ok cx d.params.per_level_usdc d.strategy.owner d.params.coin rows)) do
            res ← place_limit d.exec (limit_order d price size_coin side false cloid)
            when (is_resting res)
                (set_rung d (rung i armed (some side) (some cloid) (some price) seq))

  unfoldable pub place_buy : Context N W → Desk N W → ℕ → RungState N → Action N W (Unit {0})
  unfolding place_entry
  place_buy cx d i prev =
      place_entry cx d i prev buy (rung_buy_price d.params i) (rung_size_coin d.params i)

  unfoldable pub place_short_entry :
      Context N W → Desk N W → ℕ → RungState N → Action N W (Unit {0})
  unfolding place_entry
  place_short_entry cx d i prev =
      place_entry cx d i prev sell (rung_sell_price d.params i) (rung_short_size_coin d.params i)
