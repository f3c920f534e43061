-- ===== src/Orders/Build.antt =====
-- mobile/src/lib/hyperliquid/buildOrder.ts, buildScaleLevels of orderForm.ts there, and cancel.ts: the
-- actions that the app signs. A random order id is an argument, `drawn`; the number of orders of a
-- ladder and the minutes of a TWAP are whole.
use hyper_solid.Prelude.{
  ℕ, ◌+◌, max, String, Bool, true, false, Option, none, some, get_or, List, [], ◌∷◌, ◌++◌, map,
  range_from, nat_eqb, if◌then◌else◌,
}
use hyper_solid.Number.{Number}
use hyper_solid.Strategies.Types.{Side, buy, sell}
use hyper_solid.Orders.Rules.{
  Formats, MarketKind, Tpsl, tp, sl, OrderRejection, round_size, format_price, validate_order,
  is_builder_fee_within_cap,
}
use hyper_solid.Orders.Assets.{
  AssetIndex, market_kind_for_asset_id, id_of, decimals_of, derive_cloid,
}

pub data TimeInForce : Type 0 where
  gtc ioc alo : TimeInForce

pub data Grouping : Type 0 where
  na normal_tpsl position_tpsl : Grouping

pub record TriggerSpec (N : Type 0) : Type 0 where
  pub trigger_px : N
  pub is_market : Bool
  pub tpsl : Tpsl

pub record BuilderFee (N : Type 0) : Type 0 where
  pub address : String
  pub fee_tenth_bps : N

pub record OrderRequest (N : Type 0) : Type 0 where
  pub coin : String
  pub side : Side
  pub size : N
  pub price : N
  pub reduce_only : Option Bool
  pub tif : Option TimeInForce
  pub market : Bool
  pub trigger : Option (TriggerSpec N)
  pub cloid : Option String
  pub builder : Option (BuilderFee N)

pub data OrderType : Type 0 where
  limit : TimeInForce → OrderType
  trigger : Bool → String → Tpsl → OrderType

pub record HlOrder : Type 0 where
  pub asset : ℕ
  pub is_buy : Bool
  pub price : String
  pub size : String
  pub reduce_only : Bool
  pub kind : OrderType
  pub cloid : String

pub record HlOrderParams (N : Type 0) : Type 0 where
  pub orders : List HlOrder
  pub grouping : Grouping
  pub builder : Option (BuilderFee N)

pub data Result (A : Type 0) : Type 0 where
  built : A → Result A
  rejected : OrderRejection → Result A

-- The action and the id of its first order.
abbrev pub BuildResult : Type 0 → Type 0
BuildResult N = Result (HlOrderParams N × String)

pub record Leg (N : Type 0) : Type 0 where
  pub trigger_px : N
  pub is_market : Option Bool

pub record BracketRequest (N : Type 0) : Type 0 where
  pub entry : OrderRequest N
  pub take_profit : Option (Leg N)
  pub stop_loss : Option (Leg N)
  pub grouping : Option Grouping

pub record ScaleRequest (N : Type 0) : Type 0 where
  pub coin : String
  pub side : Side
  pub total_size : N
  pub start_px : N
  pub end_px : N
  pub count : ℕ
  pub reduce_only : Option Bool
  pub tif : Option TimeInForce
  pub cloid : Option String
  pub builder : Option (BuilderFee N)

abbrev pub and_then : {A B : Type 0} → Result A → (A → Result B) → Result B
and_then (built a) k = k a
and_then (rejected r) k = rejected r

abbrev pub unless_rejected : {A : Type 0} → Option OrderRejection → Result A → Result A
unless_rejected none k = k
unless_rejected (some r) k = rejected r

-- `if (asset === null || szDecimals === null)`
abbrev pub with_asset : {A : Type 0} → Option ℕ → Option ℕ → (ℕ → ℕ → Result A) → Result A
with_asset (some asset) (some decimals) k = k asset decimals
with_asset _ _ k = rejected OrderRejection.unknown_asset

abbrev pub is_buy_side : Side → Bool
is_buy_side buy = true
is_buy_side sell = false

abbrev pub closing_side : Side → Side
closing_side buy = sell
closing_side sell = buy

module _ {N : Type 0} where
  -- The legs of a bracket: the profit before the loss.
  abbrev pub leg_of : Tpsl → Option (Leg N) → List (TriggerSpec N)
  leg_of tpsl none = []
  leg_of tpsl (some leg) =
      record { trigger_px = leg.trigger_px; is_market = get_or leg.is_market true; tpsl = tpsl }
      ∷ []

  abbrev pub legs_of : BracketRequest N → List (TriggerSpec N)
  legs_of req = leg_of tp req.take_profit ++ leg_of sl req.stop_loss

  abbrev pub leg_request : OrderRequest N → TriggerSpec N → OrderRequest N
  leg_request entry leg = record {
    coin = entry.coin;
    side = closing_side entry.side;
    size = entry.size;
    price = leg.trigger_px;
    reduce_only = some true;
    tif = none;
    market = false;
    trigger = some leg;
    cloid = none;
    builder = none;
  }

module _ {N : Type 0} ⦃num : Number N⦄ where
  open num use {of_ℕ, add, sub, mul, div, show}

  abbrev pub build_scale_levels : N → N → ℕ → List N
  build_scale_levels start_px end_px count =
      let n = max 1 count in
      let step = div (sub end_px start_px) (sub (of_ℕ n) (of_ℕ 1)) in
      if nat_eqb n 1
      then start_px ∷ []
      else map (λ i. add start_px (mul step (of_ℕ i))) (range_from 0 n)

  module _ (formats : Formats N) (normalize : String → String) where
    abbrev pub order_type : OrderRequest N → Option (TriggerSpec N) → ℕ → MarketKind → OrderType
    order_type req (some t) decimals kind =
        trigger t.is_market (format_price formats t.trigger_px decimals kind) t.tpsl
    order_type req none decimals kind = limit (if req.market then ioc else get_or req.tif gtc)

    abbrev pub order_tuple : OrderRequest N → ℕ → ℕ → String → HlOrder
    order_tuple req asset decimals cloid =
        let kind = market_kind_for_asset_id asset in
        record {
          asset = asset;
          is_buy = is_buy_side req.side;
          price = format_price formats req.price decimals kind;
          size = show (round_size req.size decimals);
          reduce_only = get_or req.reduce_only false;
          kind = order_type req req.trigger decimals kind;
          cloid = cloid;
        }

    -- `builderField`
    abbrev pub with_builder :
        {A : Type 0} → Option (BuilderFee N) → ℕ → (Option (BuilderFee N) → Result A) → Result A
    with_builder none asset k = k none
    with_builder (some b) asset k =
        if is_builder_fee_within_cap formats b.fee_tenth_bps (market_kind_for_asset_id asset)
        then k (some b)
        else rejected OrderRejection.builder_fee_rejected

    unfoldable pub build_order : String → OrderRequest N → AssetIndex → BuildResult N
    unfolding id_of decimals_of
    build_order drawn req index =
        with_asset (id_of normalize index req.coin) (decimals_of normalize index req.coin)
          λ asset decimals. unless_rejected (validate_order req.price req.size decimals) (
            with_builder req.builder asset λ builder.
              let cloid = get_or req.cloid drawn in
              built (
                record {
                  orders = order_tuple req asset decimals cloid ∷ [];
                  grouping = na;
                  builder = builder;
                },
                cloid,
              ))

    -- The orders of the legs from the one at `i`; the first that is not valid rejects them all.
    unfoldable pub leg_orders :
        OrderRequest N → ℕ → ℕ → String → ℕ → List (TriggerSpec N) → Result (List HlOrder)
    leg_orders entry asset decimals cloid i [] = built []
    leg_orders entry asset decimals cloid i (leg ∷ legs) =
        let rest = leg_orders entry asset decimals cloid (i + 1) legs in
        unless_rejected (validate_order leg.trigger_px entry.size decimals) (
          and_then rest λ orders.
            built
              (order_tuple (leg_request entry leg) asset decimals (derive_cloid cloid i) ∷ orders))

    unfoldable pub build_bracket_order : String → BracketRequest N → AssetIndex → BuildResult N
    unfolding id_of decimals_of leg_orders
    build_bracket_order drawn req index =
        let entry = req.entry in
        with_asset (id_of normalize index entry.coin) (decimals_of normalize index entry.coin)
          λ asset decimals. unless_rejected (validate_order entry.price entry.size decimals) (
            let cloid = get_or entry.cloid drawn in
            and_then (leg_orders entry asset decimals cloid 1 (legs_of req)) λ legs.
              with_builder entry.builder asset λ builder. built (
                record {
                  orders = order_tuple entry asset decimals cloid ∷ legs;
                  grouping = get_or req.grouping normal_tpsl;
                  builder = builder;
                },
                cloid,
              ))
