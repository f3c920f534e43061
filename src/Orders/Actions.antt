-- ===== src/Orders/Actions.antt =====
-- mobile/src/lib/hyperliquid/buildOrder.ts and cancel.ts: ladders, TWAPs, cancels and modifications.
use hyper_solid.Prelude.{
  ℕ, ◌+◌, min, max, String, Bool, false, not, Option, none, some, get_or, List, [], ◌∷◌, nat_eqb,
  if◌then◌else◌,
}
use hyper_solid.Number.{Number}
use hyper_solid.Strategies.Types.{Side}
use hyper_solid.Orders.Rules.{Formats, OrderRejection, round_size, validate_order}
use hyper_solid.Orders.Assets.{AssetIndex, id_of, decimals_of, derive_cloid}
use hyper_solid.Orders.Build.{
  na, OrderRequest, HlOrder, Result, built, rejected, BuildResult, ScaleRequest, and_then,
  unless_rejected, with_asset, is_buy_side, build_scale_levels, order_tuple, with_builder,
  build_order,
}

pub record TwapRequest (N : Type 0) : Type 0 where
  pub coin : String
  pub side : Side
  pub size : N
  pub minutes : ℕ
  pub randomize : Option Bool
  pub reduce_only : Option Bool

pub record TwapAction : Type 0 where
  pub asset : ℕ
  pub is_buy : Bool
  pub size : String
  pub reduce_only : Bool
  pub minutes : ℕ
  pub randomize : Bool

-- An order id or a client order id.
pub data ModifyTarget : Type 0 where
  by_oid : ℕ → ModifyTarget
  by_cloid : String → ModifyTarget

module _ {N : Type 0} where
  -- One order of a ladder.
  abbrev pub level_request : ScaleRequest N → N → N → OrderRequest N
  level_request req leg_size level = record {
    coin = req.coin;
    side = req.side;
    size = leg_size;
    price = level;
    reduce_only = req.reduce_only;
    tif = req.tif;
    market = false;
    trigger = none;
    cloid = none;
    builder = none;
  }

module _ {N : Type 0} ⦃num : Number N⦄ (formats : Formats N) (normalize : String → String) where
  open num use {of_ℕ, div, lt, show}

  unfoldable pub level_orders :
      ScaleRequest N → N → ℕ → ℕ → String → ℕ → List N → Result (List HlOrder)
  level_orders req leg_size asset decimals cloid i [] = built []
  level_orders req leg_size asset decimals cloid i (level ∷ levels) =
      let rest = level_orders req leg_size asset decimals cloid (i + 1) levels in
      unless_rejected (validate_order level leg_size decimals) (
        and_then rest λ orders. built (
          order_tuple formats normalize (level_request req leg_size level) asset decimals
            (if nat_eqb i 0 then cloid else derive_cloid cloid i)
          ∷ orders))

  unfoldable pub build_scale_order : String → ScaleRequest N → AssetIndex → BuildResult N
  unfolding id_of decimals_of level_orders
  build_scale_order drawn req index =
      with_asset (id_of normalize index req.coin) (decimals_of normalize index req.coin)
        λ asset decimals.
          let count = max 2 req.count in
          let leg_size = div req.total_size (of_ℕ count) in
          let levels = build_scale_levels req.start_px req.end_px count in
          let cloid = get_or req.cloid drawn in
          and_then (level_orders req leg_size asset decimals cloid 0 levels) λ orders.
            with_builder formats normalize req.builder asset
              λ builder. built (record { orders = orders; grouping = na; builder = builder }, cloid)

  unfoldable pub build_twap : TwapRequest N → AssetIndex → Result TwapAction
  unfolding id_of decimals_of round_size
  build_twap req index =
      with_asset (id_of normalize index req.coin) (decimals_of normalize index req.coin)
        λ asset decimals.
          let size = round_size req.size decimals in
          if not (lt (of_ℕ 0) size)
          then rejected OrderRejection.size_rejected
          else built (record {
            asset = asset;
            is_buy = is_buy_side req.side;
            size = show size;
            reduce_only = get_or req.reduce_only false;
            minutes = max 5 (min 1440 req.minutes);
            randomize = get_or req.randomize false;
          })

  abbrev pub with_id : {A : Type 0} → Option ℕ → (ℕ → A) → Result A
  with_id none k = rejected OrderRejection.unknown_asset
  with_id (some asset) k = built (k asset)

  unfoldable pub build_cancel : String → ℕ → AssetIndex → Result (List (ℕ × ℕ))
  unfolding id_of
  build_cancel coin oid index = with_id (id_of normalize index coin) λ asset. (asset, oid) ∷ []

  unfoldable pub build_cancel_by_cloid : String → String → AssetIndex → Result (List (ℕ × String))
  unfolding id_of
  build_cancel_by_cloid coin cloid index =
      with_id (id_of normalize index coin) λ asset. (asset, cloid) ∷ []

  unfoldable pub build_twap_cancel : String → ℕ → AssetIndex → Result (ℕ × ℕ)
  unfolding id_of
  build_twap_cancel coin twap_id index =
      with_id (id_of normalize index coin) λ asset. (asset, twap_id)

  unfoldable pub build_modify :
      String → ModifyTarget → OrderRequest N → AssetIndex → Result (ModifyTarget × HlOrder × String)
  unfolding build_order
  build_modify drawn target req index =
      and_then (build_order formats normalize drawn req index) λ made. elim made.0.orders [
        | [] ↦ rejected OrderRejection.unknown_asset
        | o ∷ _ ↦ built (target, o, made.1)
      ]
