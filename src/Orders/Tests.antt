-- ===== src/Orders/Tests.antt =====
-- mobile/src/lib/hyperliquid/order.ts, assetId.ts, cloid.ts and buildOrder.ts on concrete tickets.
use hyper_solid.Prelude.{String, Bool, true, false, ◌≡◌, refl, ◌⊎◌, none, some, [], ◌∷◌, string_eq}
use hyper_solid.Number.{Cents, pos, cents_number, show_ℤ}
use hyper_solid.Strategies.Types.{buy, sell}
use hyper_solid.Orders.Rules.{
  Formats, Tpsl, tp, sl, OrderRejection, strip_trailing_zeros, validate_trigger_side,
  validate_order, round_size, format_price,
}
use hyper_solid.Orders.Assets.{AssetIndex, build_spot_asset_index, derive_cloid, id_of, decimals_of}
use hyper_solid.Orders.Build.{
  OrderRequest, BracketRequest, HlOrder, HlOrderParams, limit, trigger, ioc, normal_tpsl, built,
  build_bracket_order, leg_orders,
}
use hyper_solid.Intents.Ledger.{IntentStatus, is_unknown, intent_status_from_kind}
use hyper_solid.Orders.Status.{
  RawStatus, normalize_order_status, rejection_code_from_error, error_not_live,
}
use hyper_solid.Orders.Sound.{Sound}
use hyper_solid.Orders.Tickets.{Ticket, build_ticket, build_ticket-Sound}
use hyper_solid.Orders.Brackets.{Bracketed, bracket_closes}

abbrev formats : Formats Cents
formats = record { is_integer = λ x. false; to_precision = λ x n. x; to_fixed = λ x n. "1.50" }

abbrev normalize : String → String
normalize coin = coin

abbrev index : AssetIndex
index = record { ids = ("BTC", 0) ∷ []; decimals = ("BTC", 0) ∷ []; coins = "BTC" ∷ [] }

abbrev request : OrderRequest Cents
request = record {
  coin = "BTC";
  side = buy;
  size = pos 300;
  price = pos 900;
  reduce_only = none;
  tif = none;
  market = true;
  trigger = none;
  cloid = none;
  builder = none;
}

abbrev bracket_request : BracketRequest Cents
bracket_request = record {
  entry = request;
  take_profit = some (record { trigger_px = pos 1000; is_market = none });
  stop_loss = some (record { trigger_px = pos 800; is_market = none });
  grouping = none;
}

derived :
    derive_cloid "0x000102030405060708090a0b0c0d0eFf" 258 ≡ "0x000102030405060708090a0b0c0d0ffd"
unfolding derive_cloid
derived = refl

stripped : (strip_trailing_zeros "10.500" ≡ "10.5") × (strip_trailing_zeros "7.0" ≡ "7")
unfolding strip_trailing_zeros
stripped = (refl, refl)

trigger_sides :
    (validate_trigger_side buy (pos 100) (pos 110) tp ≡ none)
    × (validate_trigger_side sell (pos 100) (pos 110) tp
        ≡ some OrderRejection.bad_trigger_px_rejected)
unfolding validate_trigger_side
trigger_sides = (refl, refl)

spot_ids :
    id_of normalize
      (build_spot_asset_index normalize
        (record { name = "PURR"; index = 3; sz_decimals = none } ∷ []))
      "PURR"
    ≡ some 10003
unfolding id_of build_spot_asset_index
spot_ids = refl

validated : validate_order (pos 900) (pos 300) 0 ≡ none
unfolding validate_order round_size
validated = refl

abbrev leg : Bool → String → Tpsl → String → HlOrder
leg is_buy price tpsl cloid = record {
  asset = 0;
  is_buy = is_buy;
  price = price;
  size = "300";
  reduce_only = true;
  kind = trigger true price tpsl;
  cloid = cloid;
}

abbrev made : HlOrderParams Cents × String
made = (
  record {
    orders =
        record {
          asset = 0;
          is_buy = true;
          price = "1.5";
          size = "300";
          reduce_only = false;
          kind = limit ioc;
          cloid = "0x00000000000000000000000000000000";
        }
        ∷ leg false "1.5" tp "0x00000000000000000000000000000001"
        ∷ leg false "1.5" sl "0x00000000000000000000000000000002"
        ∷ [];
    grouping = normal_tpsl;
    builder = none;
  },
  "0x00000000000000000000000000000000",
)

bracket_made :
    build_bracket_order formats normalize "0x00000000000000000000000000000000" bracket_request index
    ≡ built made
unfolding build_bracket_order leg_orders id_of decimals_of validate_order round_size format_price
    strip_trailing_zeros derive_cloid show_ℤ
bracket_made = refl

build_ticket-Sound_example : Sound formats normalize index "BTC" made
unfolding build_ticket
build_ticket-Sound_example =
    build_ticket-Sound formats normalize "0x00000000000000000000000000000000"
      (Ticket.bracket bracket_request) index made bracket_made

bracket_closes_example : Bracketed formats index normalize bracket_request made
bracket_closes_example =
    bracket_closes formats normalize "0x00000000000000000000000000000000" bracket_request index made
      bracket_made

-- The code of a coin that is not known is in the table of rejections but has not their ending.
unknown_asset_kind :
    (normalize_order_status (λ s. s) (RawStatus.error "unknownAsset")).kind ≡ is_unknown
unfolding normalize_order_status rejection_code_from_error
unknown_asset_kind = refl

error_not_live_example :
    (let kind = (normalize_order_status (λ s. s) (RawStatus.error "Order: tickRejected")).kind in
      (intent_status_from_kind kind ≡ IntentStatus.rejected)
      ⊎ (intent_status_from_kind kind ≡ IntentStatus.submitted))
error_not_live_example = error_not_live (λ s. s) "Order: tickRejected"
