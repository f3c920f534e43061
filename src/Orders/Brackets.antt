-- ===== src/Orders/Brackets.antt =====
-- The brackets that mobile/src/lib/hyperliquid/buildOrder.ts builds: an entry and the legs that close it.
use hyper_solid.Prelude.{
  ℕ, ◌+◌, String, Bool, true, not, Option, none, some, ◌++◌, ◌∙◌, ◌≡◌, refl, ap, get_or, List, [],
  ◌∷◌,
}
use hyper_solid.Number.{Number}
use hyper_solid.Strategies.Types.{Side, buy, sell}
use hyper_solid.Orders.Rules.{Tpsl, tp, sl, format_price, Formats, validate_order}
use hyper_solid.Orders.Assets.{
  market_kind_for_asset_id, AssetIndex, id_of, decimals_of, derive_cloid,
}
use hyper_solid.Orders.Build.{
  OrderRequest, BracketRequest, Leg, leg_of, TriggerSpec, trigger, HlOrder, HlOrderParams, built,
  is_buy_side, closing_side, legs_of, leg_request, order_tuple, leg_orders, build_bracket_order,
}
use hyper_solid.Orders.Sound.{
  Builds, built-Builds, unless_rejected-Builds, with_asset-Builds, and_then-Builds,
  with_builder-Builds,
}

is_buy-closing_side : (side : Side) → is_buy_side (closing_side side) ≡ not (is_buy_side side)
is_buy-closing_side buy = refl
is_buy-closing_side sell = refl

module _ {N : Type 0} ⦃num : Number N⦄ (formats : Formats N) where
  -- `leg` can only close what `entry` opens, all of it, as the take-profit or the stop-loss that the
  -- label says, once the price `px` is reached. Its id is the one derived for the number `i`.
  pub record Closes (entry : HlOrder) (decimals : ℕ) (label : Tpsl) (market : Bool) (px : N) (i : ℕ)
      (leg : HlOrder) : Type 0 where
    pub only_reduces : leg.reduce_only ≡ true
    pub other_side : leg.is_buy ≡ not entry.is_buy
    pub same_size : leg.size ≡ entry.size
    pub same_asset : leg.asset ≡ entry.asset
    pub triggered :
        leg.kind
        ≡ trigger market
            (format_price formats px decimals (market_kind_for_asset_id entry.asset))
            label
    pub own_id : leg.cloid ≡ derive_cloid entry.cloid i

  -- The legs after an entry, by the profit and the loss that are asked for.
  abbrev pub Legs : HlOrder → ℕ → Option (Leg N) → Option (Leg N) → List HlOrder → Type 0
  Legs entry d none none legs = legs ≡ []
  Legs entry d (some p) none legs =
      (leg : HlOrder) × (legs ≡ leg ∷ [])
      × Closes entry d tp (get_or p.is_market true) p.trigger_px 1 leg
  Legs entry d none (some l) legs =
      (leg : HlOrder) × (legs ≡ leg ∷ [])
      × Closes entry d sl (get_or l.is_market true) l.trigger_px 1 leg
  Legs entry d (some p) (some l) legs =
      (profit : HlOrder) × (loss : HlOrder) × (legs ≡ profit ∷ loss ∷ [])
      × Closes entry d tp (get_or p.is_market true) p.trigger_px 1 profit
      × Closes entry d sl (get_or l.is_market true) l.trigger_px 2 loss

  pub record Bracketed (index : AssetIndex) (normalize : String → String) (req : BracketRequest N)
      (made : HlOrderParams N × String) : Type 0 where
    pub decimals : ℕ
    pub of_decimals : decimals_of normalize index req.entry.coin ≡ some decimals
    pub entry : HlOrder
    pub legs : List HlOrder
    pub orders : made.0.orders ≡ entry ∷ legs
    pub opens : entry.is_buy ≡ is_buy_side req.entry.side
    pub tracked : made.1 ≡ entry.cloid
    pub closing : Legs entry decimals req.take_profit req.stop_loss legs

  -- The orders of these legs, from the one at `i`.
  abbrev Matches : HlOrder → ℕ → ℕ → List (TriggerSpec N) → List HlOrder → Type 0
  Matches entry d i [] os = os ≡ []
  Matches entry d i (t ∷ ts) os =
      (o : HlOrder) × (rest : List HlOrder) × (os ≡ o ∷ rest)
      × Closes entry d t.tpsl t.is_market t.trigger_px i o
      × Matches entry d (i + 1) ts rest

  Matches-Legs :
      (entry : HlOrder) (d : ℕ) (p l : Option (Leg N)) (os : List HlOrder)
      → Matches entry d 1 (leg_of tp p ++ leg_of sl l) os
      → Legs entry d p l os
  Matches-Legs entry d none none os h = h
  Matches-Legs entry d (some p) none os (o, rest, e, c, e') = (o, e ∙ ap (λ r. o ∷ r) e', c)
  Matches-Legs entry d none (some l) os (o, rest, e, c, e') = (o, e ∙ ap (λ r. o ∷ r) e', c)
  Matches-Legs entry d (some p) (some l) os (o, rest, e, c, (o', rest', e', c', e'')) =
      (o, o', e ∙ ap (λ r. o ∷ r) (e' ∙ ap (λ r. o' ∷ r) e''), c, c')

  module _ (normalize : String → String) where
    leg_tuple-Closes :
        (entry : OrderRequest N) (leg : TriggerSpec N) (a d : ℕ) (cloid : String) (i : ℕ)
        → Closes
            (order_tuple formats normalize entry a d cloid)
            d
            leg.tpsl
            leg.is_market
            leg.trigger_px
            i
            (order_tuple formats normalize (leg_request entry leg) a d (derive_cloid cloid i))
    leg_tuple-Closes entry leg a d cloid i = record {
      only_reduces = refl;
      other_side = is_buy-closing_side entry.side;
      same_size = refl;
      same_asset = refl;
      triggered = refl;
      own_id = refl;
    }

    leg_orders-Matches :
        (entry : OrderRequest N) (a d : ℕ) (cloid : String) (i : ℕ) (legs : List (TriggerSpec N))
        → Builds
            (Matches (order_tuple formats normalize entry a d cloid) d i legs)
            (leg_orders formats normalize entry a d cloid i legs)
    unfolding leg_orders
    leg_orders-Matches entry a d cloid i [] = built-Builds _ [] refl
    leg_orders-Matches entry a d cloid i (leg ∷ legs) =
        let P = Matches (order_tuple formats normalize entry a d cloid) d i (leg ∷ legs) in
        let o = order_tuple formats normalize (leg_request entry leg) a d (derive_cloid cloid i) in
        unless_rejected-Builds P (validate_order leg.trigger_px entry.size d) _ λ valid.
          and_then-Builds P _ _ (λ orders. built (o ∷ orders))
            (leg_orders-Matches entry a d cloid (i + 1) legs)
            λ orders good.
              built-Builds P (o ∷ orders)
                (o, orders, refl, leg_tuple-Closes entry leg a d cloid i, good)

    build_bracket_order-Bracketed :
        (drawn : String) (req : BracketRequest N) (index : AssetIndex)
        → Builds
            (Bracketed index normalize req)
            (build_bracket_order formats normalize drawn req index)
    unfolding build_bracket_order
    build_bracket_order-Bracketed drawn req index =
        let P = Bracketed index normalize req in
        let cloid = get_or req.entry.cloid drawn in
        with_asset-Builds P (id_of normalize index req.entry.coin)
          (decimals_of normalize index req.entry.coin) _
          λ a d of_coin of_decimals.
            unless_rejected-Builds P (validate_order req.entry.price req.entry.size d) _ λ valid.
              and_then-Builds P
                (Matches (order_tuple formats normalize req.entry a d cloid) d 1 (legs_of req)) _ _
                (leg_orders-Matches req.entry a d cloid 1 (legs_of req))
                λ legs good.
                  with_builder-Builds formats normalize P req.entry.builder a _ λ b within.
                    built-Builds P _ (record {
                      decimals = d;
                      of_decimals = of_decimals;
                      entry = order_tuple formats normalize req.entry a d cloid;
                      legs = legs;
                      orders = refl;
                      opens = refl;
                      tracked = refl;
                      closing = Matches-Legs _ d req.take_profit req.stop_loss legs good;
                    })

    -- The legs of a bracket only close. In the action that is built the entry is on the side that is
    -- asked for and has the id that the action is tracked by. After it come a leg labelled take-profit
    -- where the request has a profit, and then a leg labelled stop-loss where it has a loss, and
    -- nothing else. Each is a reduce-only trigger on the other side, for the entry's asset and the
    -- whole of its size, at the trigger price asked for it as the coin's decimals write it, at market
    -- unless the request says otherwise, under an id derived from the entry's and its number.
    pub bracket_closes :
        (drawn : String) (req : BracketRequest N) (index : AssetIndex)
        (made : HlOrderParams N × String)
        → build_bracket_order formats normalize drawn req index ≡ built made
        → Bracketed index normalize req made
    bracket_closes drawn req index made e =
        (build_bracket_order-Bracketed drawn req index).if_built made e
