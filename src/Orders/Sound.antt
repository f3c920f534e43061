-- ===== src/Orders/Sound.antt =====
-- What every action that mobile/src/lib/hyperliquid/buildOrder.ts builds keeps to.
use hyper_solid.Prelude.{
  ℕ, ◌+◌, String, true, false, ◌≡◌, refl, subst, inl, inr, Option, none, some, get_or, List, [],
  ◌∷◌, All, arith, Bool-cases,
}
use hyper_solid.Number.{Number}
use hyper_solid.Orders.Rules.{
  Formats, OrderRejection, round_size, format_price, validate_order, is_builder_fee_within_cap,
}
use hyper_solid.Orders.Assets.{AssetIndex, market_kind_for_asset_id, id_of, decimals_of}
use hyper_solid.Orders.Build.{
  OrderRequest, BracketRequest, ScaleRequest, TriggerSpec, BuilderFee, HlOrder, HlOrderParams,
  Result, built, rejected, and_then, unless_rejected, with_asset, with_builder, leg_request,
  legs_of, order_tuple, build_order, leg_orders, build_bracket_order,
}
use hyper_solid.Orders.Actions.{level_request, level_orders}

-- What is built, if anything is, has the property.
pub record Builds {A : Type 0} (P : A → Type 0) (r : Result A) : Type 0 where
  pub if_built : (a : A) → r ≡ built a → P a

module _ {A : Type 0} (P : A → Type 0) where
  pub built-Builds : (a : A) → P a → Builds P (built a)
  built-Builds a p = record { if_built = λ b e. subst Just e p }
    where
      Just : Result A → Type 0
      Just (built b) = P b
      Just (rejected r) = Unit

  pub rejected-Builds : (r : OrderRejection) → Builds P (rejected r)
  rejected-Builds r = record { if_built = λ b e. ground arith }

  pub unless_rejected-Builds :
      (o : Option OrderRejection) (r : Result A)
      → (o ≡ none → Builds P r)
      → Builds P (unless_rejected o r)
  unless_rejected-Builds none r h = h refl
  unless_rejected-Builds (some x) r h = rejected-Builds x

  pub with_asset-Builds :
      (asset decimals : Option ℕ) (k : ℕ → ℕ → Result A)
      → ((a d : ℕ) → asset ≡ some a → decimals ≡ some d → Builds P (k a d))
      → Builds P (with_asset asset decimals k)
  with_asset-Builds (some a) (some d) k h = h a d refl refl
  with_asset-Builds none d k h = rejected-Builds _
  with_asset-Builds (some a) none k h = rejected-Builds _

  pub and_then-Builds :
      {B : Type 0} (Q : B → Type 0) (r : Result B) (k : B → Result A)
      → Builds Q r
      → ((b : B) → Q b → Builds P (k b))
      → Builds P (and_then r k)
  and_then-Builds Q (built b) k q h = h b (q.if_built b refl)
  and_then-Builds Q (rejected x) k q h = rejected-Builds x

module _ {N : Type 0} ⦃num : Number N⦄ (formats : Formats N) (normalize : String → String) where
  open num use {of_ℕ, mul, lt, le, is_finite, show}

  -- A price and a size that the exchange takes: both positive, a size that does not round to nothing,
  -- and 10 dollars at least in the size that is sent.
  pub record Valid (price size : N) (decimals : ℕ) : Type 0 where
    pub price_positive : lt (of_ℕ 0) price ≡ true
    pub price_finite : is_finite price ≡ true
    pub size_positive : lt (of_ℕ 0) size ≡ true
    pub rounded_positive : le (round_size size decimals) (of_ℕ 0) ≡ false
    pub min_notional : lt (mul (round_size size decimals) price) (of_ℕ 10) ≡ false

  validate_order-Valid :
      (price size : N) (decimals : ℕ)
      → validate_order price size decimals ≡ none
      → Valid price size decimals
  unfolding validate_order
  validate_order-Valid price size decimals h = ground arith

  -- An order of this asset whose texts are those of a price and a size that are valid.
  pub record Tradable (asset decimals : ℕ) (o : HlOrder) : Type 0 where
    pub price : N
    pub size : N
    pub on_asset : o.asset ≡ asset
    pub price_text : o.price ≡ format_price formats price decimals (market_kind_for_asset_id asset)
    pub size_text : o.size ≡ show (round_size size decimals)
    pub valid : Valid price size decimals

  order_tuple-Tradable :
      (req : OrderRequest N) (asset decimals : ℕ) (cloid : String)
      → validate_order req.price req.size decimals ≡ none
      → Tradable asset decimals (order_tuple formats normalize req asset decimals cloid)
  order_tuple-Tradable req asset decimals cloid h = record {
    price = req.price;
    size = req.size;
    on_asset = refl;
    price_text = refl;
    size_text = refl;
    valid = validate_order-Valid req.price req.size decimals h;
  }

  abbrev pub WithinCap : ℕ → Option (BuilderFee N) → Type 0
  WithinCap asset none = Unit
  WithinCap asset (some b) =
      is_builder_fee_within_cap formats b.fee_tenth_bps (market_kind_for_asset_id asset) ≡ true

  pub with_builder-Builds :
      {A : Type 0} (P : A → Type 0) (o : Option (BuilderFee N)) (asset : ℕ)
      (k : Option (BuilderFee N) → Result A)
      → ((b : Option (BuilderFee N)) → WithinCap asset b → Builds P (k b))
      → Builds P (with_builder formats normalize o asset k)
  with_builder-Builds P none asset k h = h none tt
  with_builder-Builds P (some b) asset k h =
      elim (Bool-cases
        (is_builder_fee_within_cap formats b.fee_tenth_bps (market_kind_for_asset_id asset))) [
          | inl within ↦ rw within (h (some b) within)
          | inr above ↦ rw above (rejected-Builds P _)
        ]

  abbrev pub FirstIs : String → List HlOrder → Type 0
  FirstIs cloid [] = ⊥
  FirstIs cloid (o ∷ _) = o.cloid ≡ cloid

  -- An action on the coin's asset, all of whose orders the exchange takes.
  pub record Sound (index : AssetIndex) (coin : String) (made : HlOrderParams N × String)
      : Type 0 where
    pub asset : ℕ
    pub decimals : ℕ
    pub of_coin : id_of normalize index coin ≡ some asset
    pub of_decimals : decimals_of normalize index coin ≡ some decimals
    pub tradable : All (Tradable asset decimals) made.0.orders
    pub first : FirstIs made.1 made.0.orders
    pub fee : WithinCap asset made.0.builder

  more :
      {a d : ℕ} {o : HlOrder} (os : List HlOrder)
      → Tradable a d o
      → All (Tradable a d) os
      → All (Tradable a d) (o ∷ os)
  more os t ts = (t, ts)

  pub build_order-Sound :
      (drawn : String) (req : OrderRequest N) (index : AssetIndex)
      → Builds (Sound index req.coin) (build_order formats normalize drawn req index)
  unfolding build_order
  build_order-Sound drawn req index =
      with_asset-Builds (Sound index req.coin) _ _ _ λ a d of_coin of_decimals.
        unless_rejected-Builds (Sound index req.coin) _ _ λ valid.
          with_builder-Builds (Sound index req.coin) req.builder a _ λ b within.
            built-Builds (Sound index req.coin) _ (record {
              asset = a;
              decimals = d;
              of_coin = of_coin;
              of_decimals = of_decimals;
              tradable = more [] (order_tuple-Tradable req a d (get_or req.cloid drawn) valid) tt;
              first = refl;
              fee = within;
            })

  leg_orders-Tradable :
      (entry : OrderRequest N) (a d : ℕ) (cloid : String) (i : ℕ) (legs : List (TriggerSpec N))
      → Builds (All (Tradable a d)) (leg_orders formats normalize entry a d cloid i legs)
  unfolding leg_orders
  leg_orders-Tradable entry a d cloid i [] = built-Builds (All (Tradable a d)) _ tt
  leg_orders-Tradable entry a d cloid i (leg ∷ legs) =
      unless_rejected-Builds (All (Tradable a d)) _ _ λ valid.
        and_then-Builds (All (Tradable a d)) (All (Tradable a d)) _ _
          (leg_orders-Tradable entry a d cloid (i + 1) legs)
          λ orders all.
            built-Builds (All (Tradable a d)) _
              (more orders (order_tuple-Tradable (leg_request entry leg) a d _ valid) all)

  pub build_bracket_order-Sound :
      (drawn : String) (req : BracketRequest N) (index : AssetIndex)
      → Builds (Sound index req.entry.coin) (build_bracket_order formats normalize drawn req index)
  unfolding build_bracket_order
  build_bracket_order-Sound drawn req index =
      with_asset-Builds (Sound index req.entry.coin) _ _ _ λ a d of_coin of_decimals.
        unless_rejected-Builds (Sound index req.entry.coin) _ _ λ valid.
          let cloid = get_or req.entry.cloid drawn in
          and_then-Builds (Sound index req.entry.coin) (All (Tradable a d)) _ _
            (leg_orders-Tradable req.entry a d cloid 1 (legs_of req))
            λ legs all.
              with_builder-Builds (Sound index req.entry.coin) req.entry.builder a _ λ b within.
                built-Builds (Sound index req.entry.coin) _ (record {
                  asset = a;
                  decimals = d;
                  of_coin = of_coin;
                  of_decimals = of_decimals;
                  tradable = more legs (order_tuple-Tradable req.entry a d cloid valid) all;
                  first = refl;
                  fee = within;
                })

  level_orders-Tradable :
      (req : ScaleRequest N) (leg_size : N) (a d : ℕ) (cloid : String) (i : ℕ) (levels : List N)
      → Builds (All (Tradable a d)) (level_orders formats normalize req leg_size a d cloid i levels)
  unfolding level_orders
  level_orders-Tradable req leg_size a d cloid i [] = built-Builds (All (Tradable a d)) _ tt
  level_orders-Tradable req leg_size a d cloid i (level ∷ levels) =
      unless_rejected-Builds (All (Tradable a d)) _ _ λ valid.
        and_then-Builds (All (Tradable a d)) (All (Tradable a d)) _ _
          (level_orders-Tradable req leg_size a d cloid (i + 1) levels)
          λ orders all.
            built-Builds (All (Tradable a d)) _ (
              more orders (order_tuple-Tradable (level_request req leg_size level) a d _ valid) all)

  -- The first order of a ladder has the id of the whole.
  pub level_orders-first :
      (req : ScaleRequest N) (leg_size level : N) (a d : ℕ) (cloid : String) (levels : List N)
      → Builds
          (λ orders. All (Tradable a d) orders × FirstIs cloid orders)
          (level_orders formats normalize req leg_size a d cloid 0 (level ∷ levels))
  unfolding level_orders
  level_orders-first req leg_size level a d cloid levels =
      let P : List HlOrder → Type 0 = λ orders. All (Tradable a d) orders × FirstIs cloid orders in
      unless_rejected-Builds P _ _ λ valid.
        and_then-Builds P (All (Tradable a d)) _ _
          (level_orders-Tradable req leg_size a d cloid 1 levels)
          λ orders all. built-Builds P _ (
            more orders (order_tuple-Tradable (level_request req leg_size level) a d _ valid) all,
            refl,
          )
