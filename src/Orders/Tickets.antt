-- ===== src/Orders/Tickets.antt =====
-- The orders that mobile/src/lib/hyperliquid/buildOrder.ts builds of any ticket.
use hyper_solid.Prelude.{
  ℕ, zero, suc, String, true, ◌≡◌, refl, inl, inr, get_or, List, [], ◌∷◌, All, map, range_from,
  arith, Bool-cases, nat_eqb, leb, max, if◌then◌else◌,
}
use hyper_solid.Number.{Number}
use hyper_solid.Orders.Rules.{Formats}
use hyper_solid.Orders.Assets.{AssetIndex}
use hyper_solid.Orders.Build.{
  OrderRequest, BracketRequest, ScaleRequest, HlOrderParams, built, BuildResult, build_order,
  build_bracket_order, build_scale_levels,
}
use hyper_solid.Orders.Actions.{level_orders, build_scale_order}
use hyper_solid.Orders.Sound.{
  Builds, built-Builds, with_asset-Builds, and_then-Builds, with_builder-Builds, Tradable, FirstIs,
  Sound, build_order-Sound, build_bracket_order-Sound, level_orders-first,
}

pub data Ticket (N : Type 0) : Type 0 where
  single : OrderRequest N → Ticket N
  bracket : BracketRequest N → Ticket N
  ladder : ScaleRequest N → Ticket N

abbrev pub ticket_coin : {N : Type 0} → Ticket N → String
ticket_coin (Ticket.single req) = req.coin
ticket_coin (Ticket.bracket req) = req.entry.coin
ticket_coin (Ticket.ladder req) = req.coin

module _ {N : Type 0} where
  some_level :
      (start : N) (f : ℕ → N) (n : ℕ)
      → leb 1 n ≡ true
      → (l : N) × (ls : List N) × ((if nat_eqb n 1 then start ∷ [] else map f (range_from 0 n))
          ≡ l ∷ ls)
  some_level start f zero h = absurd (ground arith)
  some_level start f (suc n) h = elim (Bool-cases (nat_eqb (suc n) 1)) [
    | inl one ↦ (start, [], rw one refl)
    | inr more ↦ (f 0, map f (range_from 1 n), rw more refl)
  ]

module _ {N : Type 0} ⦃num : Number N⦄ (formats : Formats N) (normalize : String → String) where
  -- The action of a ticket.
  unfoldable pub build_ticket : String → Ticket N → AssetIndex → BuildResult N
  unfolding build_order build_bracket_order build_scale_order
  build_ticket drawn (Ticket.single req) index = build_order formats normalize drawn req index
  build_ticket drawn (Ticket.bracket req) index =
      build_bracket_order formats normalize drawn req index
  build_ticket drawn (Ticket.ladder req) index = build_scale_order formats normalize drawn req index

  ladder_levels :
      (req : ScaleRequest N)
      → (l : N) × (ls : List N) × (build_scale_levels req.start_px req.end_px (max 2 req.count)
          ≡ l ∷ ls)
  ladder_levels req = some_level req.start_px _ (max 1 (max 2 req.count)) (ground arith)

  ladder_orders :
      (req : ScaleRequest N) (leg_size : N) (a d : ℕ) (cloid : String)
      → Builds
          (λ orders.
            All (Tradable formats normalize a d) orders × FirstIs formats normalize cloid orders)
          (level_orders formats normalize req leg_size a d cloid 0
            (build_scale_levels req.start_px req.end_px (max 2 req.count)))
  ladder_orders req leg_size a d cloid =
      let (l, ls, levels) = ladder_levels req in
      rw levels (level_orders-first formats normalize req leg_size l a d cloid ls)

  build_scale_order-Sound :
      (drawn : String) (req : ScaleRequest N) (index : AssetIndex)
      → Builds
          (Sound formats normalize index req.coin)
          (build_scale_order formats normalize drawn req index)
  unfolding build_scale_order
  build_scale_order-Sound drawn req index =
      let P = Sound formats normalize index req.coin in
      with_asset-Builds P _ _ _ λ a d of_coin of_decimals.
        and_then-Builds P _ _ _ (ladder_orders req _ a d (get_or req.cloid drawn)) λ orders good.
          with_builder-Builds formats normalize P req.builder a _ λ b within.
            built-Builds P _ (record {
              asset = a;
              decimals = d;
              of_coin = of_coin;
              of_decimals = of_decimals;
              tradable = good.0;
              first = good.1;
              fee = within;
            })

  -- What the app sends keeps to the exchange's rules: every order of an action that is built for a
  -- ticket is on the asset that the index gives for the ticket's coin, and its texts are those of a
  -- positive price and a positive size whose product, with the size as it is rounded, is 10 dollars or
  -- more; the builder's fee is within the cap of the market; and the id that the action is tracked by
  -- is that of its first order.
  pub build_ticket-Sound :
      (drawn : String) (ticket : Ticket N) (index : AssetIndex) (made : HlOrderParams N × String)
      → build_ticket drawn ticket index ≡ built made
      → Sound formats normalize index (ticket_coin ticket) made
  unfolding build_ticket
  build_ticket-Sound drawn (Ticket.single req) index made e =
      (build_order-Sound formats normalize drawn req index).if_built made e
  build_ticket-Sound drawn (Ticket.bracket req) index made e =
      (build_bracket_order-Sound formats normalize drawn req index).if_built made e
  build_ticket-Sound drawn (Ticket.ladder req) index made e =
      (build_scale_order-Sound drawn req index).if_built made e
