-- ===== src/Scheduler/Allowed.antt =====
-- What a tick may send: proofs for server/src/engine/scheduler.ts.
use hyper_solid.Prelude.{
  String, true, false, not, ◌≡◌, refl, ◌⊎◌, inl, inr, Option, none, some, List, arith,
  if◌then◌else◌,
}
use hyper_solid.Number.{Number}
use hyper_solid.Strategies.Types.{Side, buy, sell, StrategyParams, Strategy, GridParams}
use hyper_solid.Strategies.Rules.{within_caps}
use hyper_solid.Scheduler.Context.{Context, MarkDeps, Activity, caps_ok, risk_input}
use hyper_solid.Scheduler.Session.{Call, placed, rested, cancelled}
use hyper_solid.Scheduler.Entries.{order, dca_at, twap_at, scheduled_at, conditional_at}
use hyper_solid.Scheduler.Stops.{close_position, tpsl_at, trailing_at}
use hyper_solid.Scheduler.Grid.{
  grid_symmetric, long_only_order, long_only_action, grid_long_only, grid_at,
}
use hyper_solid.Scheduler.Sends.{Sends, unless-Sends, place-Sends, skip-Sends, branch-Sends, quiet}

module _ {N W : Type 0} ⦃num : Number N⦄ where
  open num use {of_ℕ, lt, div}

  -- An order is sent only with the kill switch off; one that can open a position has a notional
  -- within the caps on a single order, and a resting one has its size by that notional at its price.
  abbrev pub Allowed : Context N W → Call N → Type 0
  Allowed cx (placed req) =
      (cx.kill_switch ≡ false)
      × ((req.reduce_only ≡ true)
          ⊎ ((usdc : N) × (req.size_usdc ≡ some usdc)
              × ((within_caps (risk_input cx usdc req.coin) cx.limits).ok ≡ true)))
  Allowed cx (rested req) =
      (cx.kill_switch ≡ false)
      × ((req.reduce_only ≡ true)
          ⊎ ((usdc : N) × (req.size_coin
                ≡ (if lt (of_ℕ 0) req.price then div usdc req.price else of_ℕ 0))
              × ((within_caps (risk_input cx usdc req.coin) cx.limits).ok ≡ true)))
  Allowed cx (cancelled req) = Unit

  pub caps_ok-within :
      (cx : Context N W) (notional : N) (owner coin : String) (rows : List _)
      → caps_ok cx notional owner coin rows ≡ true
      → (cx.kill_switch ≡ false) × ((within_caps (risk_input cx notional coin) cx.limits).ok ≡ true)
  unfolding caps_ok within_caps
  caps_ok-within cx notional owner coin rows h = ground arith

  entry-Allowed :
      (cx : Context N W) (s : Strategy N) (coin : String) (usdc : N) (cloid : String) (side : Side)
      (rows : List (Activity N))
      → not (caps_ok cx usdc s.owner coin rows) ≡ false
      → Allowed cx (placed (order s coin (some usdc) none cloid side false))
  entry-Allowed cx s coin usdc cloid side rows h =
      let c = caps_ok-within cx usdc s.owner coin rows (ground arith) in
      (c.0, inr (usdc, refl, c.1))

  ruleset entering = (quiet, unless-Sends, place-Sends, entry-Allowed)

  pub dca_at-Sends :
      (cx : Context N W) (s : Strategy N) (q : StrategyParams N)
      → Sends (Allowed cx) (dca_at cx s q)
  unfolding dca_at
  dca_at-Sends cx s (StrategyParams.dca p) = search entering depth 12
  dca_at-Sends cx s _ = skip-Sends _

  pub twap_at-Sends :
      (cx : Context N W) (s : Strategy N) (q : StrategyParams N)
      → Sends (Allowed cx) (twap_at cx s q)
  unfolding twap_at
  twap_at-Sends cx s (StrategyParams.twap p) = search entering depth 12
  twap_at-Sends cx s _ = skip-Sends _

  pub scheduled_at-Sends :
      (cx : Context N W) (s : Strategy N) (q : StrategyParams N)
      → Sends (Allowed cx) (scheduled_at cx s q)
  unfolding scheduled_at
  scheduled_at-Sends cx s (StrategyParams.scheduled p) = search entering depth 12
  scheduled_at-Sends cx s _ = skip-Sends _

  pub conditional_at-Sends :
      (cx : Context N W) (marks : MarkDeps N W) (s : Strategy N) (q : StrategyParams N)
      → Sends (Allowed cx) (conditional_at cx marks s q)
  unfolding conditional_at
  conditional_at-Sends cx marks s (StrategyParams.conditional p) = search entering depth 16
  conditional_at-Sends cx marks s _ = skip-Sends _

  close-Allowed :
      (cx : Context N W) (s : Strategy N) (coin : String) (size : N) (cloid : String) (side : Side)
      → cx.kill_switch ≡ false
      → Allowed cx (placed (order s coin none (some size) cloid side true))
  close-Allowed cx s coin size cloid side h = (h, inl refl)

  close_position-Sends :
      (cx : Context N W) (s : Strategy N) (coin : String) (szi : N)
      → cx.kill_switch ≡ false
      → Sends (Allowed cx) (close_position cx s coin szi)
  unfolding close_position
  close_position-Sends cx s coin szi h = search (quiet, place-Sends, close-Allowed) depth 12

  ruleset closing = (quiet, unless-Sends, close_position-Sends)

  pub tpsl_at-Sends :
      (cx : Context N W) (marks : MarkDeps N W) (s : Strategy N) (q : StrategyParams N)
      → Sends (Allowed cx) (tpsl_at cx marks s q)
  unfolding tpsl_at
  tpsl_at-Sends cx marks s (StrategyParams.tpsl p) = search closing depth 16
  tpsl_at-Sends cx marks s _ = skip-Sends _

  pub trailing_at-Sends :
      (cx : Context N W) (marks : MarkDeps N W) (s : Strategy N) (q : StrategyParams N)
      → Sends (Allowed cx) (trailing_at cx marks s q)
  unfolding trailing_at
  trailing_at-Sends cx marks s (StrategyParams.trailing p) = search closing depth 18
  trailing_at-Sends cx marks s _ = skip-Sends _

  grid_symmetric-Sends :
      (cx : Context N W) (marks : MarkDeps N W) (s : Strategy N) (p : GridParams N) (mark band : N)
      → Sends (Allowed cx) (grid_symmetric cx marks s p mark band)
  unfolding grid_symmetric
  grid_symmetric-Sends cx marks s p mark band =
      search (quiet, unless-Sends, branch-Sends, place-Sends, entry-Allowed) depth 16

  long_only_buy-Sends :
      (cx : Context N W) (s : Strategy N) (coin : String) (usdc level : N)
      (rows : List (Activity N))
      → not (caps_ok cx usdc s.owner coin rows) ≡ false
      → Sends (Allowed cx) (long_only_order cx s coin usdc level buy)
  unfolding long_only_order
  long_only_buy-Sends cx s coin usdc level rows h =
      search (quiet, place-Sends, entry-Allowed) depth 12

  reduce-Allowed :
      (cx : Context N W) (s : Strategy N) (coin : String) (size : N) (cloid : String) (side : Side)
      → cx.kill_switch ≡ false
      → Allowed cx (placed (order s coin (some size) none cloid side true))
  reduce-Allowed cx s coin size cloid side h = (h, inl refl)

  long_only_sell-Sends :
      (cx : Context N W) (s : Strategy N) (coin : String) (usdc level : N)
      → cx.kill_switch ≡ false
      → Sends (Allowed cx) (long_only_order cx s coin usdc level sell)
  unfolding long_only_order
  long_only_sell-Sends cx s coin usdc level h = search (quiet, place-Sends, reduce-Allowed) depth 12

  long_only_action-Sends :
      (cx : Context N W) (marks : MarkDeps N W) (s : Strategy N) (coin : String) (usdc level : N)
      (side : Side)
      → cx.kill_switch ≡ false
      → Sends (Allowed cx) (long_only_action cx marks s coin usdc level side)
  unfolding long_only_action
  long_only_action-Sends cx marks s coin usdc level buy h =
      search (quiet, unless-Sends, long_only_buy-Sends) depth 12
  long_only_action-Sends cx marks s coin usdc level sell h =
      search (quiet, branch-Sends, long_only_sell-Sends) depth 12

  grid_long_only-Sends :
      (cx : Context N W) (marks : MarkDeps N W) (s : Strategy N) (p : GridParams N) (band : N)
      (last : Option N)
      → cx.kill_switch ≡ false
      → Sends (Allowed cx) (grid_long_only cx marks s p band last)
  unfolding grid_long_only
  grid_long_only-Sends cx marks s p band none h = search quiet
  grid_long_only-Sends cx marks s p band (some last) h =
      search (quiet, unless-Sends, long_only_action-Sends) depth 12

  pub grid_at-Sends :
      (cx : Context N W) (marks : MarkDeps N W) (s : Strategy N) (q : StrategyParams N)
      → Sends (Allowed cx) (grid_at cx marks s q)
  unfolding grid_at
  grid_at-Sends cx marks s (StrategyParams.grid p) =
      search (quiet, unless-Sends, branch-Sends, grid_symmetric-Sends, grid_long_only-Sends) depth
        16
  grid_at-Sends cx marks s _ = skip-Sends _
