-- ===== src/Scheduler/RestingAllowed.antt =====
-- What the resting-grid pass may send: proofs for server/src/engine/scheduler.ts.
use hyper_solid.Prelude.{
  ℕ, String, true, false, not, ◌||◌, ◌≡◌, refl, inl, inr, Option, none, some, List, [], ◌∷◌, arith,
  if◌then◌else◌, Dict,
}
use hyper_solid.Number.{Number}
use hyper_solid.Strategies.Types.{Side, buy, sell, StrategyParams, Strategy, GridLimitParams}
use hyper_solid.Strategies.Rules.{is_running}
use hyper_solid.Strategies.GridLimit.{RungState, rung_size_coin, rung_short_size_coin}
use hyper_solid.Scheduler.Context.{
  Context, Effect, MarkDeps, OpenOrders, RestingExecutor, CloidFill, Activity, caps_ok,
}
use hyper_solid.Scheduler.Session.{Call, rested}
use hyper_solid.Scheduler.Rungs.{
  Desk, limit_order, get_open, get_fills, place_exit, place_entry, place_sell, place_tp_buy,
}
use hyper_solid.Scheduler.Resting.{
  arm, entry_filled, exit_filled, rung_step, reconcile, grid_limit_at, send_cancels,
}
use hyper_solid.Scheduler.Drain.{drain, drain_rung}
use hyper_solid.Scheduler.Tick.{grid_limit_pass}
use hyper_solid.Scheduler.Sends.{
  Sends, >>=-Sends, unless-Sends, skip-Sends, for_each-Sends, branch-Sends, place_limit-Sends,
  cancel_many-Sends, modify-Sends, quiet,
}
use hyper_solid.Scheduler.Allowed.{Allowed, caps_ok-within}

module _ {N W : Type 0} ⦃num : Number N⦄ where
  open num use {of_ℕ, lt, div}

  get_open-Sends :
      (P : Call N → Type 0) (reader : String → Effect W (OpenOrders N)) (owner : String)
      → Sends P (get_open reader owner)
  unfolding get_open
  get_open-Sends P reader owner = search (quiet, modify-Sends) depth 10

  get_fills-Sends :
      (P : Call N → Type 0) (reader : Option (String → Effect W (Dict String (CloidFill N))))
      (owner : String)
      → Sends P (get_fills reader owner)
  unfolding get_fills
  get_fills-Sends P none owner = search quiet
  get_fills-Sends P (some reader) owner = search (quiet, modify-Sends) depth 10

  rest_exit-Allowed :
      (cx : Context N W) (d : Desk N W) (price size : N) (side : Side) (cloid : String)
      → cx.kill_switch ≡ false
      → Allowed cx (rested (limit_order d price size side true cloid))
  rest_exit-Allowed cx d price size side cloid h = (h, inl refl)

  place_exit-Sends :
      (cx : Context N W) (d : Desk N W) (i : ℕ) (r : RungState N) (side : Side) (price size : N)
      → cx.kill_switch ≡ false
      → Sends (Allowed cx) (place_exit cx d i r side price size)
  unfolding place_exit
  place_exit-Sends cx d i r side price size h =
      search (quiet, branch-Sends, place_limit-Sends, rest_exit-Allowed) depth 12

  rest_entry-Allowed :
      (cx : Context N W) (d : Desk N W) (price size : N) (side : Side) (cloid : String)
      (rows : List (Activity N))
      → not (caps_ok cx d.params.per_level_usdc d.strategy.owner d.params.coin rows) ≡ false
      → size ≡ (if lt (of_ℕ 0) price then div d.params.per_level_usdc price else of_ℕ 0)
      → Allowed cx (rested (limit_order d price size side false cloid))
  rest_entry-Allowed cx d price size side cloid rows h e =
      let c =
        caps_ok-within cx d.params.per_level_usdc d.strategy.owner d.params.coin rows
          (ground arith) in
      (c.0, inr (d.params.per_level_usdc, e, c.1))

  place_entry-Sends :
      (cx : Context N W) (d : Desk N W) (i : ℕ) (r : RungState N) (side : Side) (price size : N)
      → size ≡ (if lt (of_ℕ 0) price then div d.params.per_level_usdc price else of_ℕ 0)
      → Sends (Allowed cx) (place_entry cx d i r side price size)
  unfolding place_entry
  place_entry-Sends cx d i r side price size e =
      search (quiet, branch-Sends, unless-Sends, place_limit-Sends, rest_entry-Allowed) depth 14

  arm-Sends :
      (cx : Context N W) (d : Desk N W) (mark : N) (i : ℕ) (r : RungState N)
      → cx.kill_switch ≡ false
      → Sends (Allowed cx) (arm cx d mark i r)
  unfolding arm rung_size_coin rung_short_size_coin
  arm-Sends cx d mark i r h =
      search
        (
          quiet,
          branch-Sends,
          unless-Sends,
          place_exit-Sends,
          place_entry-Sends cx d i r buy _ _ refl,
          place_entry-Sends cx d i r sell _ _ refl,
        )
        depth 10

  entry_filled-Sends :
      (cx : Context N W) (d : Desk N W) (i : ℕ) (r : RungState N) (fill : Option (CloidFill N))
      → cx.kill_switch ≡ false
      → Sends (Allowed cx) (entry_filled cx d i r fill)
  unfolding entry_filled place_sell place_tp_buy
  entry_filled-Sends cx d i r fill h = search (quiet, branch-Sends, place_exit-Sends) depth 10

  exit_filled-Sends :
      (cx : Context N W) (d : Desk N W) (mark : N) (i : ℕ) (r : RungState N)
      (fill : Option (CloidFill N))
      → cx.kill_switch ≡ false
      → Sends (Allowed cx) (exit_filled cx d mark i r fill)
  unfolding exit_filled
  exit_filled-Sends cx d mark i r fill h = search (quiet, arm-Sends) depth 10

  rung_step-Sends :
      (cx : Context N W) (d : Desk N W) (mark : N) (stored : Dict ℕ (RungState N)) (i : ℕ)
      → cx.kill_switch ≡ false
      → Sends (Allowed cx) (rung_step cx d mark stored i)
  unfolding rung_step
  rung_step-Sends cx d mark stored i h =
      search
        (quiet, branch-Sends, get_fills-Sends, entry_filled-Sends, exit_filled-Sends, arm-Sends)
        depth 10

  reconcile-Sends :
      (cx : Context N W) (exec : RestingExecutor N W) (reader : String → Effect W (OpenOrders N))
      (marks : MarkDeps N W) (s : Strategy N) (p : GridLimitParams N)
      → cx.kill_switch ≡ false
      → Sends (Allowed cx) (reconcile cx exec reader marks s p)
  unfolding reconcile
  reconcile-Sends cx exec reader marks s p h =
      search (quiet, unless-Sends, get_open-Sends, for_each-Sends, rung_step-Sends) depth 14

  drain-Sends :
      (P : Call N → Type 0) (cx : Context N W) (reader : String → Effect W (OpenOrders N))
      (s : Strategy N) (p : GridLimitParams N)
      → Sends P (drain cx reader s p)
  unfolding drain drain_rung
  drain-Sends P cx reader s p =
      search (quiet, unless-Sends, get_open-Sends, for_each-Sends, modify-Sends) depth 14

  grid_limit_at-Sends :
      (cx : Context N W) (exec : RestingExecutor N W) (reader : String → Effect W (OpenOrders N))
      (marks : MarkDeps N W) (s : Strategy N) (q : StrategyParams N)
      → Sends (Allowed cx) (grid_limit_at cx exec reader marks s q)
  unfolding grid_limit_at
  grid_limit_at-Sends cx exec reader marks s (StrategyParams.grid_limit p) =
      branch-Sends _ (cx.kill_switch || not (is_running s.status)) _ _
        (λ _. drain-Sends (Allowed cx) cx reader s p)
        (λ h. reconcile-Sends cx exec reader marks s p (ground arith))
  grid_limit_at-Sends cx exec reader marks s _ = skip-Sends _

  send_cancels-Sends :
      (cx : Context N W) (exec : RestingExecutor N W)
      (cancels : Dict String (List (String × String)))
      → Sends (Allowed cx) (send_cancels exec cancels)
  unfolding send_cancels
  send_cancels-Sends cx exec [] = skip-Sends _
  send_cancels-Sends cx exec ((owner, ids) ∷ rest) =
      >>=-Sends _ _ _ (cancel_many-Sends _ exec _ tt) (λ _. send_cancels-Sends cx exec rest)

  pub grid_limit_pass-Sends :
      (cx : Context N W) (exec : RestingExecutor N W) (reader : String → Effect W (OpenOrders N))
      (marks : MarkDeps N W) (all : List (Strategy N))
      → Sends (Allowed cx) (grid_limit_pass cx exec reader marks all)
  unfolding grid_limit_pass
  grid_limit_pass-Sends cx exec reader marks all =
      search (quiet, modify-Sends, for_each-Sends, grid_limit_at-Sends, send_cancels-Sends) depth 12
