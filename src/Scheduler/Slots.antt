-- ===== src/Scheduler/Slots.antt =====
-- The steps of server/src/engine/scheduler.ts on DCA and TWAP strategies: the order of a slot, and what
-- comes of the answer to it.
use hyper_solid.Prelude.{false, not, ◌&&◌, some, none, get_or, string_eq}
use hyper_solid.Number.{Number}
use hyper_solid.Strategies.Types.{buy, Strategy, DcaParams, TwapParams}
use hyper_solid.Strategies.Rules.{dca_next_run_at, twap_slice_usdc, twap_interval_ms}
use hyper_solid.Scheduler.Context.{Context, caps_ok, cloid_for}
use hyper_solid.Scheduler.Session.{Session}
use hyper_solid.Scheduler.Entries.{order}
use hyper_solid.Scheduler.Confirmed.{Filled, FilledSlice, Step}

module _ {N W : Type 0} ⦃num : Number N⦄ where
  open num use {add, of_ℕ, le}

  abbrev pub DcaStep : Context N W → Strategy N → DcaParams N → Session N W → Session N W → Type 0
  DcaStep cx s p y =
      Step (caps_ok cx p.quote_amount_usdc s.owner p.coin y.activity) cx
        (order s p.coin (some p.quote_amount_usdc) none
          (cloid_for cx s.id (get_or s.next_run_at cx.now)) buy false)
        y.world
        (λ res. Filled s (get_or res.filled_usdc p.quote_amount_usdc) (dca_next_run_at p cx.now)) y

  abbrev pub TwapStep : Context N W → Strategy N → TwapParams N → Session N W → Session N W → Type 0
  TwapStep cx s p y =
      let slice = twap_slice_usdc p in
      Step (not (le slice (of_ℕ 0)) && caps_ok cx slice s.owner p.coin y.activity) cx
        (order s p.coin (some slice) none (cloid_for cx s.id (get_or s.next_run_at cx.now)) p.side
          false)
        y.world
        (λ res. FilledSlice s p (get_or res.filled_usdc slice) (add cx.now (twap_interval_ms p))) y
