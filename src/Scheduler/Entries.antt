-- ===== src/Scheduler/Entries.antt =====
-- The passes of `tick` that open positions by time or price: DCA, TWAP, scheduled and conditional.
use hyper_solid.Prelude.{String, Bool, false, not, ◌||◌, Option, none, some, get_or}
use hyper_solid.Number.{Number}
use hyper_solid.Strategies.Types.{Side, buy, StrategyParams, Strategy}
use hyper_solid.Strategies.Rules.{
  is_running, dca_next_run_at, twap_slice_usdc, twap_interval_ms, conditional_triggered,
  scheduled_due,
}
use hyper_solid.Strategies.Store.{record_fill, record_trigger}
use hyper_solid.Scheduler.Context.{
  Context, PlaceRequest, PlaceResult, MarkDeps, caps_ok, cloid_for, cloid_for_key,
}
use hyper_solid.Scheduler.Session.{
  Action, ◌>>=◌, ◌>>◌, skip, gets, on_store, when, unless, reading, place, record_activity,
}

module _ {N : Type 0} ⦃num : Number N⦄ where
  open num use {of_ℕ, le, is_finite}

  abbrev pub order :
      Strategy N → String → Option N → Option N → String → Side → Bool → PlaceRequest N
  order s coin size_usdc size_coin cloid side reduce_only = record {
    owner = s.owner;
    coin = coin;
    cloid = cloid;
    side = side;
    reduce_only = reduce_only;
    size_usdc = size_usdc;
    size_coin = size_coin;
  }

  -- `!Number.isFinite(mark) || mark <= 0`
  abbrev pub bad_mark : N → Bool
  bad_mark mark = not (is_finite mark) || le mark (of_ℕ 0)

module _ {N W : Type 0} ⦃num : Number N⦄ where
  open num use {of_ℕ, add, le}

  -- `if (activity && res.filledSz !== undefined && res.avgPx !== undefined) activity.record(...)`
  unfoldable pub record_entry :
      Context N W → Strategy N → String → Side → PlaceResult N → Action N W (Unit {0})
  unfolding record_activity
  record_entry cx s coin side res = elim res.filled_sz [
    | none ↦ skip
    | some sz ↦ elim res.avg_px [
      | none ↦ skip
      | some px ↦ record_activity cx (record {
        strategy_id = s.id;
        owner = s.owner;
        time = cx.now;
        coin = coin;
        side = side;
        sz = sz;
        px = px;
      })
    ]
  ]

  unfoldable pub dca_at : Context N W → Strategy N → StrategyParams N → Action N W (Unit {0})
  unfolding place record_entry
  dca_at cx s (StrategyParams.dca p) = do
    let notional = p.quote_amount_usdc
    rows ← gets (λ y. y.activity)
    unless (not (caps_ok cx notional s.owner p.coin rows)) do
      let cloid = cloid_for cx s.id (get_or s.next_run_at cx.now)
      res ← place cx (order s p.coin (some notional) none cloid buy false)
      when res.ok do
        on_store (record_fill s.id (get_or res.filled_usdc notional) (dca_next_run_at p cx.now))
        record_entry cx s p.coin p.side res
  dca_at cx s _ = skip

  unfoldable pub dca_step : Context N W → Strategy N → Action N W (Unit {0})
  unfolding dca_at
  dca_step cx s = dca_at cx s s.params

  unfoldable pub twap_at : Context N W → Strategy N → StrategyParams N → Action N W (Unit {0})
  unfolding place record_entry
  twap_at cx s (StrategyParams.twap p) = do
    let slice = twap_slice_usdc p
    unless (le slice (of_ℕ 0)) do
      rows ← gets (λ y. y.activity)
      unless (not (caps_ok cx slice s.owner p.coin rows)) do
        let cloid = cloid_for cx s.id (get_or s.next_run_at cx.now)
        res ← place cx (order s p.coin (some slice) none cloid p.side false)
        when res.ok do
          on_store
              (record_fill s.id (get_or res.filled_usdc slice) (add cx.now (twap_interval_ms p)))
          record_entry cx s p.coin p.side res
  twap_at cx s _ = skip

  unfoldable pub twap_step : Context N W → Strategy N → Action N W (Unit {0})
  unfolding twap_at
  twap_step cx s = twap_at cx s s.params

  unfoldable pub scheduled_at : Context N W → Strategy N → StrategyParams N → Action N W (Unit {0})
  unfolding place record_entry
  scheduled_at cx s (StrategyParams.scheduled p) =
      unless (not (is_running s.status) || not (scheduled_due p cx.now)) do
        rows ← gets (λ y. y.activity)
        unless (not (caps_ok cx p.size_usdc s.owner p.coin rows)) do
          let cloid = cloid_for_key cx s.id "scheduled"
          res ← place cx (order s p.coin (some p.size_usdc) none cloid p.side false)
          when res.ok do record_entry cx s p.coin p.side res; on_store (record_trigger s.id cx.now)
  scheduled_at cx s _ = skip

  unfoldable pub scheduled_step : Context N W → Strategy N → Action N W (Unit {0})
  unfolding scheduled_at
  scheduled_step cx s = scheduled_at cx s s.params

  unfoldable pub conditional_at :
      Context N W → MarkDeps N W → Strategy N → StrategyParams N → Action N W (Unit {0})
  unfolding place record_entry
  conditional_at cx marks s (StrategyParams.conditional p) = unless (not (is_running s.status)) do
    mark ← reading (marks.resolve_mark p.coin)
    unless (bad_mark mark || not (conditional_triggered p mark)) do
      rows ← gets (λ y. y.activity)
      unless (not (caps_ok cx p.size_usdc s.owner p.coin rows)) do
        let cloid = cloid_for_key cx s.id "conditional"
        res ← place cx (order s p.coin (some p.size_usdc) none cloid p.side false)
        when res.ok do record_entry cx s p.coin p.side res; on_store (record_trigger s.id cx.now)
  conditional_at cx marks s _ = skip

  unfoldable pub conditional_step : Context N W → MarkDeps N W → Strategy N → Action N W (Unit {0})
  unfolding conditional_at
  conditional_step cx marks s = conditional_at cx marks s s.params
