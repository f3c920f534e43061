-- ===== src/Scheduler/Grid.antt =====
-- The pass of `tick` for the grid that trades as the mark crosses its lines.
use hyper_solid.Prelude.{String, Bool, true, false, not, Option, none, some, get_or, if◌then◌else◌}
use hyper_solid.Number.{Number}
use hyper_solid.Strategies.Types.{
  Side, buy, sell, Mode, symmetric, StrategyParams, Strategy, GridParams,
}
use hyper_solid.Strategies.Rules.{is_running, grid_step, band_index, grid_action, target_net_usdc}
use hyper_solid.Strategies.Store.{seed_grid_level, record_grid_action}
use hyper_solid.Scheduler.Context.{Context, MarkDeps, caps_ok, cloid_for}
use hyper_solid.Scheduler.Session.{
  Action, ◌>>=◌, ◌>>◌, skip, gets, on_store, when, unless, with_some, reading, place,
}
use hyper_solid.Scheduler.Entries.{order, bad_mark, record_entry}

abbrev pub is_symmetric : Option Mode → Bool
is_symmetric (some symmetric) = true
is_symmetric _ = false

abbrev pub is_buy : Side → Bool
is_buy buy = true
is_buy sell = false

module _ {N : Type 0} ⦃num : Number N⦄ where
  open num use {of_ℕ, eq, le}

  -- `MIN_GRID_NOTIONAL`
  abbrev pub min_grid_notional : N
  min_grid_notional = of_ℕ 10

  -- `s.lastLevel === curBand`
  abbrev pub same_level : Option N → N → Bool
  same_level none band = false
  same_level (some level) band = eq level band

  -- `szi === undefined || szi <= 0`
  abbrev pub no_long : Option N → Bool
  no_long none = true
  no_long (some szi) = le szi (of_ℕ 0)

module _ {N W : Type 0} ⦃num : Number N⦄ where
  open num use {of_ℕ, sub, mul, lt, le, abs}

  -- `cloidFor(s.id, s.actionsDone ?? 0)`
  abbrev pub grid_cloid : Context N W → Strategy N → String
  grid_cloid cx s = cloid_for cx s.id (of_ℕ (get_or s.actions_done 0))

  unfoldable pub grid_symmetric :
      Context N W → MarkDeps N W → Strategy N → GridParams N → N → N → Action N W (Unit {0})
  unfolding place record_entry
  grid_symmetric cx marks s p mark cur_band = unless (same_level s.last_level cur_band) do
    let target = target_net_usdc cur_band p.levels p.per_level_usdc
    position ← reading (marks.resolve_position s.owner p.coin)
    let delta_usdc = sub target (mul (get_or position (of_ℕ 0)) mark)
    let size_usdc = abs delta_usdc
    if lt size_usdc min_grid_notional then on_store (seed_grid_level s.id cur_band) else do
      let side = if le (of_ℕ 0) delta_usdc then buy else sell
      rows ← gets (λ y. y.activity)
      unless (not (caps_ok cx size_usdc s.owner p.coin rows)) do
        res ← place cx (order s p.coin (some size_usdc) none (grid_cloid cx s) side false)
        when res.ok do
          let bought = if is_buy side then get_or res.filled_usdc size_usdc else of_ℕ 0
          on_store (record_grid_action s.id cur_band bought)
          record_entry cx s p.coin side res

  unfoldable pub long_only_order :
      Context N W → Strategy N → String → N → N → Side → Action N W (Unit {0})
  unfolding place record_entry
  long_only_order cx s coin usdc target_level side = do
    res ← place cx (order s coin (some usdc) none (grid_cloid cx s) side (not (is_buy side)))
    when res.ok do
      let bought = if is_buy side then get_or res.filled_usdc usdc else of_ℕ 0
      on_store (record_grid_action s.id target_level bought)
      record_entry cx s coin side res

  -- A buy wants room under the caps; a sell wants a long position to reduce.
  unfoldable pub long_only_action :
      Context N W → MarkDeps N W → Strategy N → String → N → N → Side → Action N W (Unit {0})
  unfolding long_only_order
  long_only_action cx marks s coin usdc target_level buy = do
    rows ← gets (λ y. y.activity)
    unless (not (caps_ok cx usdc s.owner coin rows))
        (long_only_order cx s coin usdc target_level buy)
  long_only_action cx marks s coin usdc target_level sell = do
    position ← reading (marks.resolve_position s.owner coin)
    if no_long position
        then on_store (seed_grid_level s.id target_level)
        else long_only_order cx s coin usdc target_level sell

  unfoldable pub grid_long_only :
      Context N W → MarkDeps N W → Strategy N → GridParams N → N → Option N → Action N W (Unit {0})
  unfolding long_only_action
  grid_long_only cx marks s p cur_band none = on_store (seed_grid_level s.id cur_band)
  grid_long_only cx marks s p cur_band (some last) =
      with_some (grid_action last cur_band p.per_level_usdc) λ act.
        unless (le act.usdc (of_ℕ 0))
          (long_only_action cx marks s p.coin act.usdc act.target_level act.side)

  unfoldable pub grid_at :
      Context N W → MarkDeps N W → Strategy N → StrategyParams N → Action N W (Unit {0})
  unfolding grid_symmetric grid_long_only
  grid_at cx marks s (StrategyParams.grid p) = unless (not (is_running s.status)) do
    unless cx.kill_switch do
      mark ← reading (marks.resolve_mark p.coin)
      unless (bad_mark mark) do
        let cur_band = band_index mark p.lower_price (grid_step p) p.levels
        if is_symmetric p.mode
            then grid_symmetric cx marks s p mark cur_band
            else grid_long_only cx marks s p cur_band s.last_level
  grid_at cx marks s _ = skip

  unfoldable pub grid_step_of : Context N W → MarkDeps N W → Strategy N → Action N W (Unit {0})
  unfolding grid_at
  grid_step_of cx marks s = grid_at cx marks s s.params
