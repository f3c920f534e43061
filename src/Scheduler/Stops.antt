-- ===== src/Scheduler/Stops.antt =====
-- The passes of `tick` that close a position with a reduce-only order: take profit and stop loss, and
-- the trailing stop.
use hyper_solid.Prelude.{String, Bool, true, not, Option, none, some}
use hyper_solid.Number.{Number}
use hyper_solid.Strategies.Types.{StrategyParams, Strategy}
use hyper_solid.Strategies.Rules.{
  is_running, tpsl_triggered, close_side, update_trail_peak, trailing_triggered,
}
use hyper_solid.Strategies.Store.{record_trigger, set_trail_peak}
use hyper_solid.Scheduler.Context.{Context, PlaceResult, MarkDeps, cloid_for}
use hyper_solid.Scheduler.Session.{
  Action, ◌>>=◌, ◌>>◌, skip, on_store, when, unless, with_some, reading, place,
}
use hyper_solid.Scheduler.Entries.{order, bad_mark, record_entry}

module _ {N : Type 0} ⦃num : Number N⦄ where
  open num use {of_ℕ, add, div, le, eq, abs}

  -- `res.filledSz === undefined || res.filledSz + 1e-9 >= Math.abs(szi)`
  unfoldable pub covered : PlaceResult N → N → Bool
  covered res szi = elim res.filled_sz [
    | none ↦ true
    | some sz ↦ le (abs szi) (add sz (div (of_ℕ 1) (of_ℕ 1_000_000_000)))
  ]

  -- `peak !== s.trailPeak`
  abbrev pub peak_moved : N → Option N → Bool
  peak_moved peak none = true
  peak_moved peak (some old) = not (eq peak old)

module _ {N W : Type 0} ⦃num : Number N⦄ where
  open num use {of_ℕ, eq, abs}

  -- What both passes do once triggered.
  unfoldable pub close_position : Context N W → Strategy N → String → N → Action N W (Unit {0})
  unfolding place record_entry covered
  close_position cx s coin szi = do
    let side = close_side szi
    res ← place cx (order s coin none (some (abs szi)) (cloid_for cx s.id cx.now) side true)
    when res.ok do
      record_entry cx s coin side res
      when (covered res szi) (on_store (record_trigger s.id cx.now))

  unfoldable pub tpsl_at :
      Context N W → MarkDeps N W → Strategy N → StrategyParams N → Action N W (Unit {0})
  unfolding close_position
  tpsl_at cx marks s (StrategyParams.tpsl p) = unless (not (is_running s.status)) do
    unless cx.kill_switch do
      position ← reading (marks.resolve_position s.owner p.coin)
      with_some position λ szi. unless (eq szi (of_ℕ 0)) do
        mark ← reading (marks.resolve_mark p.coin)
        unless (bad_mark mark)
            do unless (not (tpsl_triggered p szi mark)) (close_position cx s p.coin szi)
  tpsl_at cx marks s _ = skip

  unfoldable pub tpsl_step : Context N W → MarkDeps N W → Strategy N → Action N W (Unit {0})
  unfolding tpsl_at
  tpsl_step cx marks s = tpsl_at cx marks s s.params

  unfoldable pub trailing_at :
      Context N W → MarkDeps N W → Strategy N → StrategyParams N → Action N W (Unit {0})
  unfolding close_position
  trailing_at cx marks s (StrategyParams.trailing p) = unless (not (is_running s.status)) do
    unless cx.kill_switch do
      position ← reading (marks.resolve_position s.owner p.coin)
      with_some position λ szi. unless (eq szi (of_ℕ 0)) do
        mark ← reading (marks.resolve_mark p.coin)
        unless (bad_mark mark) do
          let peak = update_trail_peak szi mark s.trail_peak
          when (peak_moved peak s.trail_peak) (on_store (set_trail_peak s.id peak))
          unless (not (trailing_triggered p szi mark peak)) (close_position cx s p.coin szi)
  trailing_at cx marks s _ = skip

  unfoldable pub trailing_step : Context N W → MarkDeps N W → Strategy N → Action N W (Unit {0})
  unfolding trailing_at
  trailing_step cx marks s = trailing_at cx marks s s.params
