-- ===== src/Strategies/Sqlite/Tests.antt =====
-- server/src/strategies/sqliteStore.ts on concrete calls.
use hyper_solid.Prelude.{String, true, false, ◌≡◌, refl, some, none, List, [], ◌∷◌, map, string_eq}
use hyper_solid.Number.{Cents, pos, cents_number}
use hyper_solid.Strategies.Types.{sell, buy, completed, paused, StrategyParams}
use hyper_solid.Strategies.GridLimit.{armed}
use hyper_solid.Strategies.Store
use hyper_solid.Strategies.Store.{Store}
use hyper_solid.Strategies.Sqlite.Tables
use hyper_solid.Strategies.Sqlite.Tables.{Database}
use hyper_solid.Strategies.Sqlite.Replay.{Write, replay_memory, replay_sqlite}
use hyper_solid.Strategies.Sqlite.Refinement.{ReadsAlike, sqlite_refines}

abbrev two_slices : StrategyParams Cents
two_slices = StrategyParams.twap (record {
  coin = "ETH";
  side = sell;
  total_usdc = pos 80;
  slices = 2;
  duration_hours = pos 20;
  dead_man = false;
})

abbrev stop : StrategyParams Cents
stop = StrategyParams.tpsl (record {
  coin = "BTC";
  take_profit_price = some (pos 90);
  stop_loss_price = none;
  dead_man = true;
})

abbrev writes : List (Write Cents)
writes =
    Write.create "t" "0xa" two_slices (pos 5)
    ∷ Write.create "p" "0xb" stop (pos 6)
    ∷ Write.record_fill "t" (pos 40) (pos 15)
    ∷ Write.set_grid_limit_rung "p" (record {
      rung = 3;
      state = armed;
      side = some buy;
      cloid = some "0xc";
      px = none;
      seq = 1;
    })
    ∷ Write.record_fill "t" (pos 40) (pos 25)
    ∷ Write.set_status "p" paused
    ∷ Write.remove "p"
    ∷ Write.record_trigger "nobody" (pos 30)
    ∷ []

abbrev lower : String → String
lower text = text

abbrev tables : Database Cents
tables = replay_sqlite lower writes (record { strategies = []; grid_orders = [] })

writes_run :
    (map (λ s. s.id) (Tables.list_all tables) ≡ "t" ∷ [])
    × (map (λ s. s.status) (Tables.list_all tables) ≡ completed ∷ [])
unfolding Tables.list_all Tables.to_strategy Tables.create Tables.record_fill Tables.set_status
    Tables.set_grid_limit_rung Tables.remove Tables.record_trigger
writes_run = (refl, refl)

sqlite_refines_example : ReadsAlike lower (replay_memory writes Store.empty) tables
unfolding Store.create Store.build Store.record_fill Store.set_status Store.set_grid_limit_rung
    Store.remove Store.record_trigger Store.empty
sqlite_refines_example = sqlite_refines lower writes refl
