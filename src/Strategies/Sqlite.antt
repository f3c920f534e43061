-- ===== src/Strategies/Sqlite.antt =====
-- server/src/strategies/sqliteStore.ts: the store of strategies over SQLite.
pub mod Tables
pub mod Updates
pub mod Refines
pub mod Orders
pub mod Replay
pub mod Alike
pub mod Fills
pub mod Refinement
mod Tests
