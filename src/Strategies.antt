-- ===== src/Strategies.antt =====
-- server/src/strategies: the kinds of strategy, the rules by which each decides, and their store.
pub mod Types
pub mod Rules
pub mod GridLimit
pub mod Store
pub mod Values
pub mod Validate
pub mod Accepted
pub mod Json
pub mod Encoded
pub mod Sqlite
pub mod Activity
pub mod Newest
mod Tests
