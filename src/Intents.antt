-- ===== src/Intents.antt =====
-- The order flow of the app: its ledger of intents, and what sends by it.
pub mod Ledger
pub mod Submit
pub mod Steps
pub mod Settled
pub mod Identity
mod Tests
