-- ===== src/Scheduler.antt =====
-- server/src/engine/scheduler.ts: one tick of the strategy engine, pass by pass.
pub mod Context
pub mod Session
pub mod Entries
pub mod Stops
pub mod Grid
pub mod Rungs
pub mod Drain
pub mod Resting
pub mod Tick
pub mod Sends
pub mod Allowed
pub mod RestingAllowed
pub mod Keeps
pub mod Reads
pub mod Lifecycle
pub mod Evolution
pub mod RestingEvolution
pub mod Drained
pub mod Safety
pub mod Settled
pub mod Placing
pub mod Confirmed
pub mod OneShots
pub mod Slots
pub mod Batches
pub mod RungTags
pub mod Tagged
pub mod Fixtures
mod Tests
