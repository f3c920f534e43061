-- ===== src/Push.antt =====
-- The push notifications of server/src/push.
pub mod QuietHours
pub mod Notifier
pub mod Stores
pub mod Kept
pub mod Counts
pub mod Gates
pub mod Receipts
pub mod Polled
pub mod Completed
pub mod Once
mod Tests
