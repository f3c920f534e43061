-- ===== src/DeadMan.antt =====
-- The dead-man switch of server/src/engine/deadMan.ts, and the budget that the device keeps.
pub mod Budget
pub mod Health
pub mod Heartbeat
pub mod Limit
pub mod Alerts
pub mod Owners
mod Tests
pub mod Device
