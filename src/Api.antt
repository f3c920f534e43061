-- ===== src/Api.antt =====
-- server/src/http/app.ts: the contract between the app and the server.
pub mod Types
pub mod Account
pub mod Automation
pub mod Handler
pub mod Keyed
pub mod Cases
pub mod Calm
pub mod Refusals
pub mod Untouched
pub mod Owned
pub mod Guarded
pub mod Switch
pub mod Deleted
mod Tests
