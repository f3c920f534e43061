-- ===== src/Orders.antt =====
-- mobile/src/lib/hyperliquid: the orders that the app builds, before they are signed.
pub mod Rules
pub mod Assets
pub mod Build
pub mod Actions
pub mod Sound
pub mod Brackets
pub mod Tickets
pub mod Status
mod Tests
