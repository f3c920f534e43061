-- ===== src/Routing.antt =====
-- The routes of the app's requests.
pub mod Route
pub mod Separation
mod Tests
