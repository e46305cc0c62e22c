-- ===== src/Routes.antt =====
-- The HTTP handlers: crates/server/src/routes.
pub mod Handler
pub mod Access
pub mod Work
pub mod Attention
pub mod Rooms
