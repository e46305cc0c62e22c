-- ===== src/Hub/Attention.antt =====
-- Attention records: crates/server/src/hub/attention.
pub mod Resolution
pub mod Addressing
pub mod Owner
pub mod Lifecycle
pub mod RuntimeHealth
