-- ===== src/Protocol.antt =====
-- The wire types of crates/protocol/src/lib.rs: what the server, the web client and the agents
-- speak. Serialisation is left out.
pub mod Chat
pub mod Settings
pub mod Work
pub mod Attention
pub mod Access
pub mod Health
pub mod Frames
