-- ===== src/Hub/Post.antt =====
-- Posting a message: `Hub::post` (crates/server/src/hub.rs). The stages are in the children, in
-- the order of the source; this module composes them.
pub mod Store
pub mod Gate
pub mod Compose
pub mod Commit
pub mod Deliver
pub mod Cases
pub mod Core
pub mod Rooms
pub mod Permission
pub mod Refusal
pub mod History
pub mod Replay
pub mod Repeat
