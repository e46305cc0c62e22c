-- ===== src/Hub.antt =====
-- The hub: crates/server/src/hub.rs and its children. A method that locks the maps and changes
-- them returns the new hub; the clock's reading and the results of the persistent store are
-- arguments. A broadcast channel is the list of frames sent on it, newest first.
pub mod State
pub mod Clock
pub mod Seats
pub mod RateLimit
pub mod Attention
pub mod Post
pub mod Settings
pub mod Invites
pub mod Moderation
pub mod Work
pub mod Door
pub mod Members
pub mod Admission
pub mod Reactions
