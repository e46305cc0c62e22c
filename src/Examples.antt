-- ===== src/Examples.antt =====
-- Runs of the theorems on a small server: one room, "atelier", with a human and an agent, two davets
-- and an active goal with two tasks.
pub mod Data
mod Run
mod Posting
mod Seating
pub mod Working
mod Entering
mod Noticing
mod Running
