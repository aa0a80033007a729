-- ===== src/Scheduler.antt =====
-- The per-core scheduler (src/kernel/scheduler.hpp and .cpp): its ready structures and state, the
-- departures, the pick, and the roads into a switch; and what holds of them.
pub mod Matrix
pub mod Core
pub mod Leaving
pub mod Picking
pub mod Switch
pub mod Filing
pub mod Pick
pub mod Sides
pub mod Choice
pub mod Departure
pub mod Running
pub mod Deciding
pub mod Wake
mod Tests
