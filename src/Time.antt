-- ===== src/Time.antt =====
-- The time drivers: the timetable of scheduled callbacks that both keep, the tickless driver with its
-- one-shot timer, and the periodic driver with its tick.
pub mod Timetable
pub mod Tickless
pub mod Periodic
pub mod Armed
pub mod Firing
pub mod Agreement
pub mod Handles
pub mod Conversion
pub mod Simulation
mod Tests
