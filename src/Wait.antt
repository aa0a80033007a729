-- ===== src/Wait.antt =====
-- The two-phase wait (src/kernel/waitable.cpp) and the semaphore that waits with it
-- (src/userlib/sync/semaphore.cpp).
pub mod Engine
pub mod Semaphore
pub mod Count
pub mod Supply
pub mod Moves
pub mod Steps
pub mod NoLostWakeup
pub mod Tokens
mod Tests
