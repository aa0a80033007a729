-- ===== src/Kernel.antt =====
-- The state that every part of the kernel reads: thread control blocks and mutexes.
pub mod Thread
pub mod Store
pub mod Registry
pub mod Pinning
pub mod Urgency
pub mod StackLayout
pub mod Carving
pub mod Tests
