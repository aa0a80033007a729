-- ===== src/Ready.antt =====
-- The ready structures of a core: the intrusive queue of one priority level, and the matrix of them.
pub mod Queue
