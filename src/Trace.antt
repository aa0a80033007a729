-- ===== src/Trace.antt =====
-- The kernel trace: its buffers (src/kernel/trace.cpp) and the stream of packets that a tool reads
-- (src/userlib/trace_stream/public_headers/stream.hpp).
pub mod Buffer
pub mod History
pub mod Kept
pub mod InOrder
pub mod Stream
pub mod Decode
pub mod Bytes
pub mod RoundTrip
mod Tests
