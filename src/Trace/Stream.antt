-- ===== src/Trace/Stream.antt =====
-- stream_writer (src/userlib/trace_stream/public_headers/stream.hpp): the trace as packets of bytes.
use cyros.Common.{
  ℕ, zero, suc, ◌+◌, ◌/◌, ◌%◌, not, List, [], ◌∷◌, ◌++◌, ◌==◌, ltb, if◌then◌else◌, length,
}

-- One event, as trace.hpp lays it out; `what` is the number of the trace::event.
pub record Entry : Type 0 where
  pub timestamp : ℕ
  pub object : ℕ
  pub thread : ℕ
  pub what : ℕ
  pub core : ℕ
  pub priority : ℕ
  pub reserved : ℕ

-- A packet, by the call that writes it.
pub data Packet : Type 0 where
  header : (cores timestamp_hz : ℕ) → Packet
  records : (core : ℕ) → List Entry → Packet
  dropped : (core total : ℕ) → Packet
  thread_name : (thread : ℕ) → List ℕ → Packet
  object_name : (object : ℕ) → List ℕ → Packet
  tag_name : (tag : ℕ) → List ℕ → Packet

abbrev pub stream_version : ℕ
stream_version = 1

abbrev pub max_name : ℕ
max_name = 64

abbrev pub records_per_packet : ℕ
records_per_packet = 16

-- `packet_buffer::little_endian`
unfoldable pub little_endian : (width value : ℕ) → List ℕ
little_endian zero value = []
little_endian (suc width) value = (value % 256) ∷ little_endian width (value / 256)

abbrev pub u8 : ℕ → List ℕ
u8 value = little_endian 1 value

abbrev pub u16 : ℕ → List ℕ
u16 value = little_endian 2 value

abbrev pub u32 : ℕ → List ℕ
u32 value = little_endian 4 value

abbrev pub u64 : ℕ → List ℕ
u64 value = little_endian 8 value

-- A name is cut to `room` bytes.
unfoldable pub cut : ℕ → List ℕ → List ℕ
cut zero bytes = []
cut (suc room) [] = []
cut (suc room) (b ∷ bytes) = b ∷ cut room bytes

abbrev pub magic : List ℕ
magic = b'C' ∷ b'Y' ∷ b'T' ∷ b'R' ∷ []

unfoldable pub entry_bytes : Entry → List ℕ
entry_bytes r =
    u64 r.timestamp
    ++ (u64 r.object
        ++ (u32 r.thread ++ (u8 r.what ++ (u8 r.core ++ (u8 r.priority ++ u8 r.reserved)))))

unfoldable pub entries_bytes : List Entry → List ℕ
unfolding entry_bytes
entries_bytes [] = []
entries_bytes (r ∷ rs) = entry_bytes r ++ entries_bytes rs

unfoldable pub kind : Packet → ℕ
kind (header cores hz) = 1
kind (records core rs) = 2
kind (dropped core total) = 3
kind (thread_name thread name) = 4
kind (object_name object name) = 5
kind (tag_name tag name) = 6

unfoldable pub payload : Packet → List ℕ
unfolding little_endian cut entries_bytes
payload (header cores hz) = magic ++ (u16 stream_version ++ (u16 cores ++ u64 hz))
payload (records core rs) = u8 core ++ entries_bytes rs
payload (dropped core total) = u8 core ++ u32 total
payload (thread_name thread name) = u32 thread ++ cut max_name name
payload (object_name object name) = u64 object ++ cut max_name name
payload (tag_name tag name) = u8 tag ++ cut max_name name

-- `packet_buffer::finish`: the head, and the payload.
unfoldable pub finish : ℕ → List ℕ → List ℕ
finish k bytes = k ∷ (length bytes % 256) ∷ (length bytes / 256 % 256) ∷ bytes

-- All that the sink is given.
unfoldable pub sunk : List Packet → List ℕ
unfolding kind payload finish
sunk [] = []
sunk (p ∷ ps) = finish (kind p) (payload p) ++ sunk ps

-- The loop of drain over what the reads answer: the packets, and how many records they hold.
unfoldable pub drain_reads : (core budget written : ℕ) → List (List Entry) → List Packet × ℕ
drain_reads core budget written [] = ([], written)
drain_reads core budget written (chunk ∷ answers) =
    let further = drain_reads core budget (written + length chunk) answers in
    let go_on : List Packet × ℕ = (records core chunk ∷ further.0, further.1) in
    if not (ltb written budget)
    then ([], written)
    else if length chunk == 0
    then ([], written)
    else if ltb (length chunk) records_per_packet
    then (records core chunk ∷ [], written + length chunk)
    else go_on

-- The packets of a drain, how many records it wrote, and the drops it has reported.
unfoldable pub drain :
    (core budget : ℕ) → List (List Entry) → (total reported : ℕ) → List Packet × ℕ × ℕ
unfolding drain_reads
drain core budget answers total reported =
    let (packets, written) = drain_reads core budget 0 answers in
    if total == reported
    then (packets, written, reported)
    else (packets ++ dropped core total ∷ [], written, total)
