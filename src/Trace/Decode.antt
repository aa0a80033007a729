-- ===== src/Trace/Decode.antt =====
-- The decoder of a stream (debug/cyros_trace.py).
use cyros.Common.{
  ℕ, zero, suc, ◌+◌, ◌*◌, ◌%◌, Bool, true, false, not, ◌&&◌, ◌||◌, ◌/◌, Option, none, some, List,
  [], ◌∷◌, ◌++◌, ◌==◌, ltb, if◌then◌else◌, update, length, ◌>>=◌, ◌>>◌, check,
}
use cyros.Trace.Stream.{magic, cut}

-- A record as the tool keeps it: with the core whose buffer it came from and its place in the stream,
-- and without the reserved byte. An event is known by its number, which its name only spells.
pub record Record : Type 0 where
  pub timestamp : ℕ
  pub object : ℕ
  pub thread : ℕ
  pub event : ℕ
  pub core : ℕ
  pub priority : ℕ
  pub recorded_on : ℕ
  pub index : ℕ

-- Names are texts. A drop has the number of records before it.
pub record Decoded (Text : Type 0) : Type 0 where
  pub version : ℕ
  pub cores : ℕ
  pub timestamp_hz : ℕ
  pub records : List Record
  pub drops : List (ℕ × ℕ × ℕ)
  pub thread_names : ℕ → Option Text
  pub object_names : ℕ → Option Text
  pub tag_names : ℕ → Option Text
  pub skipped_kinds : ℕ → ℕ
  pub truncated : Bool

abbrev pub nothing_yet : {Text : Type 0} → Decoded Text
nothing_yet = record {
  version = 0;
  cores = 0;
  timestamp_hz = 0;
  records = [];
  drops = [];
  thread_names = λ i. none;
  object_names = λ i. none;
  tag_names = λ i. none;
  skipped_kinds = λ k. 0;
  truncated = false;
}

-- `struct.unpack_from` of one field, and the bytes behind it. `none`: too few bytes.
unfoldable pub unpack : ℕ → List ℕ → Option (ℕ × List ℕ)
unpack zero bytes = some (0, bytes)
unpack (suc width) [] = none
unpack (suc width) (b ∷ bytes) = do r ← unpack width bytes; some (b + 256 * r.0, r.1)

unfoldable pub unpack_entry : (recorded_on index : ℕ) → List ℕ → Option (Record × List ℕ)
unfolding unpack
unpack_entry recorded_on index bytes = do
  (timestamp, a) ← unpack 8 bytes
  (object, b) ← unpack 8 a
  (thread, c) ← unpack 4 b
  (event, d) ← unpack 1 c
  (core, e) ← unpack 1 d
  (priority, f) ← unpack 1 e
  (reserved, g) ← unpack 1 f
  some (
    record {
      timestamp = timestamp;
      object = object;
      thread = thread;
      event = event;
      core = core;
      priority = priority;
      recorded_on = recorded_on;
      index = index;
    },
    g,
  )

-- The loop over the whole records of a payload, of which there are `count`.
unfoldable pub unpack_entries : (count recorded_on index : ℕ) → List ℕ → Option (List Record)
unfolding unpack_entry
unpack_entries zero recorded_on index bytes = some []
unpack_entries (suc count) recorded_on index bytes = do
  (r, rest) ← unpack_entry recorded_on index bytes
  rs ← unpack_entries count recorded_on (index + 1) rest
  some (r ∷ rs)

abbrev pub skip : ℕ → List ℕ → List ℕ
skip zero bytes = bytes
skip (suc n) [] = []
skip (suc n) (b ∷ bytes) = skip n bytes

abbrev pub same_bytes : List ℕ → List ℕ → Bool
same_bytes [] [] = true
same_bytes [] (b ∷ bs) = false
same_bytes (a ∷ as') [] = false
same_bytes (a ∷ as') (b ∷ bs) = a == b && same_bytes as' bs

-- `text` is what `bytes.decode("utf-8", "replace")` makes of bytes.
module _ {Text : Type 0} (text : List ℕ → Text) where
  unfoldable pub read_header : List ℕ → Decoded Text → Option (Decoded Text)
  unfolding unpack
  read_header bytes s = do
    (version, a) ← unpack 2 (skip 4 bytes)
    (cores, b) ← unpack 2 a
    (hz, c) ← unpack 8 b
    check (version == 1)
    some (record s { version = version; cores = cores; timestamp_hz = hz })

  unfoldable pub read_records : List ℕ → Decoded Text → Option (Decoded Text)
  unfolding unpack_entries
  read_records [] s = none
  read_records (core ∷ bytes) s = do
    check (length bytes % 24 == 0)
    rs ← unpack_entries (length bytes / 24) core (length s.records) bytes
    some (record s { records = s.records ++ rs })

  unfoldable pub read_dropped : List ℕ → Decoded Text → Option (Decoded Text)
  unfolding unpack
  read_dropped bytes s = do
    (core, a) ← unpack 1 bytes
    (total, b) ← unpack 4 a
    some (record s { drops = s.drops ++ (core, total, length s.records) ∷ [] })

  unfoldable pub read_thread_name : List ℕ → Decoded Text → Option (Decoded Text)
  unfolding unpack
  read_thread_name bytes s = do
    (thread, name) ← unpack 4 bytes
    some (record s { thread_names = update s.thread_names thread (some (text name)) })

  unfoldable pub read_object_name : List ℕ → Decoded Text → Option (Decoded Text)
  unfolding unpack
  read_object_name bytes s = do
    (object, name) ← unpack 8 bytes
    some (record s { object_names = update s.object_names object (some (text name)) })

  unfoldable pub read_tag_name : List ℕ → Decoded Text → Option (Decoded Text)
  read_tag_name [] s = none
  read_tag_name (tag ∷ name) s =
      some (record s { tag_names = update s.tag_names tag (some (text name)) })

  -- The branches on the kind of a packet.
  unfoldable pub read_packet : ℕ → List ℕ → Decoded Text → Option (Decoded Text)
  unfolding read_header read_records read_dropped read_thread_name read_object_name read_tag_name
  read_packet k bytes s =
      if k == 1
      then read_header bytes s
      else if k == 2
      then read_records bytes s
      else if k == 3
      then read_dropped bytes s
      else if k == 4
      then read_thread_name bytes s
      else if k == 5
      then read_object_name bytes s
      else if k == 6
      then read_tag_name bytes s
      else some (record s { skipped_kinds = update s.skipped_kinds k (s.skipped_kinds k + 1) })

  -- What the loop ends with: an empty stream is an error.
  unfoldable pub end_of : Bool → Decoded Text → Option (Decoded Text)
  end_of first s = if first then none else some s

  -- The loop of decode. `none`: a FormatError, too few bytes for a field, or the fuel ran out.
  unfoldable pub decode_from :
      (fuel : ℕ) (first : Bool) → List ℕ → Decoded Text → Option (Decoded Text)
  unfolding read_packet end_of
  decode_from zero first bytes s = none
  decode_from (suc fuel) first [] s = end_of first s
  decode_from (suc fuel) first (k ∷ []) s = end_of first (record s { truncated = true })
  decode_from (suc fuel) first (k ∷ low ∷ []) s = end_of first (record s { truncated = true })
  decode_from (suc fuel) first (k ∷ low ∷ high ∷ bytes) s =
      let size = low + 256 * high in
      let go_on : Option (Decoded Text) = (do
        check (not first || (k == 1 && same_bytes (cut 4 (cut size bytes)) magic))
        s' ← read_packet k (cut size bytes) s
        decode_from fuel false (skip size bytes) s') in
      if ltb (length bytes) size then end_of first (record s { truncated = true }) else go_on

  -- A packet takes three bytes at least.
  unfoldable pub decode : List ℕ → Option (Decoded Text)
  unfolding decode_from
  decode bytes = decode_from (suc (length bytes)) true bytes nothing_yet
