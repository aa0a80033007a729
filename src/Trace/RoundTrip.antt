-- ===== src/Trace/RoundTrip.antt =====
-- The decoder reads back what the writer wrote.
use cyros.Common.{
  ℕ, zero, suc, ◌+◌, ◌*◌, ◌/◌, ◌%◌, ◌^◌, ◌≤◌, ◌<◌, ◌≡◌, refl, ap, ◌∙◌, sym, Bool, true, false, not,
  ◌&&◌, ◌||◌, some, List, [], ◌∷◌, ◌++◌, arith, ◌==◌, ltb, update, length, append-nil,
}
use cyros.Trace.Stream.{
  Entry, Packet, header, records, dropped, thread_name, object_name, tag_name, magic, little_endian,
  u16, u32, u64, cut, max_name, records_per_packet, entries_bytes, kind, payload, finish, sunk,
}
use cyros.Trace.Decode.{
  Decoded, nothing_yet, unpack, skip, same_bytes, read_header, read_records, read_dropped,
  read_thread_name, read_object_name, read_tag_name, read_packet, decode_from, decode, end_of,
}
use cyros.Trace.Bytes.{
  unpack-little_endian, length-append, AllFit, unpack_entries-bytes, length-entries_bytes,
  length-cut, cut-append, skip-append, all_shown, first_bytes, cut-first_bytes,
}

-- The fields of a packet fit their widths, and the records one packet.
abbrev pub Fits : Packet → Type 0
Fits (header cores hz) = (cores < 2 ^ 16) × (hz < 2 ^ 64)
Fits (records core rs) = (core < 256) × (length rs ≤ records_per_packet) × AllFit rs
Fits (dropped core total) = (core < 256) × (total < 2 ^ 32)
Fits (thread_name thread name) = thread < 2 ^ 32
Fits (object_name object name) = object < 2 ^ 64
Fits (tag_name tag name) = tag < 256

abbrev pub EachFits : List Packet → Type 0
EachFits [] = Unit {0}
EachFits (p ∷ ps) = Fits p × EachFits ps

unpack_whole :
    (width value : ℕ)
    → value < 256 ^ width
    → unpack width (little_endian width value) ≡ some (value, [])
unpack_whole width value h =
    ap (unpack width) (sym (append-nil (little_endian width value)))
    ∙ unpack-little_endian width value [] h

-- `text` is the tool's decoding of UTF-8, with a replacement for what is none.
module _ {Text : Type 0} (text : List ℕ → Text) where
  -- What a packet says, added to what those before it said; of a name, what its first 64 bytes are as
  -- a text.
  abbrev pub told : Packet → Decoded Text → Decoded Text
  told (header cores hz) s = record s { version = 1; cores = cores; timestamp_hz = hz }
  told (records core rs) s = record s {
    records = s.records ++ all_shown core (length s.records) rs;
  }
  told (dropped core total) s = record s { drops = s.drops ++ (core, total, length s.records) ∷ [] }
  told (thread_name thread name) s = record s {
    thread_names = update s.thread_names thread (some (text (first_bytes 64 name)));
  }
  told (object_name object name) s = record s {
    object_names = update s.object_names object (some (text (first_bytes 64 name)));
  }
  told (tag_name tag name) s = record s {
    tag_names = update s.tag_names tag (some (text (first_bytes 64 name)));
  }

  abbrev pub all_told : List Packet → Decoded Text → Decoded Text
  all_told [] s = s
  all_told (p ∷ ps) s = all_told ps (told p s)

  read_header-told :
      (cores hz : ℕ) (bytes a b : List ℕ) (s : Decoded Text)
      → unpack 2 (skip 4 bytes) ≡ some (1, a)
      → unpack 2 a ≡ some (cores, b)
      → unpack 8 b ≡ some (hz, [])
      → read_header text bytes s ≡ some (told (header cores hz) s)
  unfolding read_header
  read_header-told cores hz bytes a b s e f g = rw (e, f, g) refl

  read_dropped-told :
      (core total : ℕ) (bytes a : List ℕ) (s : Decoded Text)
      → unpack 1 bytes ≡ some (core, a)
      → unpack 4 a ≡ some (total, [])
      → read_dropped text bytes s ≡ some (told (dropped core total) s)
  unfolding read_dropped
  read_dropped-told core total bytes a s e f = rw (e, f) refl

  read_thread_name-told :
      (thread : ℕ) (name bytes : List ℕ) (s : Decoded Text)
      → unpack 4 bytes ≡ some (thread, cut max_name name)
      → read_thread_name text bytes s ≡ some (told (thread_name thread name) s)
  unfolding read_thread_name
  read_thread_name-told thread name bytes s e = rw (e, cut-first_bytes 64 name) refl

  read_object_name-told :
      (object : ℕ) (name bytes : List ℕ) (s : Decoded Text)
      → unpack 8 bytes ≡ some (object, cut max_name name)
      → read_object_name text bytes s ≡ some (told (object_name object name) s)
  unfolding read_object_name
  read_object_name-told object name bytes s e = rw (e, cut-first_bytes 64 name) refl

  read_records-told :
      (core byte : ℕ) (rs : List Entry) (s : Decoded Text)
      → byte ≡ core
      → AllFit rs
      → read_records text (byte ∷ entries_bytes rs) s ≡ some (told (records core rs) s)
  unfolding read_records
  read_records-told core byte rs s same fs =
      rw (sized, whole, same, unpack_entries-bytes core (length s.records) rs fs) refl
    where
      sized : (length (entries_bytes rs) % 24 == 0) ≡ true
      sized = ground (arith, length-entries_bytes rs)

      whole : length (entries_bytes rs) / 24 ≡ length rs
      whole = omega (arith, length-entries_bytes rs)

  read_packet-told :
      (p : Packet) (s : Decoded Text)
      → Fits p
      → read_packet text (kind p) (payload p) s ≡ some (told p s)
  unfolding read_packet kind payload
  read_packet-told (header cores hz) s (c, h) =
      read_header-told cores hz (payload (header cores hz)) (u16 cores ++ u64 hz) (u64 hz) s
        (unpack-little_endian 2 1 (u16 cores ++ u64 hz) (omega arith))
        (unpack-little_endian 2 cores (u64 hz) c) (unpack_whole 8 hz h)
  read_packet-told (records core rs) s (c, few, fs) =
      unfold little_endian in read_records-told core (core % 256) rs s (omega arith) fs
  read_packet-told (dropped core total) s (c, t) =
      read_dropped-told core total (payload (dropped core total)) (u32 total) s
        (unpack-little_endian 1 core (u32 total) c) (unpack_whole 4 total t)
  read_packet-told (thread_name thread name) s t =
      read_thread_name-told thread name (payload (thread_name thread name)) s
        (unpack-little_endian 4 thread (cut max_name name) t)
  read_packet-told (object_name object name) s t =
      read_object_name-told object name (payload (object_name object name)) s
        (unpack-little_endian 8 object (cut max_name name) t)
  read_packet-told (tag_name tag name) s t =
      unfold little_endian read_tag_name in
      ap
        (λ (n : List ℕ).
          some (record s { tag_names = update s.tag_names (tag % 256) (some (text n)) }))
        (cut-first_bytes 64 name)
      ∙ ap
          (λ (i : ℕ).
            some
              (record s { tag_names = update s.tag_names i (some (text (first_bytes 64 name))) }))
          (omega arith)

  length-payload : (p : Packet) → Fits p → length (payload p) < 2 ^ 16
  unfolding payload
  length-payload (header cores hz) f = unfold little_endian in omega arith
  length-payload (records core rs) (c, few, fs) =
      unfold little_endian in omega (arith, length-entries_bytes rs)
  length-payload (dropped core total) f = unfold little_endian in omega arith
  length-payload (thread_name thread name) f =
      unfold little_endian in omega (arith, length-cut max_name name)
  length-payload (object_name object name) f =
      unfold little_endian in omega (arith, length-cut max_name name)
  length-payload (tag_name tag name) f =
      unfold little_endian in omega (arith, length-cut max_name name)

  -- The first packet of a stream is its header.
  abbrev Opens : Bool → Packet → Type 0
  Opens first p = (not first || (kind p == 1 && same_bytes (cut 4 (payload p)) magic)) ≡ true

  decode_from-packet :
      (fuel : ℕ) (first : Bool) (p : Packet) (rest : List ℕ) (s : Decoded Text)
      → Fits p
      → Opens first p
      → decode_from text (suc fuel) first (finish (kind p) (payload p) ++ rest) s
        ≡ decode_from text fuel false rest (told p s)
  unfolding decode_from finish
  decode_from-packet fuel first p rest s f opens =
      let n = length (payload p) in
      let size : n % 256 + 256 * (n / 256 % 256) ≡ n = omega (arith, length-payload p f) in
      let long : ltb (length (payload p ++ rest)) n ≡ false =
        ground (arith, length-append (payload p) rest) in
      rw
        (
          size,
          long,
          cut-append (payload p) rest,
          skip-append (payload p) rest,
          opens,
          read_packet-told p s f,
        )
        refl

  decode_from-all_told :
      (fuel : ℕ) (ps : List Packet) (s : Decoded Text)
      → EachFits ps
      → length ps < fuel
      → decode_from text fuel false (sunk ps) s ≡ some (all_told ps s)
  unfolding sunk
  decode_from-all_told zero ps s fs lt = elim lt [ ]
  decode_from-all_told (suc fuel) [] s fs lt = unfold decode_from end_of in refl
  decode_from-all_told (suc fuel) (p ∷ ps) s (f, fs) lt =
      decode_from-packet fuel false p (sunk ps) s f refl
      ∙ decode_from-all_told fuel ps (told p s) fs (omega arith)

  length-sunk : (ps : List Packet) → length ps ≤ length (sunk ps)
  unfolding sunk finish
  length-sunk [] = omega arith
  length-sunk (p ∷ ps) = omega (arith, length-sunk ps, length-append (payload p) (sunk ps))

  -- The decoder accepts every stream that a writer makes of fields that fit their widths, and
  -- finds in it the header, every record with the core whose buffer it came from and its place in
  -- the stream, every report of drops with the number of records before it, and of every name what
  -- the tool's decoding makes of its first 64 bytes, in the order in which they were written.
  pub decode-sunk :
      (cores hz : ℕ) (ps : List Packet)
      → Fits (header cores hz)
      → EachFits ps
      → decode text (sunk (header cores hz ∷ ps))
        ≡ some (all_told (header cores hz ∷ ps) nothing_yet)
  unfolding decode sunk
  decode-sunk cores hz ps f fs =
      decode_from-packet (length (sunk (header cores hz ∷ ps))) true (header cores hz) (sunk ps)
        nothing_yet f opens
      ∙ decode_from-all_told (length (sunk (header cores hz ∷ ps))) ps
          (told (header cores hz) nothing_yet) fs
          (omega (arith, length-sunk (header cores hz ∷ ps)))
    where
      opens : Opens true (header cores hz)
      opens = unfold kind payload cut in refl
