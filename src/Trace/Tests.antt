-- ===== src/Trace/Tests.antt =====
-- A buffer of two slots that drops a record and is read in two reads, and a stream of five packets.
use cyros.Common.{
  ℕ, ◌+◌, ◌≤◌, ◌<◌, ◌≡◌, refl, some, [], ◌∷◌, arith, Option, List, none, ltb, if◌then◌else◌,
}
use cyros.Trace.Buffer.{
  resting, idle, begin_append, write_slot, release_head, begin_read, copy_slot, release_tail,
}
use cyros.Trace.History.{
  History, Reaches, take_step, produce, consume, begin_producing, begin_consuming, appends, reads,
  produces, consumes,
}
use cyros.Trace.InOrder.{Fresh, received-sent}
use cyros.Trace.Stream.{
  Entry, Packet, header, records, dropped, thread_name, object_name, tag_name, sunk,
}
use cyros.Trace.Decode.{decode, nothing_yet}
use cyros.Trace.Bytes.{Fits}
use cyros.Trace.RoundTrip.{EachFits, all_told, decode-sunk}

abbrev at_start : History ℕ
at_start = record {
  log = record {
    head = 0;
    tail = 0;
    dropped = 0;
    slots = λ i. 0;
    producer = resting;
    consumer = idle;
    out = λ i. 0;
  };
  sent = λ n. 0;
  sent_count = 0;
  received = λ n. 0;
  received_count = 0;
}

-- The history after a step that is possible.
abbrev after : Option (History ℕ) → History ℕ
after none = at_start
after (some h) = h

abbrev first_room : History ℕ
first_room = after (take_step 2 (appends 7) at_start)

abbrev first_written : History ℕ
first_written = after (take_step 2 produces first_room)

abbrev first : History ℕ
first = after (take_step 2 produces first_written)

abbrev begun : History ℕ
begun = after (take_step 2 (reads 5) first)

abbrev second_room : History ℕ
second_room = after (take_step 2 (appends 8) begun)

abbrev copied : History ℕ
copied = after (take_step 2 consumes second_room)

abbrev second_written : History ℕ
second_written = after (take_step 2 produces copied)

abbrev returned : History ℕ
returned = after (take_step 2 consumes second_written)

at_start-Fresh : Fresh 2 (omega arith) refl at_start
at_start-Fresh = record {
  at_start = (refl, refl);
  at_rest = (refl, refl);
  no_history = (refl, refl);
}

path : Reaches 2 at_start returned
unfolding take_step produce consume begin_producing begin_consuming begin_append write_slot
    release_head begin_read copy_slot release_tail
path =
    Reaches.next consumes
      (Reaches.next produces
        (Reaches.next consumes
          (Reaches.next (appends 8)
            (Reaches.next (reads 5)
              (Reaches.next produces
                (Reaches.next produces (Reaches.next (appends 7) Reaches.here refl) refl) refl)
              refl)
            refl)
          refl)
        refl)
      refl

received-sent_example :
    (returned.received_count ≤ returned.sent_count)
    × (returned.sent_count ≤ returned.received_count + 2)
    × ((n : ℕ) → n < returned.received_count → returned.received n ≡ returned.sent n)
received-sent_example = received-sent 2 (omega arith) refl at_start-Fresh path

abbrev entry : Entry
entry = record {
  timestamp = 70000;
  object = 536870912;
  thread = 3;
  what = 2;
  core = 1;
  priority = 4;
  reserved = 0;
}

entry-Fits : Fits entry
entry-Fits = record {
  timestamp = omega arith;
  object = omega arith;
  thread = omega arith;
  what = omega arith;
  core = omega arith;
  priority = omega arith;
  reserved = omega arith;
}

abbrev packets : List Packet
packets =
    thread_name 3 (b'u' ∷ b'i' ∷ [])
    ∷ records 1 (entry ∷ entry ∷ [])
    ∷ dropped 1 9
    ∷ object_name 536870912 (b'm' ∷ [])
    ∷ tag_name 2 []
    ∷ []

packets-EachFits : EachFits packets
packets-EachFits = (
  omega arith,
  (
    (omega arith, omega arith, (entry-Fits, (entry-Fits, tt))),
    ((omega arith, omega arith), (omega arith, (omega arith, tt))),
  ),
)

-- A decoding that replaces every byte beyond ASCII.
abbrev ascii : List ℕ → List ℕ
ascii [] = []
ascii (b ∷ bytes) = (if ltb b 128 then b else 65533) ∷ ascii bytes

decode-sunk_example :
    decode ascii (sunk (header 2 1000000 ∷ packets))
    ≡ some (all_told ascii (header 2 1000000 ∷ packets) nothing_yet)
decode-sunk_example =
    decode-sunk ascii 2 1000000 packets (omega arith, omega arith) packets-EachFits
