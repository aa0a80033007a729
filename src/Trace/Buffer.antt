-- ===== src/Trace/Buffer.antt =====
-- One core's trace buffer (src/kernel/trace.cpp): the core appends, one reader consumes, and neither
-- waits for the other. Each access of shared memory is a step of its own.
use cyros.Common.{ℕ, ◌+◌, ◌-◌, ◌%◌, ◌^◌, min, ◌==◌, if◌then◌else◌, update}

-- The core: at rest, with room for a record, or with the record written and not released.
pub data Producer (R : Type 0) : Type 0 where
  resting : Producer R
  writing : R → Producer R
  releasing : R → Producer R

-- The reader: at rest, or with so many of `count` records copied.
pub data Consumer : Type 0 where
  idle : Consumer
  copying : (count done : ℕ) → Consumer

-- The counters are uint32_t and run freely. `out` is the reader's span.
pub record Log (R : Type 0) : Type 0 where
  pub head : ℕ
  pub tail : ℕ
  pub dropped : ℕ
  pub slots : ℕ → R
  pub producer : Producer R
  pub consumer : Consumer
  pub out : ℕ → R

-- `head - tail`
abbrev pub held : ℕ → ℕ → ℕ
held head tail = (head + 2 ^ 32 - tail) % 2 ^ 32

module _ {R : Type 0} (capacity : ℕ) where
  -- append_on_this_core: the test for room,
  unfoldable pub begin_append : R → Log R → Log R
  begin_append r log =
      if held log.head log.tail == capacity
      then record log { dropped = (log.dropped + 1) % 2 ^ 32 }
      else record log { producer = writing r }

  -- the slot, and the release of the head.
  unfoldable pub write_slot : R → Log R → Log R
  write_slot r log = record log {
    slots = update log.slots (log.head % capacity) r;
    producer = releasing r;
  }

  unfoldable pub release_head : Log R → Log R
  release_head log = record log { head = (log.head + 1) % 2 ^ 32; producer = resting }

  -- read, into a span of `size`: the count,
  unfoldable pub begin_read : ℕ → Log R → Log R
  begin_read size log = record log { consumer = copying (min (held log.head log.tail) size) 0 }

  -- one slot,
  unfoldable pub copy_slot : ℕ → ℕ → Log R → Log R
  copy_slot count done log = record log {
    out = update log.out done (log.slots ((log.tail + done) % capacity));
    consumer = copying count (done + 1);
  }

  -- and the release of the tail.
  unfoldable pub release_tail : ℕ → Log R → Log R
  release_tail count log = record log { tail = (log.tail + count) % 2 ^ 32; consumer = idle }
