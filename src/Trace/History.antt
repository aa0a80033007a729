-- ===== src/Trace/History.antt =====
-- What a reader gets: the records that were not dropped, each once and in order.
use cyros.Common.{ℕ, ◌+◌, ◌-◌, ◌≡◌, Option, none, some, ltb, if◌then◌else◌, update}
use cyros.Trace.Buffer.{
  Log, Producer, Consumer, resting, writing, releasing, idle, copying, begin_append, write_slot,
  release_head, begin_read, copy_slot, release_tail,
}

-- A buffer with its history: the records released so far and those that reads have returned, the
-- n-th of each.
pub record History (R : Type 0) : Type 0 where
  pub log : Log R
  pub sent : ℕ → R
  pub sent_count : ℕ
  pub received : ℕ → R
  pub received_count : ℕ

pub data Step (R : Type 0) : Type 0 where
  appends : R → Step R
  reads : ℕ → Step R
  produces : Step R
  consumes : Step R

module _ {R : Type 0} (capacity : ℕ) where
  unfoldable pub produce : Producer R → History R → Option (History R)
  unfolding write_slot release_head
  produce resting h = none
  produce (writing r) h = some (record h { log = write_slot capacity r h.log })
  produce (releasing r) h = some (record h {
    log = release_head capacity h.log;
    sent = update h.sent h.sent_count r;
    sent_count = h.sent_count + 1;
  })

  unfoldable pub consume : Consumer → History R → Option (History R)
  unfolding copy_slot release_tail
  consume idle h = none
  consume (copying count done) h =
      if ltb done count
      then some (record h { log = copy_slot capacity count done h.log })
      else some (record h {
        log = release_tail capacity count h.log;
        received =
            λ n. if ltb n h.received_count then h.received n else h.log.out (n - h.received_count);
        received_count = h.received_count + count;
      })

  unfoldable pub begin_producing : R → Producer R → History R → Option (History R)
  unfolding begin_append
  begin_producing r resting h = some (record h { log = begin_append capacity r h.log })
  begin_producing r (writing q) h = none
  begin_producing r (releasing q) h = none

  unfoldable pub begin_consuming : ℕ → Consumer → History R → Option (History R)
  unfolding begin_read
  begin_consuming size idle h = some (record h { log = begin_read capacity size h.log })
  begin_consuming size (copying count done) h = none

  -- The core and the reader, in any order.
  unfoldable pub take_step : Step R → History R → Option (History R)
  unfolding produce consume begin_producing begin_consuming
  take_step (appends r) h = begin_producing r h.log.producer h
  take_step (reads size) h = begin_consuming size h.log.consumer h
  take_step produces h = produce h.log.producer h
  take_step consumes h = consume h.log.consumer h

  pub data Reaches (h : History R) : History R → Type 0 where
    here : Reaches h h
    next : {u v : History R} (step : Step R) → Reaches h u → take_step step u ≡ some v → Reaches h v
