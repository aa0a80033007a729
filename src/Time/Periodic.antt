-- ===== src/Time/Periodic.antt =====
-- The periodic driver: a tick, whose interrupt fires what is due
-- (src/time/periodic/time_driver_periodic.cpp).
use cyros.Common.{
  ℕ, ◌+◌, ◌%◌, ◌^◌, Bool, true, false, not, ◌&&◌, Option, none, some, ◌==◌, ltb, if◌then◌else◌,
  update, ◌>>◌, check, is_some,
}
use cyros.Time.Timetable.{
  Driver, free_slot, write_slots, next_handle_id, find_slot, anchor_pended_recurring, fire_due_isr,
  max_scheduled_callbacks,
}

unfoldable pub on_timer_isr : (Option ℕ → ℕ → Driver → Driver) → ℕ → Driver → Option Driver
unfolding fire_due_isr
on_timer_isr run now d = fire_due_isr run now d

unfoldable pub claim : Option ℕ → ℕ → ℕ → Option ℕ → ℕ → Driver → ℕ × Driver
unfolding next_handle_id
claim none when period cb arg d = (0, d)
claim (some i) when period cb arg d =
    let (handle, t) = next_handle_id d.table in
    (
      handle,
      record d {
        table = record {
          started = t.started;
          next_id = t.next_id;
          slots =
              update t.slots i
                (record { id = handle; when = when; period = period; cb = cb; arg = arg });
        };
      },
    )

unfoldable pub schedule_at : ℕ → Option ℕ → ℕ → Driver → Option (ℕ × Driver)
unfolding claim
schedule_at tp cb arg d = do
  check d.initialised
  some (
      if is_some cb
      then claim (find_slot (λ s. s.id == 0) max_scheduled_callbacks 0 d.table.slots) tp 0 cb arg d
      else (0, d))

unfoldable pub schedule_recurring : ℕ → ℕ → Option ℕ → ℕ → Driver → Option (ℕ × Driver)
unfolding claim
schedule_recurring now interval cb arg d = do
  check d.initialised
  some (
      if is_some cb && not (interval == 0)
      then claim (find_slot (λ s. s.id == 0) max_scheduled_callbacks 0 d.table.slots)
          (if d.table.started then (now + interval) % 2 ^ 64 else 0) interval cb arg d
      else (0, d))

unfoldable pub clear_slot : Option ℕ → Driver → Bool × Driver
clear_slot none d = (false, d)
clear_slot (some i) d = (true, write_slots (update d.table.slots i free_slot) d)

unfoldable pub cancel : ℕ → Driver → Option (Bool × Driver)
unfolding clear_slot
cancel h d = if h == 0 then some (false, d) else do
  check d.initialised
  some (clear_slot (find_slot (λ s. s.id == h) max_scheduled_callbacks 0 d.table.slots) d)

unfoldable pub start : ℕ → Driver → Option Driver
unfolding anchor_pended_recurring
start now d = if d.table.started then some d else do
  check d.initialised
  check (ltb 0 d.frequency_hz)
  some (record d {
    setup_hz = some d.frequency_hz;
    table = record (anchor_pended_recurring now d.table) { started = true };
    irq_enabled = true;
  })

unfoldable pub stop : Driver → Driver
stop d =
    if d.table.started
    then record d {
      irq_enabled = false;
      table = record { started = false; next_id = d.table.next_id; slots = d.table.slots };
    }
    else d
