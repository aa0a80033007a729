-- ===== src/Time/Tickless.antt =====
-- The tickless driver: a one-shot timer, armed for the earliest deadline
-- (src/time/tickless/time_driver_tickless.cpp). `none` is an assert that fires; `now` is what the port
-- answers of the time.
use cyros.Common.{
  ℕ, zero, suc, ◌+◌, ◌-◌, ◌*◌, ◌/◌, ◌%◌, ◌^◌, Bool, true, false, not, ◌&&◌, Option, none, some,
  ◌==◌, ltb, if◌then◌else◌, update, ◌>>=◌, ◌>>◌, check, is_some,
}
use cyros.Time.Timetable.{
  Slot, Driver, free_slot, write_slots, next_handle_id, find_slot, anchor_pended_recurring,
  fire_due_isr, ceil_div, max_scheduled_callbacks,
}

abbrev pub no_deadline : ℕ
no_deadline = 2 ^ 64 - 1

-- The loop of rearm_locked, with the earliest deadline so far.
unfoldable pub earliest_from : ℕ → ℕ → (ℕ → Slot) → ℕ → ℕ
earliest_from zero i slots best = best
earliest_from (suc rounds) i slots best =
    let s = slots i in
    earliest_from rounds (i + 1) slots (if not (s.id == 0) && ltb s.when best then s.when else best)

unfoldable pub rearm_locked : Driver → Driver
rearm_locked d =
    let earliest = earliest_from max_scheduled_callbacks 0 d.table.slots no_deadline in
    record d { one_shot = if earliest == no_deadline then none else some earliest }

unfoldable pub on_timer_isr : (Option ℕ → ℕ → Driver → Driver) → ℕ → Driver → Option Driver
on_timer_isr run now d = do fired ← fire_due_isr run now d; some (rearm_locked fired)

unfoldable pub initialise : ℕ → Driver → Option Driver
initialise hz d = do
  check (not d.initialised)
  some (record d { initialised = true; frequency_hz = hz })

-- The timer is torn down, and everything the drivers keep is as at the start of the program.
unfoldable pub finalise : Driver → Option Driver
finalise d = do
  check d.initialised
  some (record d {
    initialised = false;
    frequency_hz = 0;
    one_shot = none;
    setup_hz = none;
    irq_enabled = false;
    table = record { started = false; next_id = 1; slots = λ i. free_slot };
  })

unfoldable pub rearm_started : Driver → Driver
rearm_started d = if d.table.started then rearm_locked d else d

-- Slot `i` filled with the next handle.
unfoldable pub fill : ℕ → ℕ → ℕ → Option ℕ → ℕ → Driver → ℕ × Driver
unfolding next_handle_id
fill i when period cb arg d =
    let (id, t) = next_handle_id d.table in
    (
      id,
      record d {
        table = record t {
          slots =
              update t.slots i
                (record { id = id; when = when; period = period; cb = cb; arg = arg });
        };
      },
    )

unfoldable pub rearmed : ℕ × Driver → ℕ × Driver
rearmed (id, d) = (id, rearm_started d)

unfoldable pub schedule_in : Option ℕ → ℕ → ℕ → Option ℕ → ℕ → Driver → ℕ × Driver
unfolding fill rearmed
schedule_in none when period cb arg d = (0, d)
schedule_in (some i) when period cb arg d = rearmed (fill i when period cb arg d)

abbrev pub is_free : Slot → Bool
is_free s = s.id == 0

-- The handle 0 is the invalid one.
unfoldable pub schedule_at : ℕ → Option ℕ → ℕ → Driver → Option (ℕ × Driver)
unfolding schedule_in
schedule_at tp cb arg d = do
  check d.initialised
  some (
      if is_some cb
      then schedule_in (find_slot is_free max_scheduled_callbacks 0 d.table.slots) tp 0 cb arg d
      else (0, d))

-- The first deadline of a recurring slot; 0 is the sentinel of a core that has not started.
unfoldable pub first_deadline : ℕ → ℕ → Driver → ℕ
first_deadline now interval d = if d.table.started then (now + interval) % 2 ^ 64 else 0

unfoldable pub schedule_recurring : ℕ → ℕ → Option ℕ → ℕ → Driver → Option (ℕ × Driver)
unfolding schedule_in first_deadline
schedule_recurring now interval cb arg d = do
  check d.initialised
  some (
      if is_some cb && not (interval == 0)
      then schedule_in (find_slot is_free max_scheduled_callbacks 0 d.table.slots)
          (first_deadline now interval d) interval cb arg d
      else (0, d))

unfoldable pub cancel_in : Option ℕ → Driver → Bool × Driver
cancel_in none d = (false, d)
cancel_in (some i) d = (true, rearm_started (write_slots (update d.table.slots i free_slot) d))

unfoldable pub cancel : ℕ → Driver → Option (Bool × Driver)
unfolding cancel_in
cancel h d = if h == 0 then some (false, d) else do
  check d.initialised
  some (cancel_in (find_slot (λ s. s.id == h) max_scheduled_callbacks 0 d.table.slots) d)

unfoldable pub start : ℕ → Driver → Option Driver
unfolding anchor_pended_recurring
start now d = if d.table.started then some d else do
  check d.initialised
  some
      (record (rearm_locked (record d {
        setup_hz = some 0;
        table = record (anchor_pended_recurring now d.table) { started = true };
      })) { irq_enabled = true })

unfoldable pub stop : Driver → Driver
stop d =
    if d.table.started
    then record d {
      irq_enabled = false;
      one_shot = none;
      table = record { started = false; next_id = d.table.next_id; slots = d.table.slots };
    }
    else d

-- The conversions of this driver, at the frequency `hz`, a uint32_t, as `ms` and `us` are.
unfoldable pub from_milliseconds : ℕ → ℕ → ℕ
unfolding ceil_div
from_milliseconds hz ms = ceil_div (ms * hz % 2 ^ 64) 1000

unfoldable pub from_microseconds : ℕ → ℕ → ℕ
unfolding ceil_div
from_microseconds hz us = ceil_div (us * hz % 2 ^ 64) 1000000

unfoldable pub to_milliseconds : ℕ → ℕ → ℕ
to_milliseconds hz d = (d * 1000 % 2 ^ 64 + hz / 2) % 2 ^ 64 / hz

unfoldable pub to_microseconds : ℕ → ℕ → ℕ
to_microseconds hz d = (d * 1000000 % 2 ^ 64 + hz / 2) % 2 ^ 64 / hz
