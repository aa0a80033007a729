-- ===== src/Time/Tests.antt =====
-- A started core with a recurring slot, a one-shot slot and fourteen free ones, and its driver's calls.
use cyros.Common.{
  ℕ, ◌+◌, ◌*◌, ◌^◌, ◌≤◌, ◌<◌, ◌≡◌, refl, ap, fun_ext, true, false, Option, some, none, [], ◌∷◌,
  ◌++◌, arith, ◌==◌, if◌then◌else◌,
}
use cyros.Time.Timetable.{
  Slot, Driver, slot_at, free_slot, max_scheduled_callbacks, fire_due_isr, next_handle_id,
  anchor_pended_recurring, anchor_slot,
}
use cyros.Time.Tickless as Tickless
use cyros.Time.Tickless.{from_milliseconds, to_milliseconds}
use cyros.Time.Periodic as Periodic
use cyros.Time.Armed.{Armed, Call, Reaches, reached-Armed}
use cyros.Time.Firing.{fire_due_isr-Serviced, Serviced, due_calls}
use cyros.Time.Agreement.{kept, schedule-agree}
use cyros.Time.Handles.{Undone, cancel-schedule_at}
use cyros.Time.Conversion.{from_milliseconds-bounds}

-- A callback that leaves the driver alone.
abbrev idle_callback : Option ℕ → ℕ → Driver → Driver
idle_callback cb arg d = d

abbrev slots : ℕ → Slot
slots i =
    if i == 0
    then record { id = 5; when = 10; period = 4; cb = some 100; arg = 1 }
    else if i == 2
    then record { id = 6; when = 30; period = 0; cb = some 200; arg = 2 }
    else free_slot

abbrev driver : Driver
driver = record {
  initialised = true;
  frequency_hz = 2000;
  table = record { started = true; next_id = 7; slots = slots };
  one_shot = some 10;
  setup_hz = some 0;
  irq_enabled = true;
  calls = [];
}

abbrev resting : Driver
resting = record driver {
  table = record { started = false; next_id = 1; slots = λ i. free_slot };
  one_shot = none;
  irq_enabled = false;
}

short : (j : ℕ) → 21 + (slot_at driver j).period < 2 ^ 64
short j = ground arith

fire_due_isr-Serviced_example :
    (d' : Driver) × (fire_due_isr idle_callback 21 driver ≡ some d')
    × ((j : ℕ) → j < max_scheduled_callbacks → Serviced 21 (slot_at driver j) (slot_at d' j))
    × (d'.calls ≡ [] ++ due_calls max_scheduled_callbacks 0 21 slots)
fire_due_isr-Serviced_example =
    fire_due_isr-Serviced idle_callback (λ cb arg d. (refl, refl)) 21 driver short

due : due_calls max_scheduled_callbacks 0 21 slots ≡ (some 100, 1) ∷ []
due = refl

schedule-agree_example :
    (kept (Tickless.schedule_at 50 (some 300) 3 driver)
      ≡ kept (Periodic.schedule_at 50 (some 300) 3 driver))
    × (kept (Tickless.schedule_recurring 21 6 (some 300) 3 driver)
        ≡ kept (Periodic.schedule_recurring 21 6 (some 300) 3 driver))
    × (kept (Tickless.cancel 6 driver) ≡ kept (Periodic.cancel 6 driver))
schedule-agree_example = schedule-agree 21 50 6 6 (some 300) 3 driver

cancel-schedule_at_example :
    (h : ℕ) × (d' : Driver) × (d'' : Driver) × (Tickless.schedule_at 50 (some 300) 3 driver
      ≡ some (h, d'))
    × (Tickless.cancel h d' ≡ some (true, d''))
    × Undone driver d' d'' h
unfolding next_handle_id
cancel-schedule_at_example =
    cancel-schedule_at 50 300 3 1 driver refl (omega arith) refl (λ j h e. ground arith)
      (λ j h. ground arith)

-- A callback scheduled on a core at rest, which then starts.
abbrev waiting : Driver
waiting = record resting {
  table = record {
    started = false;
    next_id = 2;
    slots = λ i.
        if i == 0
        then record { id = 1; when = 50; period = 0; cb = some 300; arg = 3 }
        else free_slot;
  };
}

abbrev awake : Driver
awake = record waiting {
  table = record waiting.table { started = true };
  one_shot = some 50;
  setup_hz = some 0;
  irq_enabled = true;
}

started_path : Tickless.start 40 waiting ≡ some awake
unfolding Tickless.start anchor_pended_recurring anchor_slot Tickless.rearm_locked
    Tickless.earliest_from
started_path = ap some (
    ap (λ f. record awake { table = record awake.table { slots = f } }) (fun_ext λ i. ground arith))

reached-Armed_example : Armed awake
reached-Armed_example =
    reached-Armed idle_callback {d = waiting} {e = awake} refl
      (Reaches.next (Call.started 40) Reaches.here started_path)

from_milliseconds-bounds_example :
    (3 * 2000 ≤ from_milliseconds 2000 3 * 1000)
    × (from_milliseconds 2000 3 * 1000 < 3 * 2000 + 1000)
from_milliseconds-bounds_example = from_milliseconds-bounds 2000 3 (omega arith) (omega arith)
