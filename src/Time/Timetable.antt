-- ===== src/Time/Timetable.antt =====
-- The timetable of one core, which the two time drivers keep alike
-- (src/time/tickless/time_driver_tickless.cpp, and the same text in
-- src/time/periodic/time_driver_periodic.cpp).
use cyros.Common.{
  ℕ, zero, suc, ◌+◌, ◌-◌, ◌%◌, ◌^◌, ◌/◌, Bool, not, ◌&&◌, Option, none, some, List, [], ◌∷◌, ◌++◌,
  ◌==◌, leb, if◌then◌else◌, update, ◌>>=◌,
}

abbrev pub max_scheduled_callbacks : ℕ
max_scheduled_callbacks = 16

-- A callback and its argument are known by numbers; `none` is nullptr.
pub record Slot : Type 0 where
  pub id : ℕ
  pub when : ℕ
  pub period : ℕ
  pub cb : Option ℕ
  pub arg : ℕ

abbrev pub free_slot : Slot
free_slot = record { id = 0; when = 0; period = 0; cb = none; arg = 0 }

pub record Timetable : Type 0 where
  pub started : Bool
  pub next_id : ℕ
  pub slots : ℕ → Slot

-- A driver as its core sees it: `tconfig`, the core's timetable, and what the port has been asked:
-- the deadline that the core's one-shot is armed for, the frequency of its set-up, and whether its timer
-- interrupt is enabled. `calls` are the callbacks made, the latest last.
pub record Driver : Type 0 where
  pub initialised : Bool
  pub frequency_hz : ℕ
  pub table : Timetable
  pub one_shot : Option ℕ
  pub setup_hz : Option ℕ
  pub irq_enabled : Bool
  pub calls : List (Option ℕ × ℕ)

abbrev pub slot_at : Driver → ℕ → Slot
slot_at d i = d.table.slots i

abbrev pub write_slots : (ℕ → Slot) → Driver → Driver
write_slots slots d = record d {
  table = record { started = d.table.started; next_id = d.table.next_id; slots = slots };
}

-- The handle, and the timetable; the counter is a uint32_t.
unfoldable pub next_handle_id : Timetable → ℕ × Timetable
next_handle_id t =
    let after = (t.next_id + 1) % 2 ^ 32 in
    if t.next_id == 0
    then (after, record t { next_id = (after + 1) % 2 ^ 32 })
    else (t.next_id, record t { next_id = after })

-- The first slot from `i` on that the loops of schedule and cancel stop at.
unfoldable pub find_slot : (Slot → Bool) → ℕ → ℕ → (ℕ → Slot) → Option ℕ
find_slot test zero i slots = none
find_slot test (suc rounds) i slots =
    let further = find_slot test rounds (i + 1) slots in if test (slots i) then some i else further

unfoldable pub anchor_slot : ℕ → Slot → Slot
anchor_slot now s =
    if not (s.id == 0) && not (s.period == 0) && s.when == 0
    then record s { when = (now + s.period) % 2 ^ 64 }
    else s

unfoldable pub anchor_pended_recurring : ℕ → Timetable → Timetable
unfolding anchor_slot
anchor_pended_recurring now t = record t { slots = λ i. anchor_slot now (t.slots i) }

-- `do { when += period; } while (when <= now);`. `none`: the fuel ran out.
unfoldable pub advance : ℕ → ℕ → ℕ → ℕ → Option ℕ
advance zero now period when = none
advance (suc fuel) now period when =
    let next = (when + period) % 2 ^ 64 in
    let further = advance fuel now period next in if leb next now then further else some next

abbrev pub is_due : ℕ → Slot → Bool
is_due now s = not (s.id == 0) && leb s.when now

-- The slot, when it has fired.
unfoldable pub fired : ℕ → Slot → Option Slot
fired now s =
    if s.period == 0
    then some free_slot
    else do next ← advance (suc (now - s.when)) now s.period s.when; some (record s { when = next })

-- What a callback does to the driver is the application's.
module _ (run : Option ℕ → ℕ → Driver → Driver) where
  unfoldable pub fire_live : ℕ → ℕ → Driver → Option Driver
  unfolding fired
  fire_live now i d = do
    next ← fired now (slot_at d i)
    some (
        run (slot_at d i).cb (slot_at d i).arg
          (record (write_slots (update d.table.slots i next) d) {
            calls = d.calls ++ ((slot_at d i).cb, (slot_at d i).arg) ∷ [];
          }))

  unfoldable pub fire_slot : ℕ → ℕ → Driver → Option Driver
  unfolding fire_live
  fire_slot now i d = if is_due now (slot_at d i) then fire_live now i d else some d

  unfoldable pub fire_each : ℕ → ℕ → ℕ → Driver → Option Driver
  unfolding fire_slot
  fire_each zero i now d = some d
  fire_each (suc rounds) i now d = do d' ← fire_slot now i d; fire_each rounds (i + 1) now d'

  unfoldable pub fire_due_isr : ℕ → Driver → Option Driver
  fire_due_isr now d = fire_each max_scheduled_callbacks 0 now d

-- The 64-bit sum and quotient of ceil_div_u64.
unfoldable pub ceil_div : ℕ → ℕ → ℕ
ceil_div a b = (a + b - 1) % 2 ^ 64 / b
