-- ===== src/Time/Simulation.antt =====
-- The simulation time driver (src/time/simulation/time_driver_simulation.cpp) in virtual time: a list
-- of events for each core, which whoever advances the time fires.
pub mod Pump
pub mod Cores
pub mod Tests
pub mod Cancelling
use cyros.Common.{
  ℕ, zero, suc, ◌+◌, ◌-◌, ◌%◌, ◌^◌, ◌≤◌, Bool, true, false, not, ◌&&◌, ◌||◌, Option, none, some,
  List, [], ◌∷◌, ◌++◌, ◌==◌, leb, ltb, if◌then◌else◌, update, ◌>>=◌, ◌>>◌, check,
}
use cyros.Time.Timetable.{advance}

-- A callback and its argument are known by numbers.
pub record Event : Type 0 where
  pub id : ℕ
  pub when : ℕ
  pub period : ℕ
  pub cb : ℕ
  pub arg : ℕ
  pub cancelled : Bool

pub record CoreState : Type 0 where
  pub events : List Event
  pub next_id : ℕ

-- `calls` are the callbacks made, the latest last.
pub record Simulation : Type 0 where
  pub virtual_mode : Bool
  pub running : Bool
  pub started : Bool
  pub virtual_now : ℕ
  pub per_core : ℕ → CoreState
  pub calls : List (ℕ × ℕ)

abbrev pub events_of : Simulation → ℕ → List Event
events_of s c = (s.per_core c).events

abbrev pub with_events : ℕ → List Event → Simulation → Simulation
with_events c es s = record s {
  per_core = update s.per_core c (record { events = es; next_id = (s.per_core c).next_id });
}

-- The handle, and the counter, a uint32_t that gives no 0.
unfoldable pub next_handle_id : ℕ → ℕ × ℕ
next_handle_id next =
    let after = (next + 1) % 2 ^ 32 in
    if next == 0 then (after, (after + 1) % 2 ^ 32) else (next, after)

-- `std::erase_if` of the cancelled events.
unfoldable pub live : List Event → List Event
live [] = []
live (e ∷ es) = let rest = live es in if e.cancelled then rest else e ∷ rest

unfoldable pub is_due : ℕ → Event → Bool
is_due now e = not (e.id == 0) && not e.cancelled && leb e.when now

unfoldable pub find_due : ℕ → List Event → Option Event
unfolding is_due
find_due now [] = none
find_due now (e ∷ es) = let further = find_due now es in if is_due now e then some e else further

-- The list without the one-shot that the search has found, or with its recurring event moved on.
unfoldable pub taken : ℕ → List Event → Option (List Event)
unfolding is_due
taken now [] = none
taken now (e ∷ es) =
    let further = (do r ← taken now es; some (e ∷ r)) in
    let moved = (do
      w ← advance (suc (now - e.when)) now e.period e.when
      some (record e { when = w } ∷ es)) in
    if is_due now e then (if e.period == 0 then some es else moved) else further

-- The branches on what a search has found.
abbrev pub where_found : {R : Type 0} → Option Event → (Event → R) → R → R
where_found none found ended = ended
where_found (some e) found ended = found e

-- What a callback does is the application's.
module _ (run : ℕ → ℕ → Simulation → Simulation) where
  abbrev pub call : Event → Simulation → Simulation
  call e s = run e.cb e.arg (record s { calls = s.calls ++ (e.cb, e.arg) ∷ [] })

  -- The loop of fire_due_callbacks on a core. `none`: the fuel ran out.
  unfoldable pub fire_core : (fuel now c : ℕ) → Simulation → Option Simulation
  unfolding live find_due taken
  fire_core zero now c s = none
  fire_core (suc fuel) now c s =
      let es = live (events_of s c) in
      let go_on = λ (e : Event). (do
        es' ← taken now es
        fire_core fuel now c (call e (with_events c es' s))) in
      where_found (find_due now es) go_on (some (with_events c es s))

  unfoldable pub fire_cores : (rounds fuel now c : ℕ) → Simulation → Option Simulation
  unfolding fire_core
  fire_cores zero fuel now c s = some s
  fire_cores (suc rounds) fuel now c s = do
    s' ← fire_core fuel now c s
    fire_cores rounds fuel now (c + 1) s'

  module _ (cores : ℕ) where
    unfoldable pub fire_due_callbacks : (fuel now : ℕ) → Simulation → Option Simulation
    unfolding fire_cores
    fire_due_callbacks fuel now s = fire_cores cores fuel now 0 s

    -- Time does not go back.
    unfoldable pub advance_to : (fuel tp : ℕ) → Simulation → Option Simulation
    unfolding fire_due_callbacks
    advance_to fuel tp s = do
      check s.virtual_mode
      let target = if ltb tp s.virtual_now then s.virtual_now else tp
      fire_due_callbacks fuel target (record s { virtual_now = target })

    unfoldable pub advance_by : (fuel d : ℕ) → Simulation → Option Simulation
    unfolding advance_to
    advance_by fuel d s = do check s.virtual_mode; advance_to fuel ((s.virtual_now + d) % 2 ^ 64) s

-- `none` for the callback is nullptr; 0 is the invalid handle.
unfoldable pub push_event : ℕ → (when period cb arg : ℕ) → Simulation → ℕ × Simulation
unfolding next_handle_id
push_event c when period cb arg s =
    let (id, next) = next_handle_id (s.per_core c).next_id in
    (
      id,
      record s {
        per_core = update s.per_core c (record {
          events =
              events_of s c
              ++ record {
                id = id;
                when = when;
                period = period;
                cb = cb;
                arg = arg;
                cancelled = false;
              }
                ∷ [];
          next_id = next;
        });
      },
    )

unfoldable pub schedule_at : ℕ → (tp : ℕ) → Option ℕ → (arg : ℕ) → Simulation → ℕ × Simulation
unfolding push_event
schedule_at c tp none arg s = (0, s)
schedule_at c tp (some cb) arg s = push_event c tp 0 cb arg s

unfoldable pub schedule_recurring :
    ℕ → (interval : ℕ) → Option ℕ → (arg : ℕ) → Simulation → ℕ × Simulation
unfolding push_event
schedule_recurring c interval none arg s = (0, s)
schedule_recurring c interval (some cb) arg s =
    if interval == 0
    then (0, s)
    else push_event c ((s.virtual_now + interval) % 2 ^ 64) interval cb arg s

-- The loop of cancel: whether it found the event.
unfoldable pub cancel_event : ℕ → List Event → Bool × List Event
cancel_event h [] = (false, [])
cancel_event h (e ∷ es) =
    let further = cancel_event h es in
    let go_on : Bool × List Event = (further.0, e ∷ further.1) in
    if e.id == h && not e.cancelled then (true, record e { cancelled = true } ∷ es) else go_on

unfoldable pub cancel : ℕ → (h : ℕ) → Simulation → Bool × Simulation
unfolding cancel_event
cancel c h s =
    let (found, es) = cancel_event h (events_of s c) in
    if h == 0 then (false, s) else (found, with_events c es s)

-- `none`: the assert on a driver whose thread runs.
unfoldable pub reset : (tp : ℕ) → Simulation → Option Simulation
reset tp s = do
  check (not s.running)
  some (record s {
    started = false;
    virtual_now = tp;
    per_core = λ c. record { events = []; next_id = 1 };
  })
