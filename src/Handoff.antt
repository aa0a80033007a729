-- ===== src/Handoff.antt =====
-- An acquire of the handoff semaphore (src/userlib/sync/handoff_semaphore.cpp) by one thread, through
-- the wait engine (src/kernel/waitable.cpp), a step at a time; releases, other acquires and wakes come
-- between its steps.
pub mod OneToken
mod Tests
use cyros.Common.{
  ℕ, ◌+◌, ◌-◌, ◌≡◌, Bool, true, false, ◌&&◌, Option, none, some, ◌==◌, ltb, if◌then◌else◌,
}

-- The thread: in no acquire yet; about to try the counter; about to arm; armed, about to poll; about to
-- commit; parked; about to disarm; polling unarmed; about to settle; returned.
pub data Place : Type 0 where
  resting : Place
  trying : Place
  arming : Place
  polling : Place
  committing : Place
  parked : Place
  disarming : (satisfied : Bool) → Place
  repolling : Place
  settling : Place
  returned : Place

-- `in_flight` are the hand-overs to the thread whose wake has not reached it. `held` is history: the
-- tokens that this acquire has.
pub record Acquire : Type 0 where
  pub counter : ℕ
  pub queued : Bool
  pub prepared : Bool
  pub chosen_by_wake : Bool
  pub took_counted : Bool
  pub in_flight : ℕ
  pub place : Place
  pub held : ℕ

-- The compare-exchange loop is one step.
unfoldable pub try_acquire : Acquire → Bool × Acquire
try_acquire s =
    if ltb 0 s.counter
    then (true, record s { counter = s.counter - 1; held = s.held + 1 })
    else (false, s)

unfoldable pub try_satisfy : Acquire → Bool × Acquire
try_satisfy s =
    if s.chosen_by_wake
    then (true, s)
    else if ltb 0 s.counter
    then (true, record s { counter = s.counter - 1; held = s.held + 1; took_counted = true })
    else (false, s)

-- A node that is gone was taken by a hand-over.
unfoldable pub disarm : Bool → Acquire → Acquire
disarm satisfied s = record s {
  queued = false;
  chosen_by_wake = if s.queued then s.chosen_by_wake else true;
  place = if satisfied then Place.settling else Place.repolling;
}

-- The token given back is the others' to count or to hand on.
unfoldable pub settle : Acquire → Acquire
settle s = record s {
  held = if s.took_counted && s.chosen_by_wake then s.held - 1 else s.held;
  place = Place.returned;
}

unfoldable pub run : Place → Acquire → Option Acquire
unfolding try_acquire try_satisfy disarm settle
run Place.resting s = none
run Place.trying s =
    let (got, s') = try_acquire s in
    some (record s' { place = if got then Place.returned else Place.arming })
run Place.arming s = some (record s { prepared = true; queued = true; place = Place.polling })
run Place.polling s =
    let (satisfied, s') = try_satisfy s in
    some (record s' { place = if satisfied then Place.disarming true else Place.committing })
run Place.committing s =
    some (record s { place = if s.prepared then Place.parked else Place.disarming false })
run Place.parked s = none
run (Place.disarming satisfied) s = some (disarm satisfied s)
run Place.repolling s =
    let (satisfied, s') = try_satisfy s in
    some (record s' { place = if satisfied then Place.settling else Place.arming })
run Place.settling s = some (settle s)
run Place.returned s = none

abbrev started : Acquire → Acquire
started s = record s {
  place = Place.trying;
  chosen_by_wake = false;
  took_counted = false;
  held = 0;
}

unfoldable pub acquire : Place → Acquire → Option Acquire
acquire Place.resting s = some (started s)
acquire Place.returned s = some (started s)
acquire Place.trying s = none
acquire Place.arming s = none
acquire Place.polling s = none
acquire Place.committing s = none
acquire Place.parked s = none
acquire (Place.disarming satisfied) s = none
acquire Place.repolling s = none
acquire Place.settling s = none

-- A hand-over that finds this thread first in the queue.
unfoldable pub hand_over : Acquire → Option Acquire
hand_over s =
    if s.queued
    then some (record s { queued = false; in_flight = s.in_flight + 1; held = s.held + 1 })
    else none

unfoldable pub unparked : Place → Place
unparked Place.parked = Place.disarming false
unparked Place.resting = Place.resting
unparked Place.trying = Place.trying
unparked Place.arming = Place.arming
unparked Place.polling = Place.polling
unparked Place.committing = Place.committing
unparked (Place.disarming satisfied) = Place.disarming satisfied
unparked Place.repolling = Place.repolling
unparked Place.settling = Place.settling
unparked Place.returned = Place.returned

unfoldable pub ready : Acquire → Acquire
unfolding unparked
ready s = record s { prepared = false; place = unparked s.place }

unfoldable pub wake : Acquire → Option Acquire
unfolding ready
wake s = if s.in_flight == 0 then none else some (ready (record s { in_flight = s.in_flight - 1 }))

-- `strays` is a late wake of an earlier wait, `others` what others do to the counter.
pub data Step : Type 0 where
  acquires : Step
  runs : Step
  hands_over : Step
  wakes : Step
  strays : Step
  others : (counter : ℕ) → Step

unfoldable pub take_step : Step → Acquire → Option Acquire
unfolding run acquire hand_over ready wake
take_step acquires s = acquire s.place s
take_step runs s = run s.place s
take_step hands_over s = hand_over s
take_step wakes s = wake s
take_step strays s = some (ready s)
take_step (others n) s = some (record s { counter = n })

pub data Reaches (s : Acquire) : Acquire → Type 0 where
  here : Reaches s s
  next : {u v : Acquire} (step : Step) → Reaches s u → take_step step u ≡ some v → Reaches s v
