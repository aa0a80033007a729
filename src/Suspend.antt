-- ===== src/Suspend.antt =====
-- suspend and resume (src/kernel/threading_subsystem.cpp) of one thread, each access of the token and
-- of the disposition a step; resumes come from any core, and so do late wakes of other waits.
pub mod Kept
mod Tests
use cyros.Common.{ℕ, ◌+◌, ◌-◌, ◌≡◌, Bool, true, false, Option, none, some, ◌==◌, if◌then◌else◌}

-- The thread: not in suspend; at the top of the loop; prepared, about to look; having seen the token,
-- about to take it; having taken it, about to clear its disposition; about to commit; parked.
pub data Place : Type 0 where
  outside : Place
  preparing : Place
  looking : Place
  taking : Place
  clearing : Place
  committing : Place
  parked : Place

-- `in_flight` are the resumes that have set the token and whose wake has not reached the thread.
-- `resumes` counts the tokens set, `taken` those taken, and `calls` the calls of suspend.
pub record Suspension : Type 0 where
  pub resume_token : Bool
  pub prepared : Bool
  pub place : Place
  pub in_flight : ℕ
  pub resumes : ℕ
  pub taken : ℕ
  pub calls : ℕ

pub data Step : Type 0 where
  suspends : Step
  runs : Step
  resumes_token : Step
  wakes : Step
  strays : Step

-- commit_to_block: the look at the disposition and the park are one step.
unfoldable pub commit : Suspension → Suspension
commit s = record s { place = if s.prepared then Place.parked else Place.preparing }

-- The token is taken by a store, after the load that saw it.
unfoldable pub take_token : Suspension → Suspension
take_token s = record s { resume_token = false; place = Place.clearing; taken = s.taken + 1 }

unfoldable pub run : Place → Suspension → Option Suspension
unfolding commit take_token
run Place.preparing s = some (record s { prepared = true; place = Place.looking })
run Place.looking s =
    some (record s { place = if s.resume_token then Place.taking else Place.committing })
run Place.taking s = some (take_token s)
run Place.clearing s = some (record s { prepared = false; place = Place.outside })
run Place.committing s = some (commit s)
run Place.parked s = none
run Place.outside s = none

unfoldable pub suspend : Place → Suspension → Option Suspension
suspend Place.outside s = some (record s { place = Place.preparing; calls = s.calls + 1 })
suspend Place.preparing s = none
suspend Place.looking s = none
suspend Place.taking s = none
suspend Place.clearing s = none
suspend Place.committing s = none
suspend Place.parked s = none

-- A parked thread that is readied comes back to the top of the loop.
unfoldable pub unparked : Place → Place
unparked Place.parked = Place.preparing
unparked Place.outside = Place.outside
unparked Place.preparing = Place.preparing
unparked Place.looking = Place.looking
unparked Place.taking = Place.taking
unparked Place.clearing = Place.clearing
unparked Place.committing = Place.committing

-- What a wake does when it reaches the thread's core.
unfoldable pub ready : Suspension → Suspension
unfolding unparked
ready s = record s { prepared = false; place = unparked s.place }

-- resume: the token first,
unfoldable pub set_token : Suspension → Suspension
set_token s = record s { resume_token = true; in_flight = s.in_flight + 1; resumes = s.resumes + 1 }

-- then the wake.
unfoldable pub wake : Suspension → Option Suspension
unfolding ready
wake s = if s.in_flight == 0 then none else some (ready (record s { in_flight = s.in_flight - 1 }))

unfoldable pub take_step : Step → Suspension → Option Suspension
unfolding run suspend set_token wake ready
take_step suspends s = suspend s.place s
take_step runs s = run s.place s
take_step resumes_token s = some (set_token s)
take_step wakes s = wake s
take_step strays s = some (ready s)

pub data Reaches (s : Suspension) : Suspension → Type 0 where
  here : Reaches s s
  next : {u v : Suspension} (step : Step) → Reaches s u → take_step step u ≡ some v → Reaches s v
