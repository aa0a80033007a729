-- ===== src/Scheduler/Switch.antt =====
-- The roads into a switch: the intake, the decision, and the calls of the port
-- (src/kernel/scheduler.hpp and scheduler.cpp).
use cyros.Common.{
  ℕ, Bool, true, false, not, ◌&&◌, Option, none, some, List, [], ◌∷◌, ◌++◌, ◌==◌, if◌then◌else◌,
  ◌>>=◌, ◌>>◌, check, reverse,
}
use cyros.Common.Bits.{test_bit}
use cyros.Kernel.Thread.{ThreadState, ThreadDisposition, is_running, is_terminating}
use cyros.Scheduler.Core.{
  Core, PortCall, tcb_of, write_tcb, set_disposition, ScheduleHint, set_thread_running,
}
use cyros.Scheduler.Leaving.{
  set_thread_ready_never, DepartureReason, is_exited, departure_of, depart,
}
use cyros.Scheduler.Picking.{pick_next}

unfoldable pub or_idle : Option ℕ → ℕ → ℕ
or_idle none idle = idle
or_idle (some t) idle = t

unfoldable pub run_next : Core → Option (ℕ × Core)
unfolding pick_next or_idle
run_next c = do
  picked ← pick_next c
  running ← set_thread_running (or_idle picked.0 picked.1.idle) picked.1
  some (or_idle picked.0 picked.1.idle, running)

clear_wish : ℕ → Core → Core
clear_wish t c =
    if is_terminating (tcb_of c t).disposition
    then c
    else set_disposition t ThreadDisposition.none c

serve_ready : ℕ → Core → Option Core
unfolding set_thread_ready_never clear_wish
serve_ready t c = do r ← set_thread_ready_never t (clear_wish t c); some r.1

-- service_intake, for the bits that the intake took; make_ready is bit 0.
unfoldable pub service_intake : ℕ → ℕ → Core → Option Core
unfolding serve_ready
service_intake t bits c = if test_bit 0 bits then serve_ready t c else some c

-- The second loop of drain_intake, over the threads in order of arrival.
unfoldable pub drain_each : List ℕ → Core → Option Core
unfolding service_intake
drain_each [] c = some c
drain_each (t ∷ ts) c = do
  served ←
      service_intake t (tcb_of c t).pending_requests
        (write_tcb t (record (tcb_of c t) { pending_requests = 0 }) c)
  drain_each ts served

unfoldable pub drain_intake : Core → Option Core
unfolding drain_each
drain_intake c = drain_each (reverse c.intake) (record c { intake = [] })

-- A running thread departs; one that a wake of another core has readied is filed already.
unfoldable pub depart_running : DepartureReason → ℕ → Core → Option Core
depart_running reason t c = if is_running (tcb_of c t).state then depart reason t c else some c

unfoldable pub decide_for : ℕ → DepartureReason → Core → Option (ℕ × Core)
unfolding depart_running
decide_for prev reason c = do departed ← depart_running reason prev c; run_next departed

-- The decision of the thread's road and of an interrupt's wake: the departing thread is the first
-- result, the pick the second.
unfoldable pub decide : DepartureReason → Core → Option (ℕ × ℕ × Core)
unfolding decide_for
decide reason c = do
  drained ← drain_intake c
  prev ← drained.current
  r ← decide_for prev reason drained
  some (prev, r.0, r.1)

-- The thread's road, called at baseline, which an exit does not take: the port switches, unless the thread is picked again.
unfoldable pub direct_reschedule : DepartureReason → Core → Option Core
unfolding decide
direct_reschedule reason c = do
  check (not (is_exited reason))
  (prev, next, decided) ← decide reason c
  some (
      if next == prev
      then decided
      else record decided { calls = decided.calls ++ PortCall.direct_switch prev next ∷ [] })

-- An interrupt's wake: the port owes the switch to the interrupt's return.
unfoldable pub interrupt_reschedule : Core → Option Core
unfolding decide
interrupt_reschedule c = do
  (prev, next, decided) ← decide DepartureReason.preempted c
  some (
      if next == prev
      then decided
      else record decided { calls = decided.calls ++ PortCall.owe_switch prev next ∷ [] })

-- What the port answers of the point where a wake is made: whether the mask was taken at baseline,
-- and whether the interrupt's return reaches a thread at baseline.
pub record Point : Type 0 where
  pub masked_from_baseline : Bool
  pub interrupted_at_baseline : Bool

switch_now : Core → Option (ScheduleHint × Core)
unfolding direct_reschedule
switch_now c = do
  switched ← direct_reschedule DepartureReason.preempted c
  some (ScheduleHint.rescheduled, switched)

owe_now : Core → Option (ScheduleHint × Core)
unfolding interrupt_reschedule
owe_now c = do owed ← interrupt_reschedule c; some (ScheduleHint.rescheduled, owed)

wake_switch : Point → ScheduleHint × Core → Option (ScheduleHint × Core)
unfolding switch_now owe_now
wake_switch p (hint, c) =
    if p.masked_from_baseline
    then switch_now c
    else if p.interrupted_at_baseline
    then owe_now c
    else some (hint, c)

abbrev is_warranted : ScheduleHint → Bool
is_warranted ScheduleHint.warranted = true
is_warranted _ = false

-- set_thread_ready; `never` says that the policy is reschedule_policy::never.
unfoldable pub set_thread_ready : Point → Bool → ℕ → Core → Option (ScheduleHint × Core)
unfolding set_thread_ready_never wake_switch
set_thread_ready p never t c = do
  r ← set_thread_ready_never t c
  if is_warranted r.0 && not never then wake_switch p r else some r

unfoldable pub yield : Point → Core → Option Core
unfolding direct_reschedule
yield p c = do check p.masked_from_baseline; direct_reschedule DepartureReason.yielded c

unfoldable pub park : Point → Core → Option Core
unfolding direct_reschedule
park p c = do check p.masked_from_baseline; direct_reschedule DepartureReason.parked c

-- The departure on the handler's road, and the context that the port saves into: none for an exit.
depart_reconstructed : ℕ → DepartureReason → Core → Option (Option ℕ × Core)
unfolding depart
depart_reconstructed t DepartureReason.exited c = do
  gone ← depart DepartureReason.exited t c
  some (none, gone)
depart_reconstructed t reason c = do left ← depart reason t c; some (some t, left)

depart_by_state : ℕ → ThreadState → Core → Option (Option ℕ × Core)
unfolding depart_reconstructed departure_of
depart_by_state t ThreadState.running c = depart_reconstructed t (departure_of t c) c
depart_by_state t ThreadState.ready c = some (some t, c)
depart_by_state t ThreadState.terminated c = some (some t, c)
depart_by_state t ThreadState.blocked c = none
depart_by_state t ThreadState.created c = none

-- The handler's road.
unfoldable pub reschedule : Core → Option Core
unfolding drain_intake depart_by_state run_next
reschedule c = do
  current ← c.current
  check (not (tcb_of c current).enqueued)
  drained ← drain_intake c
  prev ← drained.current
  (capture, departed) ← depart_by_state prev (tcb_of drained prev).state drained
  (next, running) ← run_next departed
  some (record running { calls = running.calls ++ PortCall.switch capture next ∷ [] })
