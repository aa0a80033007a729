-- ===== src/Scheduler/Leaving.antt =====
-- Leaving the core: waking threads, termination, and the departures of the running thread
-- (src/kernel/scheduler.hpp, scheduler.cpp, and global_ready_thread of kernel.cpp).
use cyros.Common.{
  ℕ, ◌-◌, Bool, true, false, not, ◌&&◌, Option, some, List, [], ◌∷◌, ◌++◌, ◌==◌, if◌then◌else◌,
  ◌>>=◌, ◌>>◌, check, is_empty,
}
use cyros.Kernel.Thread.{ThreadState, ThreadDisposition, is_running, is_terminating, holds_nothing}
use cyros.Scheduler.Matrix.{has_more_urgent_than}
use cyros.Scheduler.Core.{
  Core, tcb_of, write_tcb, set_state, set_disposition, admit, ScheduleHint, is_finished, make_ready,
  set_thread_blocked,
}

-- set_thread_ready under reschedule_policy::never.
unfoldable pub set_thread_ready_never : ℕ → Core → Option (ScheduleHint × Core)
set_thread_ready_never t c = do check ((tcb_of c t).pinned_core == c.core_id); make_ready t c

-- global_ready_thread on this core, under reschedule_policy::never. A wake of a thread of another
-- core goes to that core's intake.
ready_here : ℕ → Core → Option (ScheduleHint × Core)
unfolding set_thread_ready_never
ready_here t c =
    let woken = set_disposition t ThreadDisposition.none c in
    if is_running (tcb_of c t).state
    then some (ScheduleHint.unwarranted, woken)
    else set_thread_ready_never t woken

unfoldable pub global_ready_thread : ℕ → Core → Option (ScheduleHint × Core)
unfolding ready_here
global_ready_thread t c =
    if is_finished (tcb_of c t)
    then some (ScheduleHint.unwarranted, c)
    else if (tcb_of c t).pinned_core == c.core_id
    then ready_here t c
    else some (ScheduleHint.unwarranted, record c { posted = c.posted ++ t ∷ [] })

-- The wakes of raise_all, in the order of the queue.
unfoldable pub ready_each : List ℕ → Core → Option Core
ready_each [] c = some c
ready_each (t ∷ ts) c = do r ← global_ready_thread t c; ready_each ts r.1

-- cancel_signal::raise of a thread's termination: the flag, and every joiner off the queue and readied.
raise_termination : ℕ → Core → Option Core
unfolding ready_each
raise_termination t c =
    ready_each (tcb_of c t).joiners
      (write_tcb t (record (tcb_of c t) { termination_raised = true; joiners = [] }) c)

unfoldable pub set_thread_terminated : ℕ → Core → Option Core
unfolding raise_termination
set_thread_terminated t c = do
  check ((tcb_of c t).pinned_core == c.core_id)
  check (is_running (tcb_of c t).state)
  check (is_terminating (tcb_of c t).disposition)
  check (not (t == c.idle))
  check (not (tcb_of c t).enqueued)
  check (holds_nothing (tcb_of c t))
  check (not (c.active_threads == 0))
  raise_termination t
      (record (set_state t ThreadState.terminated c) { active_threads = c.active_threads - 1 })

pub data DepartureReason : Type 0 where
  yielded preempted parked exited : DepartureReason

abbrev pub is_exited : DepartureReason → Bool
is_exited DepartureReason.yielded = false
is_exited DepartureReason.preempted = false
is_exited DepartureReason.parked = false
is_exited DepartureReason.exited = true

unfoldable pub is_preempted : ℕ → Core → Bool
is_preempted t c =
    has_more_urgent_than (tcb_of c t).base_priority c.matrix
    && is_empty c.holders
    && holds_nothing (tcb_of c t)

unfoldable pub departure_of : ℕ → Core → DepartureReason
unfolding is_preempted
departure_of t c =
    if is_terminating (tcb_of c t).disposition
    then DepartureReason.exited
    else if is_preempted t c
    then DepartureReason.preempted
    else DepartureReason.yielded

unfoldable pub depart : DepartureReason → ℕ → Core → Option Core
unfolding admit set_thread_blocked set_thread_terminated
depart DepartureReason.yielded t c = admit false t c
depart DepartureReason.preempted t c = admit true t c
depart DepartureReason.parked t c = set_thread_blocked t c
depart DepartureReason.exited t c = set_thread_terminated t c
