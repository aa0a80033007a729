-- ===== src/Scheduler/Core.antt =====
-- The state of one core's scheduler and its ready structures: admit, make_ready, link_holder,
-- unlink_holder, pop_best_thread and the thread state changes (src/kernel/scheduler.hpp and .cpp).
-- `none` is an assert that fires. Traces are left out.
use cyros.Common.{
  ℕ, Bool, true, false, not, ◌&&◌, ◌||◌, Option, none, some, List, [], ◌∷◌, ◌++◌, ◌==◌, ltb,
  if◌then◌else◌, update, erase, count, ◌>>=◌, ◌>>◌, check,
}
use cyros.Kernel.Thread.{
  Tcb, ThreadState, ThreadDisposition, is_ready, is_running, is_terminated, is_prepared,
  is_terminating, holds_nothing,
}
use cyros.Kernel.Store.{Store}
use cyros.Kernel.Urgency.{urgency}
use cyros.Scheduler.Matrix.{Matrix, file_back, file_front, unfile, pop_best}

-- What the scheduler asks of the port.
pub data PortCall : Type 0 where
  direct_switch : ℕ → ℕ → PortCall
  owe_switch : ℕ → ℕ → PortCall
  switch : Option ℕ → ℕ → PortCall

-- `intake` is the stack of threads with requests from other cores, the latest first; `holders` the
-- list from holders_head to holders_tail. `posted` are the wakes sent to other cores' intakes and
-- `calls` those of the port, each the latest last. `max_priorities` is the build's configuration.
pub record Core : Type 0 where
  pub store : Store
  pub core_id : ℕ
  pub max_priorities : ℕ
  pub current : Option ℕ
  pub idle : ℕ
  pub matrix : Matrix
  pub intake : List ℕ
  pub holders : List ℕ
  pub tie_rotor : ℕ
  pub active_threads : ℕ
  pub posted : List ℕ
  pub calls : List PortCall

abbrev pub tcb_of : Core → ℕ → Tcb
tcb_of c t = c.store.tcb t

abbrev pub write_tcb : ℕ → Tcb → Core → Core
write_tcb t b c = record c {
  store = record { tcb = update c.store.tcb t b; mutex = c.store.mutex };
}

abbrev pub set_state : ℕ → ThreadState → Core → Core
set_state t st c = write_tcb t (record (tcb_of c t) { state = st }) c

abbrev pub set_disposition : ℕ → ThreadDisposition → Core → Core
set_disposition t d c = write_tcb t (record (tcb_of c t) { disposition = d }) c

abbrev pub set_enqueued : ℕ → Bool → Core → Core
set_enqueued t b c = write_tcb t (record (tcb_of c t) { enqueued = b }) c

abbrev pub set_listed : ℕ → Bool → Core → Core
set_listed t b c = write_tcb t (record (tcb_of c t) { listed = b }) c

unfoldable pub file_in : Bool → ℕ → Core → Core
file_in at_front t c =
    let priority = (tcb_of c t).base_priority in
    record (set_enqueued t true c) {
      matrix = if at_front then file_front priority t c.matrix else file_back priority t c.matrix;
    }

-- enqueue_thread and enqueue_thread_front, with the asserts of the queue's push.
unfoldable pub enqueue : Bool → ℕ → Core → Option Core
enqueue at_front t c = do
  check (ltb (tcb_of c t).base_priority c.max_priorities)
  check (is_ready (tcb_of c t).state)
  check (not (tcb_of c t).enqueued)
  some (file_in at_front t c)

unfoldable pub append_holder : ℕ → Core → Core
append_holder t c = record (set_listed t true c) { holders = c.holders ++ t ∷ [] }

unfoldable pub link_holder : ℕ → Core → Option Core
link_holder t c = do
  check ((tcb_of c t).pinned_core == c.core_id)
  some (if (tcb_of c t).listed then c else append_holder t c)

unfoldable pub drop_holder : ℕ → Core → Core
drop_holder t c = record (set_listed t false c) { holders = erase t c.holders }

unlink_listed : ℕ → Core → Option Core
unlink_listed t c = do check (not (count t c.holders == 0)); some (drop_holder t c)

unfoldable pub unlink_holder : ℕ → Core → Option Core
unfolding unlink_listed
unlink_holder t c = do
  check ((tcb_of c t).pinned_core == c.core_id)
  if (tcb_of c t).listed then unlink_listed t c else some c

unfoldable pub file_ready : Bool → ℕ → Core → Option Core
file_ready at_front t c =
    if holds_nothing (tcb_of c t) then enqueue at_front t c else link_holder t c

-- The idle thread is in no ready structure.
unfoldable pub admit : Bool → ℕ → Core → Option Core
unfolding file_ready
admit at_front t c =
    if t == c.idle
    then some (set_state t ThreadState.ready c)
    else file_ready at_front t (set_state t ThreadState.ready c)

unfoldable pub unfiled : ℕ → Core → Core
unfiled t c = record (set_enqueued t false c) {
  matrix = unfile (tcb_of c t).base_priority t c.matrix;
}

unfoldable pub remove_thread : ℕ → Core → Option Core
remove_thread t c =
    let priority = (tcb_of c t).base_priority in
    do
      check (ltb priority c.max_priorities)
      check (not (count t (c.matrix.levels priority) == 0))
      some (unfiled t c)

pub data ScheduleHint : Type 0 where
  unwarranted warranted rescheduled : ScheduleHint

unfoldable pub urgency_of_current : Core → ℕ
urgency_of_current c = elim c.current [ none ↦ 0 | some t ↦ urgency c.store t ]

unfoldable pub hint_for : ℕ → Core → ScheduleHint
hint_for t c =
    if ltb (urgency c.store t) (urgency_of_current c)
    then ScheduleHint.warranted
    else ScheduleHint.unwarranted

unfoldable pub refile : ℕ → Core → Option (ScheduleHint × Core)
refile t c = do
  removed ← remove_thread t c
  moved ← link_holder t removed
  some (hint_for t moved, moved)

-- An admitted thread is filed anew where it has come to hold a mutex since.
unfoldable pub reroute : ℕ → Core → Option (ScheduleHint × Core)
reroute t c = do
  check (is_ready (tcb_of c t).state)
  if (tcb_of c t).enqueued && not (holds_nothing (tcb_of c t))
      then refile t c
      else some (ScheduleHint.unwarranted, c)

abbrev pub is_finished : Tcb → Bool
is_finished b = is_terminated b.state || is_terminating b.disposition

unfoldable pub make_ready : ℕ → Core → Option (ScheduleHint × Core)
make_ready t c =
    if is_finished (tcb_of c t)
    then some (ScheduleHint.unwarranted, c)
    else if (tcb_of c t).enqueued || (tcb_of c t).listed
    then reroute t c
    else do admitted ← admit false t c; some (hint_for t admitted, admitted)

unfoldable pub take_popped : Option ℕ × Matrix → Core → Option ℕ × Core
take_popped (none, m) c = (none, record c { matrix = m })
take_popped (some t, m) c = (some t, record (set_enqueued t false c) { matrix = m })

unfoldable pub pop_best_thread : Core → Option ℕ × Core
unfolding take_popped
pop_best_thread c = take_popped (pop_best c.matrix) c

unfoldable pub set_thread_running : ℕ → Core → Option Core
set_thread_running t c = do
  check ((tcb_of c t).pinned_core == c.core_id)
  check (is_ready (tcb_of c t).state)
  some (record (set_state t ThreadState.running c) { current = some t })

unfoldable pub set_thread_blocked : ℕ → Core → Option Core
set_thread_blocked t c = do
  check ((tcb_of c t).pinned_core == c.core_id)
  check (is_running (tcb_of c t).state)
  check (is_prepared (tcb_of c t).disposition)
  check (not (tcb_of c t).enqueued)
  some (set_state t ThreadState.blocked (set_disposition t ThreadDisposition.none c))
