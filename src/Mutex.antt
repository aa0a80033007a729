-- ===== src/Mutex.antt =====
-- base_mutex (src/kernel/base_mutex.cpp) over the store of threads and mutexes. A thread `t` and a
-- mutex `k` are known by their numbers. What an operation asks of the scheduler or the port is in
-- its result. `none` is an assert or a requirement that fires.
pub mod Queue
pub mod Slots
pub mod Ownership
pub mod HandOver
pub mod Cache
mod Tests
use cyros.Common.{
  ℕ, zero, suc, ◌+◌, Bool, true, false, not, ◌&&◌, ◌||◌, Option, none, some, List, [], ◌∷◌, ◌==◌,
  ltb, leb, if◌then◌else◌, update, ◌>>=◌, ◌>>◌, check, points_to, is_some,
}
use cyros.Common.Bits.{set_bit, clear_bit}
use cyros.Kernel.Thread.{Tcb, ThreadDisposition, max_held_per_thread}
use cyros.Kernel.Store.{Store, Mutex, not_held, uses_ceiling}
use cyros.Kernel.Urgency.{max_inheritance_depth}
use cyros.Scheduler.Core.{ScheduleHint}
use Queue.{arm, disarm, pop_waiter, set_mutex, set_tcb}

-- The lowest free slot at or above `i`, with `rounds` slots left to try.
pub free_slot : ℕ → ℕ → (ℕ → Option ℕ) → Option ℕ
free_slot zero i slots = none
free_slot (suc rounds) i slots =
    let further = free_slot rounds (i + 1) slots in if is_some (slots i) then further else some i

pub file_at : ℕ → ℕ → ℕ → Store → Store
file_at t k slot s =
    let tcb = s.tcb t in
    let m = s.mutex k in
    record s {
      tcb = update s.tcb t (record tcb {
        held_slots = update tcb.held_slots slot (some k);
        held_mask = set_bit slot tcb.held_mask;
      });
      mutex = update s.mutex k (record m { held_slot = slot });
    }

-- The search over the slots, and the assert that it found one.
pub claim_slot : ℕ → ℕ → Store → Option Store
unfolding free_slot file_at
claim_slot t k s = do
  slot ← free_slot max_held_per_thread 0 (s.tcb t).held_slots
  some (file_at t k slot s)

pub retire_at : ℕ → ℕ → ℕ → Store → Store
retire_at t k slot s =
    let tcb = s.tcb t in
    let m = s.mutex k in
    record s {
      tcb = update s.tcb t (record tcb {
        held_slots = update tcb.held_slots slot none;
        held_mask = clear_bit slot tcb.held_mask;
      });
      mutex = update s.mutex k (record m { held_slot = not_held });
    }

pub retire_held : ℕ → ℕ → Store → Option Store
unfolding retire_at
retire_held t k s =
    let slot = (s.mutex k).held_slot in
    do
      check (ltb slot max_held_per_thread)
      check (points_to ((s.tcb t).held_slots slot) k)
      some (retire_at t k slot s)

pub register_held : ℕ → ℕ → Store → Option Store
unfolding claim_slot
register_held t k s = if (s.mutex k).held_slot == not_held then claim_slot t k s else some s

pub set_owner : ℕ → Option ℕ → Store → Store
set_owner k o s =
    let m = s.mutex k in record s { mutex = update s.mutex k (record m { owner = o }) }

pub take_if_free : ℕ → ℕ → Store → Option (Bool × Store)
take_if_free t k s =
    if is_some (s.mutex k).owner
    then some (false, s)
    else do s' ← register_held t k (set_owner k (some t) s); some (true, s')

check_ceiling_contract : ℕ → ℕ → Store → Option (Unit {0})
check_ceiling_contract t k s =
    if uses_ceiling (s.mutex k)
    then check (leb (s.mutex k).ceiling_priority (s.tcb t).base_priority)
    else some tt

pub try_lock : ℕ → ℕ → Store → Option (Bool × Store)
unfolding take_if_free check_ceiling_contract
try_lock t k s = do check_ceiling_contract t k s; take_if_free t k s

-- The walk of request_repick (src/kernel/waitable.cpp): the threads whose cores are prompted, along
-- the wait-for chain, for as many hops as the budget has left.
repick_next : Store → Option ℕ → Option ℕ
repick_next s none = none
repick_next s (some k) = (s.mutex k).owner

pub request_repick : ℕ → Store → ℕ → List ℕ
unfolding repick_next
request_repick zero s target = []
request_repick (suc hops) s target = target ∷ elim (repick_next s (s.tcb target).blocked_on) [
  | none ↦ []
  | some next ↦ if next == target then [] else request_repick hops s next
]

-- What acquire_condition and the passes of lock() tell their caller: whether the mutex is taken, and
-- the threads whose cores were prompted to pick again.
pub record Attempt : Type 0 where
  pub taken : Bool
  pub prompted : List ℕ
  pub store : Store

acquire_owned : ℕ → ℕ → ℕ → Store → Attempt
unfolding request_repick
acquire_owned owner t k s =
    if owner == t then record { taken = true; prompted = []; store = s } else record {
      taken = false;
      prompted = request_repick max_inheritance_depth s owner;
      store = s;
    }

acquire_free : ℕ → ℕ → Store → Option Attempt
unfolding register_held set_owner
acquire_free t k s = do
  s' ← register_held t k (set_owner k (some t) s)
  some (record { taken = true; prompted = []; store = s' })

pub acquire_condition : ℕ → ℕ → Store → Option Attempt
unfolding acquire_owned acquire_free
acquire_condition t k s = elim (s.mutex k).owner [
  | none ↦ acquire_free t k s
  | some owner ↦ some (acquire_owned owner t k s)
]

set_wait : ℕ → ThreadDisposition → Option ℕ → Store → Store
set_wait t wish on s =
    let tcb = s.tcb t in set_tcb t (record tcb { disposition = wish; blocked_on = on }) s

-- lock() up to its loop: true where the mutex was free.
pub lock_begin : ℕ → ℕ → Store → Option (Bool × Store)
unfolding check_ceiling_contract take_if_free
lock_begin t k s = do
  check (not (points_to (s.mutex k).owner t))
  check_ceiling_contract t k s
  take_if_free t k s

-- One pass of the loop, to the commit: armed, then polled. True: it returns, off the queue.
lock_polled : ℕ → ℕ → Attempt → Attempt
unfolding set_wait disarm
lock_polled t k a =
    if a.taken
    then record a { store = (disarm t k (set_wait t ThreadDisposition.none none a.store)).1 }
    else a

pub lock_pass : ℕ → ℕ → Store → Option Attempt
unfolding set_wait arm lock_polled acquire_condition
lock_pass t k s = do
  check (not (points_to (s.mutex k).owner t))
  a ← acquire_condition t k (set_wait t ThreadDisposition.prepared (some k) (arm t k s))
  some (lock_polled t k a)

clear_blocked_on : ℕ → Store → Store
clear_blocked_on t s = let tcb = s.tcb t in set_tcb t (record tcb { blocked_on = none }) s

clear_disposition : ℕ → Store → Store
clear_disposition t s =
    let tcb = s.tcb t in set_tcb t (record tcb { disposition = ThreadDisposition.none }) s

-- The end of a pass, once the commit has returned: off the queue, and true where the mutex was
-- handed over.
pub lock_resumed : ℕ → ℕ → Store → Bool × Store
unfolding disarm clear_blocked_on clear_disposition
lock_resumed t k s =
    let left = clear_blocked_on t (disarm t k s).1 in
    if points_to (left.mutex k).owner t then (true, clear_disposition t left) else (false, left)

-- The commit of hand_over, under the queue's lock: the first waiter taken off, made the owner, and
-- the mutex filed in its slots; no owner where nobody waits.
pub claim_for : Option ℕ → ℕ → Store → Option Store
unfolding claim_slot
claim_for none k s = some s
claim_for (some chosen) k s = claim_slot chosen k s

-- The assert on the thread that has been taken off.
pub has_id : Option ℕ → Store → Bool
has_id none s = true
has_id (some chosen) s = not ((s.tcb chosen).id == 0)

pub commit_hand_over : ℕ → Option ℕ × Store → Option (Option ℕ × Store)
unfolding set_owner claim_for has_id
commit_hand_over k (chosen, popped) = do
  check (has_id chosen popped)
  s' ← claim_for chosen k (set_owner k chosen popped)
  some (chosen, s')

pub data ReschedulePolicy : Type 0 where
  automatic : ReschedulePolicy
  always : ReschedulePolicy
  never : ReschedulePolicy

-- Whether apply_reschedule_policy pends a reschedule.
pub apply_reschedule_policy : ReschedulePolicy → ScheduleHint → Bool
apply_reschedule_policy ReschedulePolicy.never hint = false
apply_reschedule_policy ReschedulePolicy.automatic ScheduleHint.unwarranted = false
apply_reschedule_policy ReschedulePolicy.automatic ScheduleHint.warranted = true
apply_reschedule_policy ReschedulePolicy.automatic ScheduleHint.rescheduled = false
apply_reschedule_policy ReschedulePolicy.always ScheduleHint.unwarranted = true
apply_reschedule_policy ReschedulePolicy.always ScheduleHint.warranted = true
apply_reschedule_policy ReschedulePolicy.always ScheduleHint.rescheduled = false

abbrev pub is_never : ReschedulePolicy → Bool
is_never ReschedulePolicy.automatic = false
is_never ReschedulePolicy.always = false
is_never ReschedulePolicy.never = true

-- What a release leaves: the thread that it has readied, whether it has pended a reschedule, and the
-- store.
pub record Release : Type 0 where
  pub readied : Option ℕ
  pub pends : Bool
  pub store : Store

-- The delivery behind the commit. `hint` is what global_ready_thread answers for the thread.
pub delivered : ReschedulePolicy → (hint : ℕ → ScheduleHint) → Option ℕ × Store → Release
unfolding apply_reschedule_policy
delivered policy hint (none, s) = record { readied = none; pends = false; store = s }
delivered policy hint (some w, s) = record {
  readied = some w;
  pends = apply_reschedule_policy policy (hint w);
  store = s;
}

pub hand_over : ReschedulePolicy → (hint : ℕ → ScheduleHint) → ℕ → Store → Option Release
unfolding pop_waiter commit_hand_over delivered
hand_over policy hint k s = do
  r ← commit_hand_over k (pop_waiter k s)
  some (delivered policy hint r)

pub unlock : ReschedulePolicy → (hint : ℕ → ScheduleHint) → ℕ → ℕ → Store → Option Release
unlock policy hint t k s = do
  check (points_to (s.mutex k).owner t)
  retired ← retire_held t k s
  r ← hand_over policy hint k retired
  some (record r { pends = r.pends || (uses_ceiling (s.mutex k) && not (is_never policy)) })
