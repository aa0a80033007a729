-- ===== src/Wait/Engine.antt =====
-- wait_engine::run (src/kernel/waitable.cpp), a step at a time: between two steps of a thread's wait
-- the other threads make theirs, and wakes arrive.
use cyros.Common.{
  ℕ, Bool, true, false, not, ◌&&◌, Option, none, some, List, [], ◌∷◌, ◌++◌, if◌then◌else◌, update,
  erase,
}
use cyros.WaitQueue.{link, unlink}

-- Where a thread stands in its wait: about to arm; armed, about to poll; the three answers of the
-- armed poll; blocked; back from commit_to_block; disarmed, and whether a wake had chosen it; about to
-- pass a wake on; returned, and whether it was satisfied.
pub data Phase : Type 0 where
  outside : Phase
  arriving : Phase
  armed : Phase
  satisfied refused cancelled : Phase
  parked : Phase
  resumed : Phase
  retrying : Bool → Phase
  passing : Phase
  returned : Bool → Phase

-- The waits on one waitable. `prepared` says that a thread's disposition is prepared, `raised` that
-- its cancel signal is raised, `bound` that its waiter_record names the waitable, `marked` that the
-- record's chosen_by_wake is set. `delivering` are the threads that a wake has taken off a queue
-- and not readied yet.
pub record Waits (R : Type 0) : Type 0 where
  pub resource : R
  pub queue : List ℕ
  pub phase : ℕ → Phase
  pub prepared : ℕ → Bool
  pub raised : ℕ → Bool
  pub bound : ℕ → Bool
  pub marked : ℕ → Bool
  pub delivering : List ℕ

abbrev pub woken : Phase → Phase
woken parked = resumed
woken p = p

-- After the disarm: a satisfied wait ends, or passes on the wake that took its node.
abbrev pub settled : Bool → Bool → Phase → Phase
settled chosen is_bound satisfied = if chosen && not is_bound then passing else returned true
settled chosen is_bound p = retrying chosen

module _ {R : Type 0} where
  abbrev pub set_phase : ℕ → Phase → Waits R → Waits R
  set_phase t p s = record s { phase = update s.phase t p }

  unfoldable pub wake_first : List ℕ → Waits R → Waits R
  wake_first [] s = s
  wake_first (first ∷ rest) s = record s { queue = rest; delivering = s.delivering ++ first ∷ [] }

  -- The unlink under the queue's lock; the ready follows it.
  unfoldable pub wake_one : Waits R → Waits R
  unfolding wake_first
  wake_one s = wake_first s.queue s

  -- What a ready does to a thread: it is prepared to block no more, and unblocked.
  unfoldable pub ready : ℕ → Waits R → Waits R
  ready t s = record s {
    prepared = update s.prepared t false;
    phase = update s.phase t (woken (s.phase t));
  }

  unfoldable pub deliver : ℕ → Waits R → Waits R
  unfolding ready
  deliver t s = ready t (record s { delivering = erase t s.delivering })

  -- The cancel signal of `t`: the flag and the wake of its waiter together, under the signal's lock.
  unfoldable pub raise : ℕ → Waits R → Waits R
  raise t s = record s { raised = update s.raised t true; delivering = s.delivering ++ t ∷ [] }

  unfoldable pub commit_to_block : ℕ → Waits R → Waits R
  commit_to_block t s = if s.prepared t then set_phase t parked s else set_phase t resumed s

  unfoldable pub disarm : ℕ → Waits R → Waits R
  disarm t s =
      let (found, rest) = unlink t s.queue in
      let chosen = not found in
      record s {
        queue = rest;
        marked = update s.marked t (if chosen && s.bound t then true else s.marked t);
        phase = update s.phase t (settled chosen (s.bound t) (s.phase t));
      }

  unfoldable pub pass_on : ℕ → Waits R → Waits R
  unfolding wake_one
  pass_on t s = set_phase t (returned true) (wake_one s)

  module _ (priority : ℕ → ℕ) (try_satisfy : ℕ → R → Bool × R) where
    unfoldable pub arm : ℕ → Waits R → Waits R
    arm t s = record s {
      prepared = update s.prepared t true;
      queue = link priority t s.queue;
      phase = update s.phase t armed;
    }

    unfoldable pub poll : ℕ → Waits R → Waits R
    poll t s =
        let (ok, r) = try_satisfy t s.resource in
        if ok
        then record s {
          resource = r;
          prepared = update s.prepared t false;
          phase = update s.phase t satisfied;
        }
        else if s.raised t
        then record s {
          resource = r;
          prepared = update s.prepared t false;
          phase = update s.phase t cancelled;
        }
        else record s { resource = r; phase = update s.phase t refused }

    -- The poll of a disarmed thread, then its cancel signal.
    unfoldable pub repoll : ℕ → Waits R → Waits R
    repoll t s =
        let (ok, r) = try_satisfy t s.resource in
        record s {
          resource = r;
          phase =
              update s.phase t
                (if ok then returned true else if s.raised t then returned false else arriving);
        }

    -- The next step of a thread that is at `p` in its wait: none for one that is blocked, or in no wait.
    unfoldable pub run_from : Phase → ℕ → Waits R → Option (Waits R)
    unfolding arm poll repoll commit_to_block disarm pass_on
    run_from outside t s = none
    run_from arriving t s = some (arm t s)
    run_from armed t s = some (poll t s)
    run_from refused t s = some (commit_to_block t s)
    run_from satisfied t s = some (disarm t s)
    run_from cancelled t s = some (disarm t s)
    run_from parked t s = none
    run_from resumed t s = some (disarm t s)
    run_from (retrying chosen) t s = some (repoll t s)
    run_from passing t s = some (pass_on t s)
    run_from (returned b) t s = none

    unfoldable pub run : ℕ → Waits R → Option (Waits R)
    unfolding run_from
    run t s = run_from (s.phase t) t s
