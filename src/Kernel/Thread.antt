-- ===== src/Kernel/Thread.antt =====
-- thread_control_block, thread_state and thread_disposition (src/kernel/threading_subsystem.hpp).
use cyros.Common.{ℕ, Bool, true, false, Option, List, ◌==◌}

pub data ThreadState : Type 0 where
  created ready running blocked terminated : ThreadState

pub data ThreadDisposition : Type 0 where
  none prepared terminating : ThreadDisposition

abbrev pub is_ready : ThreadState → Bool
is_ready ready = true
is_ready _ = false

abbrev pub is_running : ThreadState → Bool
is_running running = true
is_running _ = false

abbrev pub is_terminated : ThreadState → Bool
is_terminated terminated = true
is_terminated _ = false

abbrev pub is_prepared : ThreadDisposition → Bool
is_prepared prepared = true
is_prepared _ = false

abbrev pub is_terminating : ThreadDisposition → Bool
is_terminating terminating = true
is_terminating _ = false

-- `enqueued` and `listed` say that `next` and `holder_next` are not the sentinel. A mutex is known
-- by a number too. `joiners` is the queue of `termination`, and `termination_raised` its flag.
pub record Tcb : Type 0 where
  pub state : ThreadState
  pub disposition : ThreadDisposition
  pub enqueued : Bool
  pub listed : Bool
  pub id : ℕ
  pub base_priority : ℕ
  pub pinned_core : ℕ
  pub held_slots : ℕ → Option ℕ
  pub held_mask : ℕ
  pub blocked_on : Option ℕ
  pub pending_requests : ℕ
  pub resume_token : Bool
  pub termination_raised : Bool
  pub joiners : List ℕ

abbrev pub max_held_per_thread : ℕ
max_held_per_thread = 4

abbrev pub holds_nothing : Tcb → Bool
holds_nothing t = t.held_mask == 0
