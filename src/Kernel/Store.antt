-- ===== src/Kernel/Store.antt =====
-- The threads and mutexes of a system, and base_mutex's fields (src/kernel/public_headers/base_mutex.hpp).
use cyros.Common.{ℕ, Bool, Option, List, ◌==◌, not}
use cyros.Kernel.Thread.{Tcb}

-- `queue` holds the waiting threads, the most urgent base priority first; a thread waits with one
-- node at a time, so its node is known by the thread. `top_priority` and `may_have_bridges` are the
-- queue's inheritance cache.
pub record Mutex : Type 0 where
  pub owner : Option ℕ
  pub ceiling_priority : ℕ
  pub held_slot : ℕ
  pub queue : List ℕ
  pub top_priority : ℕ
  pub may_have_bridges : Bool

abbrev pub not_held : ℕ
not_held = 0xff

abbrev pub no_ceiling : ℕ
no_ceiling = 0xff

-- inheritance_cache::no_waiter
abbrev pub no_waiter : ℕ
no_waiter = 0xff

abbrev pub uses_ceiling : Mutex → Bool
uses_ceiling m = not (m.ceiling_priority == no_ceiling)

pub record Store : Type 0 where
  pub tcb : ℕ → Tcb
  pub mutex : ℕ → Mutex
