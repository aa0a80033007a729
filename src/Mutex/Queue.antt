-- ===== src/Mutex/Queue.antt =====
-- pi_wait_queue (src/kernel/public_headers/waitable.hpp): a wait queue and its inheritance cache.
use cyros.Common.{ℕ, Bool, true, false, Option, none, some, List, [], ◌∷◌, if◌then◌else◌, update}
use cyros.Kernel.Thread.{Tcb, holds_nothing}
use cyros.Kernel.Store.{Store, Mutex, no_waiter}
use cyros.WaitQueue.{link, unlink}

abbrev pub set_mutex : ℕ → Mutex → Store → Store
set_mutex k m s = record s { mutex = update s.mutex k m }

abbrev pub set_tcb : ℕ → Tcb → Store → Store
set_tcb t b s = record s { tcb = update s.tcb t b }

abbrev pub base_of : Store → ℕ → ℕ
base_of s t = (s.tcb t).base_priority

-- The priority of a queue's first waiter.
abbrev pub first_priority : Store → List ℕ → ℕ
first_priority s [] = no_waiter
first_priority s (w ∷ ws) = base_of s w

abbrev pub still_bridged : List ℕ → Bool → Bool
still_bridged [] hint = false
still_bridged (w ∷ ws) hint = hint

-- The queue is now `q`; wait_queue::refresh_top.
unfoldable pub refresh_top : Store → List ℕ → Bool → Mutex → Mutex
refresh_top s q hint m = record m {
  queue = q;
  top_priority = first_priority s q;
  may_have_bridges = still_bridged q hint;
}

-- Each wait makes a node of its thread with no next, so the asserts on the node hold.
unfoldable pub arm : ℕ → ℕ → Store → Store
unfolding refresh_top
arm t k s =
    set_mutex k
      (refresh_top s (link (base_of s) t (s.mutex k).queue)
        (if holds_nothing (s.tcb t) then (s.mutex k).may_have_bridges else true) (s.mutex k))
      s

-- Whether the node was still queued, and the store.
unfoldable pub disarm : ℕ → ℕ → Store → Bool × Store
unfolding refresh_top
disarm t k s =
    let (found, rest) = unlink t (s.mutex k).queue in
    if found
    then (true, set_mutex k (refresh_top s rest (s.mutex k).may_have_bridges (s.mutex k)) s)
    else (false, s)

unfoldable pub pop_from : ℕ → List ℕ → Store → Option ℕ × Store
unfolding refresh_top
pop_from k [] s = (none, s)
pop_from k (w ∷ ws) s =
    (some w, set_mutex k (refresh_top s ws (s.mutex k).may_have_bridges (s.mutex k)) s)

-- What every wake does first: it takes the first waiter off the queue.
unfoldable pub pop_waiter : ℕ → Store → Option ℕ × Store
unfolding pop_from
pop_waiter k s = pop_from k (s.mutex k).queue s
