-- ===== src/Kernel/Tests.antt =====
-- The urgency fold on three threads: 1 holds a ceiling lock that 2 waits on, and 2 a lock that 3
-- waits on.
use cyros.Common.{
  ℕ, ◌≤◌, ◌≡◌, refl, true, false, none, some, [], ◌∷◌, arith, ◌==◌, if◌then◌else◌, count,
}
use cyros.Common.Bits.{test_bit}
use cyros.Kernel.Thread.{Tcb, ThreadState, ThreadDisposition, holds_nothing}
use cyros.Kernel.Store.{Store, Mutex, not_held, no_ceiling, no_waiter}
use cyros.Kernel.Registry.{pin_thread_to_core}
use cyros.Kernel.Pinning.{Pinned, pin_thread_to_core-Pinned}
use cyros.Kernel.StackLayout.{stack_layout}
use cyros.Kernel.Carving.{Addressable, Carved, stack_layout-Carved}
use cyros.Kernel.Urgency.{urgency}
use cyros.Kernel.Urgency.Bounds.{Holding}
use cyros.Kernel.Urgency.Inheritance.{
  Cached, WaitsOn, urgency-le-donor, urgency-le-ceiling, urgency-base,
}

-- A thread of core 0 that holds nothing.
abbrev pub thread_with : ThreadState → ℕ → ℕ → Tcb
thread_with state id priority = record {
  state = state;
  disposition = ThreadDisposition.none;
  enqueued = false;
  listed = false;
  id = id;
  base_priority = priority;
  pinned_core = 0;
  held_slots = λ i. none;
  held_mask = 0;
  blocked_on = none;
  pending_requests = 0;
  resume_token = false;
  termination_raised = false;
  joiners = [];
}

-- A thread that holds one mutex, in its slot 0.
abbrev pub holder_with : ThreadState → ℕ → ℕ → ℕ → Tcb
holder_with state id priority k = record (thread_with state id priority) {
  held_slots = λ i. if i == 0 then some k else none;
  held_mask = 1;
}

abbrev pub free_mutex : Mutex
free_mutex = record {
  owner = none;
  ceiling_priority = no_ceiling;
  held_slot = not_held;
  queue = [];
  top_priority = no_waiter;
  may_have_bridges = false;
}

abbrev chain_tcb : ℕ → Tcb
chain_tcb t =
    if t == 1
    then holder_with ThreadState.ready 1 20 7
    else if t == 2
    then holder_with ThreadState.blocked 2 10 8
    else thread_with ThreadState.blocked t 5

abbrev chain_mutex : ℕ → Mutex
chain_mutex k =
    if k == 7
    then record {
      owner = some 1;
      ceiling_priority = 15;
      held_slot = 0;
      queue = 2 ∷ [];
      top_priority = 10;
      may_have_bridges = true;
    }
    else if k == 8
    then record {
      owner = some 2;
      ceiling_priority = no_ceiling;
      held_slot = 0;
      queue = 3 ∷ [];
      top_priority = 5;
      may_have_bridges = false;
    }
    else free_mutex

abbrev chain : Store
chain = record { tcb = chain_tcb; mutex = chain_mutex }

first-Holding : Holding chain 1 7
unfolding test_bit
first-Holding = record { slot = 0; in_mask = omega arith; marked = refl; published = refl }

second-Holding : Holding chain 2 8
unfolding test_bit
second-Holding = record { slot = 0; in_mask = omega arith; marked = refl; published = refl }

first-Cached : Cached chain 7
unfolding count
first-Cached = record { best = λ w h. ground arith; hint = λ w h o b. refl }

second-Cached : Cached chain 8
unfolding count
second-Cached = record { best = λ w h. ground arith; hint = λ w h o b. ground arith }

second_on_first : WaitsOn chain 2 1
unfolding count
second_on_first = record {
  lock = 7;
  held = first-Holding;
  cached = first-Cached;
  waiting = omega arith;
  not_owner = refl;
}

third_on_second : WaitsOn chain 3 2
unfolding count
third_on_second = record {
  lock = 8;
  held = second-Holding;
  cached = second-Cached;
  waiting = omega arith;
  not_owner = refl;
}

urgency-le-donor_example : urgency chain 1 ≤ 5
urgency-le-donor_example =
    urgency-le-donor chain 2 3 1 (omega arith) (2, (3, refl, third_on_second), second_on_first)

urgency-le-ceiling_example : urgency chain 1 ≤ 15
urgency-le-ceiling_example = urgency-le-ceiling chain 1 7 first-Holding refl

urgency-base_example :
    (urgency chain 3 ≤ 5) × (holds_nothing (chain_tcb 3) ≡ true → urgency chain 3 ≡ 5)
urgency-base_example = urgency-base chain 3

-- Two cores, of which the second has a thread less.
abbrev pinned_threads : ℕ → ℕ
pinned_threads c = if c == 0 then 2 else 1

abbrev created : Tcb
created = thread_with ThreadState.created 9 3

pin_thread_to_core-Pinned_example :
    Pinned 2 3 created pinned_threads (pin_thread_to_core 2 2 3 created pinned_threads)
pin_thread_to_core-Pinned_example =
    pin_thread_to_core-Pinned 2 2 3 created pinned_threads (omega arith) (λ c. ground arith)

-- A kilobyte of RAM of a 32-bit port, with a control block of 200 bytes and 20 bytes of storage.
buffer-Addressable : Addressable 32 200 8 8 536870912 1024 20
buffer-Addressable = record {
  aligned = (omega arith, omega arith);
  ends = omega arith;
  high = omega arith;
}

stack_layout-Carved_example :
    Carved 200 8 8 536870912 1024 20 (stack_layout 32 200 8 8 536870912 1024 20)
stack_layout-Carved_example = stack_layout-Carved 32 200 8 8 536870912 1024 20 buffer-Addressable
