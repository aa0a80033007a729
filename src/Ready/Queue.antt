-- ===== src/Ready/Queue.antt =====
-- thread_ready_queue (src/kernel/threading_subsystem.hpp and .cpp): the singly linked list of the
-- ready threads of one priority level. A thread control block is known by a number, its address,
-- and a pointer is an `Option`, with `none` for nullptr.
pub mod Chain
pub mod Push
pub mod Remove
pub mod Refinement
mod Tests
use cyros.Common.{
  ℕ, zero, suc, Bool, true, false, not, Option, none, some, ◌==◌, if◌then◌else◌, update, points_to,
}

abbrev pub Pointer : Type 0
Pointer = Option ℕ

-- The queue's two ends, and the `next` link of every thread control block.
pub record Queue : Type 0 where
  pub next : ℕ → Pointer
  pub head : Pointer
  pub tail : Pointer

-- The self-pointer is the sentinel for a thread that is in no queue.
pub is_enqueued : Queue → ℕ → Bool
is_enqueued q t = not (points_to (q.next t) t)

pub empty : Queue → Bool
empty q = elim q.head [ none ↦ true | some t ↦ false ]

-- `if (tail) tail->next = &tcb; else head = &tcb; tail = &tcb;`
append_at : Pointer → ℕ → Queue → Queue
append_at none t q = record q { head = some t; tail = some t }
append_at (some l) t q = record q { next = update q.next l (some t); tail = some t }

-- `none`: the assert on a thread that is enqueued already.
pub push_back : ℕ → Queue → Option Queue
unfolding append_at is_enqueued
push_back t q =
    if is_enqueued q t
    then none
    else some (append_at q.tail t (record q { next = update q.next t none }))

-- `if (tail == nullptr) tail = &tcb;`
tail_or : Pointer → ℕ → Pointer
tail_or none t = some t
tail_or (some l) t = some l

pub push_front : ℕ → Queue → Option Queue
unfolding is_enqueued tail_or
push_front t q =
    if is_enqueued q t
    then none
    else some (record { next = update q.next t q.head; head = some t; tail = tail_or q.tail t })

-- `if (after == nullptr) tail = nullptr;`
tail_after : Pointer → Pointer → Pointer
tail_after none tail = none
tail_after (some a) tail = tail

pop_head : ℕ → Queue → Queue
unfolding tail_after
pop_head t q = record {
  next = update q.next t (some t);
  head = q.next t;
  tail = tail_after (q.next t) q.tail;
}

pub pop_front : Queue → Pointer × Queue
unfolding pop_head
pop_front q = elim q.head [ none ↦ (none, q) | some t ↦ (some t, pop_head t q) ]

-- The unlinking of `cur`, which the search has found behind `prev`.
unlink_at : Pointer → ℕ → Queue → Queue
unlink_at prev cur q = record relinked {
  next = update relinked.next cur (some cur);
  tail = if points_to q.tail cur then prev else q.tail;
}
  where
    relinked : Queue
    relinked = elim prev [
      | none ↦ record q { head = q.next cur }
      | some p ↦ record q { next = update q.next p (q.next cur) }
    ]

-- The search loop of `remove`, with `prev` and `cur`. `none`: the fuel ran out.
remove_from : ℕ → Pointer → Pointer → ℕ → Queue → Option (Bool × Queue)
remove_from zero prev cur t q = none
remove_from (suc fuel) prev none t q = some (false, q)
remove_from (suc fuel) prev (some c) t q =
    let rest = remove_from fuel (some c) (q.next c) t q in
    if c == t then some (true, unlink_at prev c q) else rest

pub remove : ℕ → ℕ → Queue → Option (Bool × Queue)
unfolding remove_from unlink_at
remove fuel t q = remove_from fuel none q.head t q
