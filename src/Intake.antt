-- ===== src/Intake.antt =====
-- A core's intake (src/kernel/scheduler.cpp: post_intake, push_intake, await_intake_link and
-- drain_intake): the stack on which other cores put the threads that it is to ready. Each access of
-- shared memory is a step of its own.
pub mod Links
pub mod Pushing
pub mod Draining
pub mod Arrival
mod Tests
use cyros.Common.{
  ℕ, ◌+◌, ◌-◌, ◌≡◌, Bool, true, false, Option, none, some, List, [], ◌∷◌, ◌++◌, ◌==◌, if◌then◌else◌,
  update, points_to,
}
use cyros.Ready.Queue.{Pointer}

-- The push of a thread by whoever claimed its request: none; claimed, about to store the self-pointer;
-- about to exchange the head; having exchanged it for `previous`, about to store the link.
pub data Push : Type 0 where
  idle : Push
  claimed : Push
  marked : Push
  swapped : (previous : Pointer) → Push

-- The core: not in drain_intake; reversing the chain; servicing it; having taken a thread off it,
-- about to take its request.
pub data Drain : Type 0 where
  resting : Drain
  reversing : (at fifo : Pointer) → Drain
  servicing : (fifo : Pointer) → Drain
  taking : (t : ℕ) (fifo : Pointer) → Drain

-- `owed` are the pushes that have found the intake empty and not rung the doorbell yet, `rung` that
-- it rings. The rest is history: the threads on the stack, those the core has still to reverse and
-- those it has reversed, and the threads pushed and serviced so far, in that order.
pub record Intake : Type 0 where
  pub head : Pointer
  pub next : ℕ → Pointer
  pub pending : ℕ → Bool
  pub push : ℕ → Push
  pub drain : Drain
  pub owed : ℕ
  pub rung : Bool
  pub stack : List ℕ
  pub unreversed : List ℕ
  pub fifo : List ℕ
  pub arrived : List ℕ
  pub serviced : List ℕ

pub data Step : Type 0 where
  posts : ℕ → Step
  pushes : ℕ → Step
  rings : Step
  answers : Step
  switches : Step
  drains : Step

-- post_intake: the request; the push is for whoever finds none.
unfoldable pub post_intake : ℕ → Intake → Intake
post_intake t s =
    if s.pending t
    then s
    else record s { pending = update s.pending t true; push = update s.push t Push.claimed }

abbrev pub is_null : Pointer → Bool
is_null none = true
is_null (some t) = false

unfoldable pub push_intake : ℕ → Push → Intake → Option Intake
push_intake t Push.idle s = none
push_intake t Push.claimed s =
    some (record s { next = update s.next t (some t); push = update s.push t Push.marked })
push_intake t Push.marked s = some (record s {
  head = some t;
  push = update s.push t (Push.swapped s.head);
  stack = t ∷ s.stack;
  arrived = s.arrived ++ t ∷ [];
})
push_intake t (Push.swapped previous) s = some (record s {
  next = update s.next t previous;
  push = update s.push t Push.idle;
  owed = if is_null previous then s.owed + 1 else s.owed;
})

unfoldable pub ring : Intake → Option Intake
ring s = if s.owed == 0 then none else some (record s { owed = s.owed - 1; rung = true })

-- drain_intake: the exchange of the head,
unfoldable pub take_chain : Pointer → Intake → Intake
take_chain none s = s
take_chain (some t) s = record s {
  head = none;
  drain = Drain.reversing (some t) none;
  stack = [];
  unreversed = s.stack;
}

abbrev pub rest_of : List ℕ → List ℕ
rest_of [] = []
rest_of (x ∷ xs) = xs

-- a round of the reversal, which waits for a link that is not published,
unfoldable pub reverse_one : ℕ → Pointer → Intake → Intake
reverse_one t fifo s = if points_to (s.next t) t then s else record s {
  next = update s.next t fifo;
  drain = Drain.reversing (s.next t) (some t);
  unreversed = rest_of s.unreversed;
  fifo = t ∷ s.fifo;
}

-- the taking of a thread off the chain, and of its request, with the service.
unfoldable pub unlink_one : ℕ → Intake → Intake
unlink_one t s = record s { next = update s.next t none; drain = Drain.taking t (s.next t) }

unfoldable pub service : ℕ → Pointer → Intake → Intake
service t fifo s = record s {
  pending = update s.pending t false;
  drain = Drain.servicing fifo;
  fifo = rest_of s.fifo;
  serviced = s.serviced ++ t ∷ [];
}

unfoldable pub drain_intake : Drain → Intake → Option Intake
unfolding reverse_one unlink_one service
drain_intake Drain.resting s = none
drain_intake (Drain.reversing none fifo) s = some (record s { drain = Drain.servicing fifo })
drain_intake (Drain.reversing (some t) fifo) s = some (reverse_one t fifo s)
drain_intake (Drain.servicing none) s = some (record s { drain = Drain.resting })
drain_intake (Drain.servicing (some t)) s = some (unlink_one t s)
drain_intake (Drain.taking t fifo) s = some (service t fifo s)

-- A switch of the core takes the chain, where there is one.
unfoldable pub switch : Drain → Intake → Option Intake
unfolding take_chain
switch Drain.resting s = some (take_chain s.head s)
switch (Drain.reversing at fifo) s = none
switch (Drain.servicing fifo) s = none
switch (Drain.taking t fifo) s = none

-- The switch that the doorbell asks for.
unfoldable pub answer : Intake → Option Intake
unfolding switch
answer s = if s.rung then switch s.drain (record s { rung = false }) else none

unfoldable pub take_step : Step → Intake → Option Intake
unfolding post_intake push_intake ring drain_intake switch answer
take_step (posts t) s = some (post_intake t s)
take_step (pushes t) s = push_intake t (s.push t) s
take_step rings s = ring s
take_step answers s = answer s
take_step switches s = switch s.drain s
take_step drains s = drain_intake s.drain s

pub data Reaches (s : Intake) : Intake → Type 0 where
  here : Reaches s s
  next : {u v : Intake} (step : Step) → Reaches s u → take_step step u ≡ some v → Reaches s v
