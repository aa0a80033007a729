-- ===== src/Channel.antt =====
-- channel (src/userlib/channel/public_headers/channel.hpp): a bounded FIFO over a ring, and the gates
-- where receivers wait for a value and senders for room.
pub mod Ring
pub mod Fifo
pub mod Spec
pub mod Refinement
pub mod Gates
mod Tests
use cyros.Common.{
  ℕ, ◌+◌, ◌-◌, Bool, true, false, not, ◌||◌, Option, none, some, List, [], ◌∷◌, ◌++◌, ◌==◌, ltb,
  if◌then◌else◌, update, ◌>>=◌, ◌>>◌, check,
}

pub data Outcome : Type 0 where
  queued full refused : Outcome

-- The wakes that a channel asks of its gates.
pub data Wake : Type 0 where
  one_receiver one_sender every_receiver every_sender : Wake

-- `wakes` are those asked for, the latest last.
pub record Channel (T : Type 0) : Type 0 where
  pub ring : ℕ → T
  pub head : ℕ
  pub tail : ℕ
  pub occupancy : ℕ
  pub stopped : Bool
  pub wakes : List Wake

unfoldable pub advance : ℕ → ℕ → ℕ
advance capacity index = if index + 1 == capacity then 0 else index + 1

abbrev pub is_queued : Outcome → Bool
is_queued queued = true
is_queued full = false
is_queued refused = false

module _ {T : Type 0} where
  unfoldable pub ask : Wake → Channel T → Channel T
  ask w c = record c { wakes = c.wakes ++ w ∷ [] }

  unless_full : Outcome × Channel T → Option (Channel T)
  unless_full (queued, c) = some c
  unless_full (refused, c) = some c
  unless_full (full, c) = none

  module _ (capacity : ℕ) where
    unfoldable pub place_locked : T → Channel T → Channel T
    unfolding advance
    place_locked v c = record c {
      ring = update c.ring c.tail v;
      tail = advance capacity c.tail;
      occupancy = c.occupancy + 1;
    }

    unfoldable pub try_place : T → Channel T → Outcome × Channel T
    try_place v c =
        if c.stopped
        then (refused, c)
        else if c.occupancy == capacity
        then (full, c)
        else (queued, ask one_receiver (place_locked v c))

    -- `none`: the requirement that a channel is never full.
    unfoldable pub send : T → Channel T → Option (Channel T)
    unfolding try_place unless_full
    send v c = unless_full (try_place v c)

    unfoldable pub try_send : T → Channel T → Bool × Channel T
    unfolding try_place
    try_send v c = let (outcome, c') = try_place v c in (is_queued outcome, c')

    -- The write of a value over the oldest.
    unfoldable pub replace_oldest : T → Channel T → Channel T
    unfolding advance
    replace_oldest v c = record c {
      head = advance capacity c.head;
      ring = update c.ring c.tail v;
      tail = advance capacity c.tail;
    }

    unfoldable pub send_overwrite : T → Channel T → Channel T
    send_overwrite v c =
        if c.stopped
        then c
        else if c.occupancy == capacity
        then replace_oldest v c
        else ask one_receiver (place_locked v c)

    -- One pass of send_blocking: true where it returns, false where it waits for room.
    unfoldable pub send_pass : T → Channel T → Bool × Channel T
    send_pass v c =
        if c.stopped
        then (true, c)
        else if ltb c.occupancy capacity
        then (true, ask one_receiver (place_locked v c))
        else (false, c)

    unfoldable pub take_locked : Channel T → T × Channel T
    unfolding advance
    take_locked c =
        (c.ring c.head, record c { head = advance capacity c.head; occupancy = c.occupancy - 1 })

    unfoldable pub try_receive : Channel T → Option T × Channel T
    try_receive c =
        let (v, taken) = take_locked c in
        if ltb 0 c.occupancy then (some v, ask one_sender taken) else (none, c)

    -- One pass of receive: the value, or whether it ends with none rather than waits.
    unfoldable pub receive_pass : Channel T → Option T × Bool × Channel T
    receive_pass c =
        let (v, taken) = take_locked c in
        if ltb 0 c.occupancy then (some v, true, ask one_sender taken) else (none, c.stopped, c)

    unfoldable pub stop : Channel T → Channel T
    unfolding ask
    stop c =
        if c.stopped then c else ask every_sender (ask every_receiver (record c { stopped = true }))

    -- The polls of the two gates.
    unfoldable pub readable : Channel T → Bool
    readable c = ltb 0 c.occupancy || c.stopped

    unfoldable pub writable : Channel T → Bool
    writable c = ltb c.occupancy capacity || c.stopped
