-- ===== src/Channel/Gates.antt =====
-- The gates: a call that lets a waiting thread go on asks for its wake.
use cyros.Common.{
  ◌≡◌, Bool, true, false, List, [], ◌∷◌, ◌++◌, arith, if◌then◌else◌, append_assoc, ℕ,
}
use cyros.Channel.{
  Channel, Wake, ask, place_locked, replace_oldest, take_locked, try_place, send_overwrite,
  send_pass, try_receive, receive_pass, stop, readable, writable, one_receiver, one_sender,
  every_receiver, every_sender,
}
use cyros.Channel.Spec.{Command, serve}
use cyros.Channel.Fifo.{Sound}

-- Where receivers wait for a value, and senders for room.
pub data Gate : Type 0 where
  values room : Gate

abbrev pub one_of : Gate → Wake
one_of Gate.values = one_receiver
one_of Gate.room = one_sender

-- The wakes of a call that opens a gate: everybody's for a stop, else one thread's.
abbrev pub opening : Bool → Wake → List Wake
opening stopped one = if stopped then every_receiver ∷ every_sender ∷ [] else one ∷ []

module _ {T : Type 0} (capacity : ℕ) where
  abbrev pub poll : Gate → Channel T → Bool
  poll Gate.values c = readable capacity c
  poll Gate.room c = writable capacity c

  -- The channel after a call.
  abbrev pub after : Command T → Channel T → Channel T
  after command c = (serve capacity command c).1

  -- On a channel whose indices are in range, a call that makes a gate's poll true where it was false
  -- asks for exactly this: a wake of everybody where the call stopped the channel, else the wake of one
  -- thread of that gate.
  pub serve-asks :
      (command : Command T) (gate : Gate) (c : Channel T)
      → Sound capacity c
      → poll gate c ≡ false
      → poll gate (after command c) ≡ true
      → (after command c).wakes ≡ c.wakes ++ opening (after command c).stopped (one_of gate)
  unfolding readable writable serve try_place send_overwrite send_pass try_receive receive_pass stop
      ask place_locked replace_oldest take_locked
  serve-asks (Command.send_if_room v) Gate.values c s h k = ground (arith, s.room)
  serve-asks (Command.send_if_room v) Gate.room c s h k = ground (arith, s.room)
  serve-asks (Command.overwrite v) Gate.values c s h k = ground (arith, s.room)
  serve-asks (Command.overwrite v) Gate.room c s h k = ground (arith, s.room)
  serve-asks (Command.blocking v) Gate.values c s h k = ground (arith, s.room)
  serve-asks (Command.blocking v) Gate.room c s h k = ground (arith, s.room)
  serve-asks Command.receive_now Gate.values c s h k = ground (arith, s.room)
  serve-asks Command.receive_now Gate.room c s h k = ground (arith, s.room)
  serve-asks Command.receive_or_wait Gate.values c s h k = ground (arith, s.room)
  serve-asks Command.receive_or_wait Gate.room c s h k = ground (arith, s.room)
  serve-asks Command.finish Gate.values c s h k =
      ground (arith, append_assoc c.wakes (every_receiver ∷ []) (every_sender ∷ []))
  serve-asks Command.finish Gate.room c s h k =
      ground (arith, append_assoc c.wakes (every_receiver ∷ []) (every_sender ∷ []))
