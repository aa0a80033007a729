-- ===== src/Channel/Tests.antt =====
-- A channel of three slots with two values, whose ring has wrapped around.
use cyros.Common.{ℕ, ◌≡◌, refl, false, [], ◌∷◌, arith, ◌==◌, if◌then◌else◌}
use cyros.Channel.{Channel, advance, one_receiver, readable, try_place, place_locked, ask}
use cyros.Channel.Fifo.{Sound}
use cyros.Channel.Spec.{Command, serve}
use cyros.Channel.Refinement.{fifo_of, serve_all, specified_all, serve_all-specified_all}
use cyros.Channel.Gates.{Gate, after, serve-asks}

abbrev two_values : Channel ℕ
two_values = record {
  ring = λ i. if i == 2 then 8 else 9;
  head = 2;
  tail = 1;
  occupancy = 2;
  stopped = false;
  wakes = [];
}

two_values-Sound : Sound 3 two_values
unfolding advance
two_values-Sound = record { room = omega arith; head_in = omega arith; tail_at = refl }

abbrev nothing_left : Channel ℕ
nothing_left = record two_values { occupancy = 0; tail = 2 }

nothing_left-Sound : Sound 3 nothing_left
unfolding advance
nothing_left-Sound = record { room = omega arith; head_in = omega arith; tail_at = refl }

serve_all-specified_all_example :
    serve_all 3 (Command.send_if_room 7 ∷ Command.overwrite 6 ∷ Command.receive_now ∷ []) two_values
    ≡ specified_all 3
        (Command.send_if_room 7 ∷ Command.overwrite 6 ∷ Command.receive_now ∷ [])
        (fifo_of 3 two_values)
serve_all-specified_all_example =
    serve_all-specified_all 3
      (Command.send_if_room 7 ∷ Command.overwrite 6 ∷ Command.receive_now ∷ []) two_values
      two_values-Sound

serve-asks_example : (after 3 (Command.send_if_room 4) nothing_left).wakes ≡ one_receiver ∷ []
unfolding serve try_place place_locked ask readable
serve-asks_example =
    serve-asks 3 (Command.send_if_room 4) Gate.values nothing_left nothing_left-Sound refl refl
