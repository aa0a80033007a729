-- ===== src/EventFlags/Tests.antt =====
-- Two threads that want one bit: the exchange of the second finds it gone, and fails.
use cyros.Common.{◌≡◌, refl, false, Option, none, some}
use cyros.Common.Words.{bitwise}
use cyros.EventFlags.{
  FlagsMatch, FlagsExit, Request, matches, satisfied_by, Attempt, EventFlags, sets, begins, runs,
  set_bits, clear, begin_attempt, compare_exchange, take_hit, look, run, answered, end_attempt,
  take_step, Reaches,
}
use cyros.EventFlags.Conservation.{Fresh, Conserved, reached-Conserved}

abbrev at_start : EventFlags
at_start = record {
  bits = 1;
  attempt = λ t. Attempt.resting;
  risen = λ b. 0;
  fallen = λ b. 0;
  consumed = λ b. 0;
}

abbrev bit_two : Request
bit_two = record { mask = 4; matching = FlagsMatch.any; exit = FlagsExit.consume; matched = 0 }

abbrev bits_zero_and_three : Request
bits_zero_and_three = record {
  mask = 9;
  matching = FlagsMatch.all;
  exit = FlagsExit.keep;
  matched = 0;
}

-- The flags after a step that is possible.
abbrev after : Option EventFlags → EventFlags
after none = at_start
after (some s) = s

abbrev raised : EventFlags
raised = after (take_step (sets 6) at_start)

abbrev first_looks : EventFlags
first_looks = after (take_step (begins 0 bit_two) raised)

abbrev second_looks : EventFlags
second_looks = after (take_step (begins 1 bit_two) first_looks)

abbrev first_takes : EventFlags
first_takes = after (take_step (runs 0 false) second_looks)

abbrev second_fails : EventFlags
second_fails = after (take_step (runs 1 false) first_takes)

abbrev second_refused : EventFlags
second_refused = after (take_step (runs 1 false) second_fails)

path : Reaches at_start second_refused
unfolding take_step set_bits clear begin_attempt run end_attempt look take_hit compare_exchange
    answered satisfied_by matches bitwise
path =
    Reaches.next (runs 1 false)
      (Reaches.next (runs 1 false)
        (Reaches.next (runs 0 false)
          (Reaches.next (begins 1 bit_two)
            (Reaches.next (begins 0 bit_two) (Reaches.next (sets 6) Reaches.here refl) refl) refl)
          refl)
        refl)
      refl

at_start-Fresh : Fresh at_start
at_start-Fresh = record { nobody = λ t. refl; nothing = λ b. (refl, refl, refl) }

one_consumed : second_refused.bits ≡ 3
unfolding take_step set_bits clear begin_attempt run end_attempt look take_hit compare_exchange
    answered satisfied_by matches bitwise
one_consumed = refl

reached-Conserved_example : Conserved 1 second_refused
reached-Conserved_example = reached-Conserved at_start-Fresh path
