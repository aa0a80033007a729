-- ===== src/Intake/Tests.antt =====
-- Two threads pushed at once, whose links the core has to wait for.
use cyros.Common.{ℕ, ◌≤◌, ◌≡◌, refl, false, Option, none, some, List, [], ◌∷◌, ◌++◌, count, arith}
use cyros.Intake.{
  Push, Drain, Intake, Step, posts, pushes, rings, answers, switches, drains, post_intake,
  push_intake, ring, take_chain, reverse_one, unlink_one, service, drain_intake, switch, answer,
  take_step, Reaches,
}
use cyros.Intake.Links.{one_if}
use cyros.Intake.Arrival.{Fresh, AtRest, serviced-arrived, rested-serviced}

abbrev at_start : Intake
at_start = record {
  head = none;
  next = λ t. none;
  pending = λ t. false;
  push = λ t. Push.idle;
  drain = Drain.resting;
  owed = 0;
  rung = false;
  stack = [];
  unreversed = [];
  fifo = [];
  arrived = [];
  serviced = [];
}

at_start-Fresh : Fresh at_start
at_start-Fresh = record {
  empty = (refl, refl, refl, refl);
  nobody = λ t. (refl, refl);
  core = refl;
  no_history = (refl, refl);
}

-- The state after a step that is possible.
abbrev after : Option Intake → Intake
after none = at_start
after (some s) = s

abbrev run_all : List Step → Intake → Intake
run_all [] s = s
run_all (step ∷ rest) s = run_all rest (after (take_step step s))

abbrev steps : List Step
steps =
    posts 3
    ∷ pushes 3
    ∷ pushes 3
    ∷ posts 5
    ∷ pushes 5
    ∷ pushes 5
    ∷ switches
    ∷ drains
    ∷ pushes 5
    ∷ drains
    ∷ drains
    ∷ pushes 3
    ∷ drains
    ∷ drains
    ∷ posts 5
    ∷ drains
    ∷ drains
    ∷ drains
    ∷ drains
    ∷ drains
    ∷ rings
    ∷ answers
    ∷ []

abbrev finished : Intake
finished = run_all steps at_start

path : Reaches at_start finished
unfolding take_step post_intake push_intake ring take_chain reverse_one unlink_one service
    drain_intake switch answer
path =
    Reaches.next answers
      (Reaches.next rings
        (Reaches.next drains
          (Reaches.next drains
            (Reaches.next drains
              (Reaches.next drains
                (Reaches.next drains
                  (Reaches.next (posts 5)
                    (Reaches.next drains
                      (Reaches.next drains
                        (Reaches.next (pushes 3)
                          (Reaches.next drains
                            (Reaches.next drains
                              (Reaches.next (pushes 5)
                                (Reaches.next drains
                                  (Reaches.next switches
                                    (Reaches.next (pushes 5)
                                      (Reaches.next (pushes 5)
                                        (Reaches.next (posts 5)
                                          (Reaches.next (pushes 3)
                                            (Reaches.next (pushes 3)
                                              (Reaches.next (posts 3) Reaches.here refl) refl)
                                            refl)
                                          refl)
                                        refl)
                                      refl)
                                    refl)
                                  refl)
                                refl)
                              refl)
                            refl)
                          refl)
                        refl)
                      refl)
                    refl)
                  refl)
                refl)
              refl)
            refl)
          refl)
        refl)
      refl

all_served : finished.serviced ≡ 3 ∷ 5 ∷ []
unfolding take_step post_intake push_intake ring take_chain reverse_one unlink_one service
    drain_intake switch answer
all_served = refl

finished-AtRest : AtRest finished
unfolding take_step post_intake push_intake ring take_chain reverse_one unlink_one service
    drain_intake switch answer
finished-AtRest = record { core = refl; pushed = λ t. ground arith; silent = (refl, refl) }

serviced-arrived_example :
    (coming : List ℕ) × (finished.arrived ≡ finished.serviced ++ coming)
    × ((t : ℕ) → count t coming ≤ one_if (finished.pending t))
serviced-arrived_example = serviced-arrived at_start-Fresh path

rested-serviced_example :
    (finished.arrived ≡ finished.serviced) × ((t : ℕ) → finished.pending t ≡ false)
rested-serviced_example = rested-serviced at_start-Fresh path finished-AtRest
