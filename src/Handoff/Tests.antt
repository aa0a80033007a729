-- ===== src/Handoff/Tests.antt =====
-- An acquire that arms, takes a counted token and is handed another before it disarms.
use cyros.Common.{◌<◌, ◌≡◌, refl, true, false, ◌⊎◌}
use cyros.Handoff.{
  Place, Acquire, acquires, runs, hands_over, others, try_acquire, try_satisfy, disarm, settle, run,
  acquire, hand_over, take_step, Reaches,
}
use cyros.Handoff.OneToken.{Fresh, returned-one_token}

abbrev empty_handed : Acquire
empty_handed = record {
  counter = 0;
  queued = false;
  prepared = false;
  chosen_by_wake = false;
  took_counted = false;
  in_flight = 0;
  place = Place.resting;
  held = 0;
}

empty_handed-Fresh : Fresh empty_handed
empty_handed-Fresh = record { at_rest = refl; alone = refl }

abbrev twice_served : Acquire
twice_served = record empty_handed {
  prepared = true;
  chosen_by_wake = true;
  took_counted = true;
  in_flight = 1;
  place = Place.returned;
  held = 1;
}

path : Reaches empty_handed twice_served
unfolding take_step run acquire hand_over try_acquire try_satisfy disarm settle
path =
    Reaches.next runs
      (Reaches.next runs
        (Reaches.next hands_over
          (Reaches.next runs
            (Reaches.next (others 1)
              (Reaches.next runs (Reaches.next runs (Reaches.next acquires Reaches.here refl) refl)
                refl)
              refl)
            refl)
          refl)
        refl)
      refl

returned-one_token_example :
    (twice_served.place ≡ Place.returned → twice_served.held ≡ 1)
    × (twice_served.place ≡ Place.parked
        → ((twice_served.queued ≡ true) × (twice_served.held ≡ 0))
          ⊎ ((0 < twice_served.in_flight) × (twice_served.held ≡ 1)))
returned-one_token_example = returned-one_token empty_handed-Fresh path
