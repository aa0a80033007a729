-- ===== src/Suspend/Tests.antt =====
-- A resume that arrives between the look and the park.
use cyros.Common.{◌+◌, ◌≤◌, ◌≡◌, refl, false, Option, none, some}
use cyros.Suspend.{
  Place, Suspension, suspends, runs, resumes_token, wakes, commit, take_token, run, suspend,
  unparked, ready, set_token, wake, take_step, Reaches,
}
use cyros.Suspend.Kept.{Fresh, one_if, returned, parked-without_token, returned-le-resumes}

abbrev at_start : Suspension
at_start = record {
  resume_token = false;
  prepared = false;
  place = Place.outside;
  in_flight = 0;
  resumes = 0;
  taken = 0;
  calls = 0;
}

at_start-Fresh : Fresh at_start
at_start-Fresh = record { outside = refl; nothing = (refl, refl, refl) }

-- The state after a step that is possible.
abbrev after : Option Suspension → Suspension
after none = at_start
after (some s) = s

abbrev begun : Suspension
begun = after (take_step suspends at_start)

abbrev prepared : Suspension
prepared = after (take_step runs begun)

abbrev looked : Suspension
looked = after (take_step runs prepared)

abbrev resumed : Suspension
resumed = after (take_step resumes_token looked)

abbrev woken : Suspension
woken = after (take_step wakes resumed)

abbrev revoked : Suspension
revoked = after (take_step runs woken)

abbrev prepared_again : Suspension
prepared_again = after (take_step runs revoked)

abbrev seen : Suspension
seen = after (take_step runs prepared_again)

abbrev taken : Suspension
taken = after (take_step runs seen)

abbrev back : Suspension
back = after (take_step runs taken)

abbrev waiting : Suspension
waiting = after (take_step suspends back)

abbrev waiting_prepared : Suspension
waiting_prepared = after (take_step runs waiting)

abbrev waiting_looked : Suspension
waiting_looked = after (take_step runs waiting_prepared)

abbrev parked : Suspension
parked = after (take_step runs waiting_looked)

path : Reaches at_start parked
unfolding take_step suspend run commit take_token set_token wake ready unparked
path =
    Reaches.next runs
      (Reaches.next runs
        (Reaches.next runs
          (Reaches.next suspends
            (Reaches.next runs
              (Reaches.next runs
                (Reaches.next runs
                  (Reaches.next runs
                    (Reaches.next runs
                      (Reaches.next wakes
                        (Reaches.next resumes_token
                          (Reaches.next runs
                            (Reaches.next runs (Reaches.next suspends Reaches.here refl) refl) refl)
                          refl)
                        refl)
                      refl)
                    refl)
                  refl)
                refl)
              refl)
            refl)
          refl)
        refl)
      refl

at_park : parked.place ≡ Place.parked
unfolding take_step suspend run commit take_token set_token wake ready unparked
at_park = refl

none_left : parked.in_flight ≡ 0
unfolding take_step suspend run commit take_token set_token wake ready unparked
none_left = refl

parked-without_token_example : parked.resume_token ≡ false
parked-without_token_example = parked-without_token at_start-Fresh path at_park none_left

returned-le-resumes_example : returned parked + one_if parked.resume_token ≤ 0 + parked.resumes
returned-le-resumes_example = returned-le-resumes at_start-Fresh path
