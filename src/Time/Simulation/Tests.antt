-- ===== src/Time/Simulation/Tests.antt =====
-- The simulation driver on two cores: what an advance fires, and a callback that is taken back.
use cyros.Common.{
  ℕ, zero, suc, ◌<◌, ◌≡◌, ◌≢◌, refl, Bool, true, false, some, none, List, [], ◌∷◌, ◌++◌, arith, max,
}
use cyros.Time.Simulation.{
  Event, Simulation, events_of, live, find_due, advance_to, cancel, schedule_at, push_event,
  next_handle_id,
}
use cyros.Time.Simulation.Pump.{Pumped, Quiet}
use cyros.Time.Simulation.Cores.{calls_due, advance_to-Pumped, Fits}
use cyros.Time.Simulation.Cancelling.{at_end, given, scheduled, schedule_at-cancel}

abbrev event_at : (id when period cb : ℕ) → Bool → Event
event_at id when period cb cancelled = record {
  id = id;
  when = when;
  period = period;
  cb = cb;
  arg = 0;
  cancelled = cancelled;
}

abbrev events_on : ℕ → List Event
events_on zero = event_at 1 2 0 7 true ∷ event_at 2 3 4 8 false ∷ event_at 3 5 0 9 false ∷ []
events_on (suc c) = event_at 1 10 0 5 false ∷ event_at 2 50 0 6 false ∷ []

abbrev at_four : Simulation
at_four = record {
  virtual_mode = true;
  running = false;
  started = true;
  virtual_now = 4;
  per_core = λ c. record { events = events_on c; next_id = 4 };
  calls = [];
}

-- Callbacks that only are recorded.
abbrev nothing_more : ℕ → ℕ → Simulation → Simulation
nothing_more cb arg s = s

nothing_more-Quiet : Quiet nothing_more
nothing_more-Quiet cb arg s = (refl, refl, refl)

events_on-Fits : (c : ℕ) → c < 2 → Fits 3 10 (live (events_on c))
unfolding live
events_on-Fits zero lt = ((omega arith, (omega arith, tt)), omega arith)
events_on-Fits (suc c) lt = ((omega arith, (omega arith, tt)), omega arith)

advance_to-Pumped_example :
    (s' : Simulation) × (advance_to nothing_more 2 3 10 at_four ≡ some s')
    × (s'.virtual_now ≡ max 10 4)
    × (s'.calls ≡ [] ++ calls_due 2 (max 10 4) 0 (λ j. live (events_of at_four j)))
    × ((j : ℕ)
        → j < 2
        → Pumped (max 10 4) (live (events_of at_four j)) (events_of s' j)
          × (find_due (max 10 4) (events_of s' j) ≡ none))
advance_to-Pumped_example =
    advance_to-Pumped nothing_more nothing_more-Quiet 2 3 10 at_four refl events_on-Fits

schedule_at-cancel_example :
    (given 0 9 5 6 at_four ≢ 0)
    × (live (events_of (scheduled 0 9 5 6 at_four) 0)
        ≡ live (events_on 0) ++ at_end 0 9 0 5 6 at_four ∷ [])
    × ((cancel 0 (given 0 9 5 6 at_four) (scheduled 0 9 5 6 at_four)).0 ≡ true)
    × (live (events_of (cancel 0 (given 0 9 5 6 at_four) (scheduled 0 9 5 6 at_four)).1 0)
        ≡ live (events_on 0))
    × ((cancel 0
          (given 0 9 5 6 at_four)
          (cancel 0 (given 0 9 5 6 at_four) (scheduled 0 9 5 6 at_four)).1).0
        ≡ false)
unfolding schedule_at push_event next_handle_id
schedule_at-cancel_example = schedule_at-cancel 0 9 5 6 at_four (refl, (refl, (refl, tt)))
