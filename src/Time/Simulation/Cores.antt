-- ===== src/Time/Simulation/Cores.antt =====
-- What an advance of the time does to all cores (fire_due_callbacks and advance_to).
use cyros.Common.{
  ℕ, zero, suc, ◌+◌, ◌≤◌, ◌<◌, ◌≡◌, refl, sym, ap, ◌∙◌, true, Option, none, some, List, [], ◌++◌,
  arith, ltb, if◌then◌else◌, length, ℕ_discrete, subst, max, append_assoc, append-nil,
}
use cyros.Time.Simulation.{
  Event, Simulation, events_of, live, find_due, fire_cores, fire_due_callbacks, advance_to,
}
use cyros.Time.Simulation.Pump.{
  Pumped, nothing, waits, once, again, due_calls, Small, Quiet, live-AllLive, later_waits, Fired,
  fire_core-Fired,
}

abbrev lived : Simulation → ℕ → List Event
lived s j = live (events_of s j)

-- The calls that are due on the cores from `c` on, core by core.
abbrev pub calls_due : (rounds now c : ℕ) → (ℕ → List Event) → List (ℕ × ℕ)
calls_due zero now c tables = []
calls_due (suc rounds) now c tables =
    due_calls now (tables c) ++ calls_due rounds now (c + 1) tables

calls_due-same :
    (rounds now c : ℕ) (f g : ℕ → List Event)
    → ((j : ℕ) → c ≤ j → f j ≡ g j)
    → calls_due rounds now c f ≡ calls_due rounds now c g
calls_due-same zero now c f g same = refl
calls_due-same (suc rounds) now c f g same =
    rw (same c (omega arith), calls_due-same rounds now (c + 1) f g (λ j le. same j (omega arith)))
      refl

Pumped-settled : (now : ℕ) {es es' : List Event} → Pumped now es es' → find_due now es' ≡ none
unfolding find_due
Pumped-settled now nothing = refl
Pumped-settled now (waits early p) = rw (early, Pumped-settled now p) refl
Pumped-settled now (once due z p) = Pumped-settled now p
Pumped-settled now (again {e} w due past near grid p) =
    rw (later_waits now w e past, Pumped-settled now p) refl

-- Fuel for each event, and room for its next deadline.
abbrev pub Fits : (fuel now : ℕ) → List Event → Type 0
Fits fuel now es = Small now es × (length es < fuel)

-- What the cores from `c` on have become.
record Swept (rounds now c : ℕ) (s : Simulation) (r : Option Simulation) : Type 0 where
  after : Simulation
  result : r ≡ some after
  pumped : (j : ℕ) → c ≤ j → j < c + rounds → Pumped now (lived s j) (events_of after j)
  before : (j : ℕ) → j < c → events_of after j ≡ events_of s j
  calls : after.calls ≡ s.calls ++ calls_due rounds now c (lived s)
  time : after.virtual_now ≡ s.virtual_now

module _ (run : ℕ → ℕ → Simulation → Simulation) (quiet : Quiet run) (fuel now : ℕ) where
  swept_here :
      (c j : ℕ) (after : Simulation) {s : Simulation} {r : Option Simulation}
      → (f : Fired run quiet now c [] (lived s c) s r) → j ≡ c
      → events_of after c ≡ events_of f.after c
      → Pumped now (lived s j) (events_of after j)
  swept_here c j after {s} f at e =
      subst (λ i. Pumped now (lived s i) (events_of after i)) (sym at)
        (subst (Pumped now (lived s c)) (sym (e ∙ f.events)) f.pumped)

  fire_cores-Swept :
      (rounds c : ℕ) (s : Simulation)
      → ((j : ℕ) → c ≤ j → j < c + rounds → Fits fuel now (lived s j))
      → Swept rounds now c s (fire_cores run rounds fuel now c s)
  unfolding fire_cores
  fire_cores-Swept zero c s h = record {
    after = s;
    result = refl;
    pumped = λ j le lt. absurd (omega arith);
    before = λ j lt. refl;
    calls = sym (append-nil s.calls);
    time = refl;
  }
  fire_cores-Swept (suc rounds) c s h =
      let here = h c (omega arith) (omega arith) in
      let f =
        fire_core-Fired run quiet now c (lived s c) [] fuel s tt refl (live-AllLive (events_of s c))
          here.0 refl here.1 in
      let same : (j : ℕ) → c + 1 ≤ j → lived f.after j ≡ lived s j =
        λ j le. ap live (f.others j (λ e. absurd (omega arith))) in
      let g =
        fire_cores-Swept rounds (c + 1) f.after
          (λ j le lt. subst (Fits fuel now) (sym (same j le)) (h j (omega arith) (omega arith))) in
      record {
        after = g.after;
        result = rw f.result g.result;
        pumped = λ j le lt. elim (ℕ_discrete j c) [
          | yes at ↦ swept_here c j g.after f at (g.before c (omega arith))
          | no other ↦
              subst (λ es. Pumped now es (events_of g.after j)) (same j (ground (arith, other)))
                (g.pumped j (ground (arith, other)) (omega arith))
        ];
        before = λ j lt. g.before j (omega arith) ∙ f.others j (λ e. absurd (omega arith));
        calls =
            g.calls
            ∙ ap (λ l. l ++ calls_due rounds now (c + 1) (lived f.after)) f.calls
            ∙ append_assoc s.calls (due_calls now (lived s c))
                (calls_due rounds now (c + 1) (lived f.after))
            ∙ ap (λ l. s.calls ++ (due_calls now (lived s c) ++ l))
                (calls_due-same rounds now (c + 1) (lived f.after) (lived s) same);
        time = g.time ∙ f.time;
      }

max-if : (m n : ℕ) → (if ltb m n then n else m) ≡ max m n
max-if m n = ground arith

advance_to-max :
    (run : ℕ → ℕ → Simulation → Simulation) (cores fuel tp : ℕ) (s : Simulation)
    → s.virtual_mode ≡ true
    → advance_to run cores fuel tp s
      ≡ fire_cores run cores fuel
          (max tp s.virtual_now)
          0
          (record s { virtual_now = max tp s.virtual_now })
unfolding advance_to fire_due_callbacks
advance_to-max run cores fuel tp s virtual = rw (virtual, max-if tp s.virtual_now) refl

module _ (run : ℕ → ℕ → Simulation → Simulation) (quiet : Quiet run) where
  -- In virtual time, where callbacks schedule, cancel and advance nothing, and each core has fuel
  -- for its waiting events, whose next deadlines fit 64 bits: an advance goes through, moves the
  -- time to tp unless it is past it, and calls the due callbacks, core by core in the order of each
  -- core's list; of a core's events the due one-shots are gone, each due recurring one is on its
  -- grid past the time by no more than a period, the others are as they were, and none is due.
  pub advance_to-Pumped :
      (cores fuel tp : ℕ) (s : Simulation)
      → s.virtual_mode ≡ true
      → ((j : ℕ) → j < cores → Fits fuel (max tp s.virtual_now) (lived s j))
      → (s' : Simulation) × (advance_to run cores fuel tp s ≡ some s')
        × (s'.virtual_now ≡ max tp s.virtual_now)
        × (s'.calls ≡ s.calls ++ calls_due cores (max tp s.virtual_now) 0 (lived s))
        × ((j : ℕ)
            → j < cores
            → Pumped (max tp s.virtual_now) (lived s j) (events_of s' j)
              × (find_due (max tp s.virtual_now) (events_of s' j) ≡ none))
  advance_to-Pumped cores fuel tp s virtual fits =
      let now = max tp s.virtual_now in
      let f =
        fire_cores-Swept run quiet fuel now cores 0 (record s { virtual_now = now })
          (λ j le lt. fits j (omega arith)) in
      (
        f.after,
        advance_to-max run cores fuel tp s virtual ∙ f.result,
        f.time,
        f.calls,
        λ j lt. let p = f.pumped j (omega arith) (omega arith) in (p, Pumped-settled now p),
      )
