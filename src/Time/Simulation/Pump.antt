-- ===== src/Time/Simulation/Pump.antt =====
-- What an advance of the time fires, and what it leaves.
use cyros.Common.{
  ℕ, zero, suc, ◌+◌, ◌-◌, ◌≤◌, ◌<◌, ◌^◌, ◌≡◌, ◌≢◌, refl, sym, ap, ◌∙◌, true, false, Option, none,
  some, List, [], ◌∷◌, ◌++◌, arith, ◌==◌, if◌then◌else◌, length, Bool-cases, if_each, inl, inr,
  append_assoc, append-nil,
}
use cyros.Time.Firing.{OnGrid, advance-Lands}
use cyros.Time.Simulation.{
  Event, Simulation, events_of, with_events, live, is_due, find_due, taken, call, fire_core,
}

-- A core's events after the time has come to `now`: the due one-shots are gone, each due recurring
-- event is on its grid past now and by no more than a period, and the others are as they were.
pub data Pumped (now : ℕ) : List Event → List Event → Type 0 where
  nothing : Pumped now [] []
  waits :
      {e : Event} {es es' : List Event}
      → is_due now e ≡ false
      → Pumped now es es'
      → Pumped now (e ∷ es) (e ∷ es')
  once :
      {e : Event} {es es' : List Event}
      → is_due now e ≡ true
      → e.period ≡ 0
      → Pumped now es es'
      → Pumped now (e ∷ es) es'
  again :
      {e : Event} {es es' : List Event} (w : ℕ)
      → is_due now e ≡ true
      → now < w
      → w ≤ now + e.period
      → OnGrid e.when e.period w
      → Pumped now es es'
      → Pumped now (e ∷ es) (record e { when = w } ∷ es')

-- The calls that are due, in the order of the list.
abbrev pub due_calls : ℕ → List Event → List (ℕ × ℕ)
due_calls now [] = []
due_calls now (e ∷ es) =
    let rest = due_calls now es in if is_due now e then (e.cb, e.arg) ∷ rest else rest

-- The next deadline of each event fits 64 bits.
abbrev pub Small : ℕ → List Event → Type 0
Small now [] = Unit {0}
Small now (e ∷ es) = (now + e.period < 2 ^ 64) × Small now es

-- Callbacks that schedule and cancel nothing and leave the time.
abbrev pub Quiet : (ℕ → ℕ → Simulation → Simulation) → Type 0
Quiet run =
    (cb arg : ℕ) (s : Simulation)
    → ((run cb arg s).per_core ≡ s.per_core)
      × ((run cb arg s).calls ≡ s.calls)
      × ((run cb arg s).virtual_now ≡ s.virtual_now)

abbrev pub AllLive : List Event → Type 0
AllLive [] = Unit {0}
AllLive (e ∷ es) = (e.cancelled ≡ false) × AllLive es

pub live-AllLive : (es : List Event) → AllLive (live es)
unfolding live
live-AllLive [] = tt
live-AllLive (e ∷ es) =
    if_each AllLive e.cancelled (live es) (e ∷ live es) (λ off. live-AllLive es)
      (λ on. (on, live-AllLive es))

live_all : (es : List Event) → AllLive es → live es ≡ es
unfolding live
live_all [] l = refl
live_all (e ∷ es) (on, l) = rw (on, live_all es l) refl

AllLive-append : (es fs : List Event) → AllLive es → AllLive fs → AllLive (es ++ fs)
AllLive-append [] fs l m = m
AllLive-append (e ∷ es) fs (on, l) m = (on, AllLive-append es fs l m)

find_due-append :
    (now : ℕ) (es fs : List Event)
    → find_due now es ≡ none
    → find_due now (es ++ fs) ≡ find_due now fs
unfolding find_due
find_due-append now [] fs h = refl
find_due-append now (e ∷ es) fs h = elim (Bool-cases (is_due now e)) [
  | inl due ↦ cc (rw due at h)
  | inr early ↦ rw early (find_due-append now es fs (rw early at h))
]

taken-append :
    (now : ℕ) (es fs fs' : List Event)
    → find_due now es ≡ none
    → taken now fs ≡ some fs'
    → taken now (es ++ fs) ≡ some (es ++ fs')
unfolding taken find_due
taken-append now [] fs fs' h t = t
taken-append now (e ∷ es) fs fs' h t = elim (Bool-cases (is_due now e)) [
  | inl due ↦ cc (rw due at h)
  | inr early ↦ rw (early, taken-append now es fs fs' (rw early at h) t) refl
]

pub later_waits : (now w : ℕ) (x : Event) → now < w → is_due now (record x { when = w }) ≡ false
unfolding is_due
later_waits now w x past = ground arith

-- Where nothing before x is due, the search finds x or comes past it.
module _ (now : ℕ) (before todo : List Event) (x : Event) (h : find_due now before ≡ none) where
  past_waiting : is_due now x ≡ false → find_due now (before ++ x ∷ []) ≡ none
  unfolding find_due
  past_waiting early = find_due-append now before (x ∷ []) h ∙ rw early refl

  finds : is_due now x ≡ true → find_due now (before ++ x ∷ todo) ≡ some x
  unfolding find_due
  finds due = find_due-append now before (x ∷ todo) h ∙ rw due refl

  takes_once :
      is_due now x ≡ true
      → (x.period == 0) ≡ true
      → taken now (before ++ x ∷ todo) ≡ some (before ++ todo)
  unfolding taken
  takes_once due once' = taken-append now before (x ∷ todo) todo h (rw (due, once') refl)

  takes_again :
      is_due now x ≡ true
      → (x.period == 0) ≡ false
      → now + x.period < 2 ^ 64
      → (w : ℕ) × (taken now (before ++ x ∷ todo) ≡ some (before ++ record x { when = w } ∷ todo))
        × (now < w)
        × (w ≤ now + x.period)
        × OnGrid x.when x.period w
  unfolding taken
  takes_again due again' small =
      let (w, e, past, near, grid) =
        advance-Lands (suc (now - x.when)) now x.period x.when (ground arith) (ground arith) small
          (omega arith) in
      (
        w,
        taken-append now before (x ∷ todo) (record x { when = w } ∷ todo) h
            (rw (due, again', e) refl),
        past,
        near,
        grid,
      )

module _ (run : ℕ → ℕ → Simulation → Simulation) (quiet : Quiet run) (now c : ℕ) where
  ends :
      (fuel : ℕ) (s : Simulation) (es : List Event)
      → live (events_of s c) ≡ es
      → find_due now es ≡ none
      → fire_core run (suc fuel) now c s ≡ some (with_events c es s)
  unfolding fire_core
  ends fuel s es l h = rw (l, h) refl

  goes_on :
      (fuel : ℕ) (s : Simulation) (e : Event) (es es' : List Event)
      → live (events_of s c) ≡ es
      → find_due now es ≡ some e
      → taken now es ≡ some es'
      → fire_core run (suc fuel) now c s
        ≡ fire_core run fuel now c (call run e (with_events c es' s))
  unfolding fire_core
  goes_on fuel s e es es' l h t = rw (l, h, t) refl

  -- The core's loop has come past `before`, and has these events before it.
  pub record Fired (before todo : List Event) (s : Simulation) (r : Option Simulation)
      : Type 0 where
    pub after : Simulation
    pub left : List Event
    pub result : r ≡ some after
    pub pumped : Pumped now todo left
    pub events : events_of after c ≡ before ++ left
    pub others : (j : ℕ) → j ≢ c → events_of after j ≡ events_of s j
    pub calls : after.calls ≡ s.calls ++ due_calls now todo
    pub time : after.virtual_now ≡ s.virtual_now

  ended-Fired :
      (fuel : ℕ) (s : Simulation) (before : List Event)
      → find_due now before ≡ none
      → live (events_of s c) ≡ before
      → Fired before [] s (fire_core run (suc fuel) now c s)
  ended-Fired fuel s before h e = record {
    after = with_events c before s;
    left = [];
    result = ends fuel s before e h;
    pumped = nothing;
    events = ground (arith, append-nil before);
    others = λ j other. ground arith;
    calls = sym (append-nil s.calls);
    time = refl;
  }

  waited :
      {r : Option Simulation} (before todo : List Event) (s : Simulation) (x : Event)
      → is_due now x ≡ false
      → Fired (before ++ x ∷ []) todo s r
      → Fired before (x ∷ todo) s r
  waited before todo s x early f = record {
    after = f.after;
    left = x ∷ f.left;
    result = f.result;
    pumped = waits early f.pumped;
    events = f.events ∙ append_assoc before (x ∷ []) f.left;
    others = f.others;
    calls = f.calls ∙ ap (λ l. s.calls ++ l) (rw early refl);
    time = f.time;
  }

  called :
      (s : Simulation) (e : Event) (es : List Event)
      → (events_of (call run e (with_events c es s)) c ≡ es)
        × ((j : ℕ) → j ≢ c → events_of (call run e (with_events c es s)) j ≡ events_of s j)
        × ((call run e (with_events c es s)).calls ≡ s.calls ++ (e.cb, e.arg) ∷ [])
        × ((call run e (with_events c es s)).virtual_now ≡ s.virtual_now)
  called s e es =
      let (cores, calls, time) =
        quiet e.cb e.arg (record (with_events c es s) { calls = s.calls ++ (e.cb, e.arg) ∷ [] }) in
      (
        ap (λ f. (f c).events) cores ∙ ground arith,
        λ j other. ap (λ f. (f j).events) cores ∙ ground arith,
        calls,
        time,
      )

  stays_live :
      (s : Simulation) (e : Event) (es : List Event)
      → AllLive es
      → live (events_of (call run e (with_events c es s)) c) ≡ es
  stays_live s e es l = ap live (called s e es).0 ∙ live_all es l

  -- What is left after x has been called.
  went_on :
      {r r' : Option Simulation} (before before' es todo left : List Event) (s : Simulation)
      (x : Event)
      → r ≡ r'
      → is_due now x ≡ true
      → (f : Fired before' todo (call run x (with_events c es s)) r') → Pumped now (x ∷ todo) left
      → before' ++ f.left ≡ before ++ left
      → Fired before (x ∷ todo) s r
  went_on before before' es todo left s x same due f p shift =
      let (_, others, calls, time) = called s x es in
      record {
        after = f.after;
        left = left;
        result = same ∙ f.result;
        pumped = p;
        events = f.events ∙ shift;
        others = λ j other. f.others j other ∙ others j other;
        calls =
            f.calls
            ∙ ap (λ l. l ++ due_calls now todo) calls
            ∙ append_assoc s.calls ((x.cb, x.arg) ∷ []) (due_calls now todo)
            ∙ ap (λ l. s.calls ++ l) (rw due refl);
        time = f.time ∙ time;
      }

  -- The search starts afresh after each call, and finds the next.
  pub fire_core-Fired :
      (todo before : List Event) (fuel : ℕ) (s : Simulation)
      → AllLive before
      → find_due now before ≡ none
      → AllLive todo
      → Small now todo
      → live (events_of s c) ≡ before ++ todo
      → length todo < fuel
      → Fired before todo s (fire_core run fuel now c s)
  fire_core-Fired todo before zero s lb hb lt sm e f = absurd (omega arith)
  fire_core-Fired [] before (suc fuel) s lb hb lt sm e f =
      ended-Fired fuel s before hb (e ∙ append-nil before)
  fire_core-Fired (x ∷ todo) before (suc fuel) s lb hb (on, lt) (bound, sm) e f =
      elim (Bool-cases (is_due now x)) [
        | inr early ↦ waited before todo s x early (
            fire_core-Fired todo (before ++ x ∷ []) (suc fuel) s
              (AllLive-append before (x ∷ []) lb (on, tt)) (past_waiting now before todo x hb early)
              lt sm (e ∙ sym (append_assoc before (x ∷ []) todo)) (omega arith))
        | inl due ↦
            let found = finds now before todo x hb due in
            elim (Bool-cases (x.period == 0)) [
              | inl once' ↦
                  let es = before ++ todo in
                  let f' =
                    fire_core-Fired todo before fuel (call run x (with_events c es s)) lb hb lt sm
                      (stays_live s x es (AllLive-append before todo lb lt)) (omega arith) in
                  went_on before before es todo f'.left s x
                    (goes_on fuel s x (before ++ x ∷ todo) es e found
                      (takes_once now before todo x hb due once'))
                    due f' (once due (ground arith) f'.pumped) refl
              | inr again' ↦
                  let (w, t, past, near, grid) =
                    takes_again now before todo x hb due again' bound in
                  let y : Event = record x { when = w } in
                  let es = before ++ y ∷ todo in
                  let f' =
                    fire_core-Fired todo (before ++ y ∷ []) fuel (call run x (with_events c es s))
                      (AllLive-append before (y ∷ []) lb (on, tt))
                      (past_waiting now before todo y hb (later_waits now w x past)) lt sm
                      (stays_live s x es (AllLive-append before (y ∷ todo) lb (on, lt))
                        ∙ sym (append_assoc before (y ∷ []) todo))
                      (omega arith) in
                  went_on before (before ++ y ∷ []) es todo (y ∷ f'.left) s x
                    (goes_on fuel s x (before ++ x ∷ todo) es e found t) due f'
                    (again w due past near grid f'.pumped) (append_assoc before (y ∷ []) f'.left)
            ]
      ]
