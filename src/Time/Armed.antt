-- ===== src/Time/Armed.antt =====
-- The tickless driver's invariant: on a started core, the one-shot is armed for the earliest deadline.
use cyros.Common.{
  ℕ, zero, suc, ◌+◌, ◌≤◌, ◌<◌, ◌≡◌, ◌⊎◌, inl, inr, refl, sym, Bool, true, false, not, ◌&&◌, Option,
  none, some, arith, ◌==◌, ltb, if◌then◌else◌, update, ◌>>=◌, check, is_some, Bool-cases, got,
  checked,
}
use cyros.Time.Timetable.{
  Slot, Driver, fire_due_isr, max_scheduled_callbacks, write_slots, free_slot,
}
use cyros.Time.Tickless.{
  no_deadline, earliest_from, rearm_locked, rearm_started, on_timer_isr, fill, rearmed, schedule_in,
  schedule_at, schedule_recurring, cancel_in, cancel, start, stop, initialise, finalise,
}

abbrev pub is_live : Slot → Bool
is_live s = not (s.id == 0)

-- The deadline is that of a live slot, and no live slot's is earlier; no deadline is that of no live slot.
abbrev pub Soonest : (ℕ → Slot) → Option ℕ → Type 0
Soonest slots none =
    (i : ℕ) → i < max_scheduled_callbacks → is_live (slots i) ≡ true → no_deadline ≤ (slots i).when
Soonest slots (some e) =
    ((i : ℕ) × (i < max_scheduled_callbacks) × (is_live (slots i) ≡ true) × ((slots i).when ≡ e))
    × ((i : ℕ) → i < max_scheduled_callbacks → is_live (slots i) ≡ true → e ≤ (slots i).when)

-- What the loop finds from slot `i` on.
record Least (slots : ℕ → Slot) (rounds i best e : ℕ) : Type 0 where
  lower : e ≤ best
  least : (j : ℕ) → i ≤ j → j < i + rounds → is_live (slots j) ≡ true → e ≤ (slots j).when
  found :
      (e ≡ best)
      ⊎ ((j : ℕ) × (i ≤ j) × (j < i + rounds) × (is_live (slots j) ≡ true) × ((slots j).when ≡ e))

earliest_from-Least :
    (rounds i : ℕ) (slots : ℕ → Slot) (best : ℕ)
    → Least slots rounds i best (earliest_from rounds i slots best)
unfolding earliest_from
earliest_from-Least zero i slots best = record {
  lower = omega arith;
  least = λ j lo hi live. absurd (omega arith);
  found = inl refl;
}
earliest_from-Least (suc rounds) i slots best =
    elim (Bool-cases (is_live (slots i) && ltb (slots i).when best)) [
      | inl nearer ↦
          let ih = earliest_from-Least rounds (i + 1) slots (slots i).when in
          rw nearer (record {
            lower = ground (arith, ih.lower);
            least = λ j lo hi live. ground (arith, ih.lower, ih.least j);
            found = elim ih.found [
              | inl e ↦ inr (i, omega arith, omega arith, ground arith, sym e)
              | inr (j, lo, hi, live, e) ↦ inr (j, omega arith, omega arith, live, e)
            ];
          })
      | inr further ↦
          let ih = earliest_from-Least rounds (i + 1) slots best in
          rw further (record {
            lower = ih.lower;
            least = λ j lo hi live. ground (arith, ih.lower, ih.least j);
            found = elim ih.found [
              | inl e ↦ inl e
              | inr (j, lo, hi, live, e) ↦ inr (j, omega arith, omega arith, live, e)
            ];
          })
    ]

programmed :
    (slots : ℕ → Slot) (e : ℕ)
    → Least slots max_scheduled_callbacks 0 no_deadline e
    → Soonest slots (if e == no_deadline then none else some e)
programmed slots e l = elim (Bool-cases (e == no_deadline)) [
  | inl idle ↦ rw idle (λ i h live. ground (arith, l.least i))
  | inr busy ↦ rw busy (
    elim l.found [
      | inl same ↦ absurd (ground arith)
      | inr (j, lo, hi, live, w) ↦ (j, omega arith, live, w)
    ],
    λ i h live. l.least i (omega arith) (omega arith) live,
  )
]

pub rearm_locked-Soonest : (d : Driver) → Soonest d.table.slots (rearm_locked d).one_shot
unfolding rearm_locked
rearm_locked-Soonest d =
    programmed d.table.slots _
      (earliest_from-Least max_scheduled_callbacks 0 d.table.slots no_deadline)

rearm_locked-table : (d : Driver) → (rearm_locked d).table ≡ d.table
unfolding rearm_locked
rearm_locked-table d = refl

-- On a core that has started, the one-shot is armed for the earliest deadline of its table.
abbrev pub Armed : Driver → Type 0
Armed d = d.table.started ≡ true → Soonest d.table.slots d.one_shot

rearm_locked-Armed : (d : Driver) → Armed (rearm_locked d)
rearm_locked-Armed d started = rw (rearm_locked-table d) (rearm_locked-Soonest d)

either-Armed :
    (b : Bool) (x y : Driver) → Armed x → (b ≡ false → Armed y) → Armed (if b then x else y)
either-Armed true x y p q = p
either-Armed false x y p q = q refl

rearm_started-Armed : (d : Driver) → Armed (rearm_started d)
unfolding rearm_started
rearm_started-Armed d =
    either-Armed d.table.started (rearm_locked d) d (rearm_locked-Armed d) (λ off on. cc)

rearmed-Armed : (r : ℕ × Driver) → Armed (rearmed r).1
unfolding rearmed
rearmed-Armed (id, d) = rearm_started-Armed d

schedule_in-Armed :
    (o : Option ℕ) (when period : ℕ) (cb : Option ℕ) (arg : ℕ) (d : Driver)
    → Armed d
    → Armed (schedule_in o when period cb arg d).1
unfolding schedule_in
schedule_in-Armed none when period cb arg d a = a
schedule_in-Armed (some i) when period cb arg d a = rearmed-Armed (fill i when period cb arg d)

cancel_in-Armed : (o : Option ℕ) (d : Driver) → Armed d → Armed (cancel_in o d).1
unfolding cancel_in
cancel_in-Armed none d a = a
cancel_in-Armed (some i) d a =
    rearm_started-Armed (write_slots (update d.table.slots i free_slot) d)

schedule-Armed :
    (b : Bool) (o : Option ℕ) (when period : ℕ) (cb : Option ℕ) (arg : ℕ) (d : Driver)
    → Armed d
    → Armed (if b then schedule_in o when period cb arg d else (0, d)).1
schedule-Armed true o when period cb arg d a = schedule_in-Armed o when period cb arg d a
schedule-Armed false o when period cb arg d a = a

schedule_at-Armed :
    (tp : ℕ) (cb : Option ℕ) (arg : ℕ) (d : Driver) (r : ℕ × Driver)
    → Armed d
    → schedule_at tp cb arg d ≡ some r
    → Armed r.1
unfolding schedule_at
schedule_at-Armed tp cb arg d r a e =
    checked (λ r. Armed r.1) d.initialised _ r (λ on. schedule-Armed (is_some cb) _ tp 0 cb arg d a)
      e

schedule_recurring-Armed :
    (now interval : ℕ) (cb : Option ℕ) (arg : ℕ) (d : Driver) (r : ℕ × Driver)
    → Armed d
    → schedule_recurring now interval cb arg d ≡ some r
    → Armed r.1
unfolding schedule_recurring
schedule_recurring-Armed now interval cb arg d r a e =
    checked (λ r. Armed r.1) d.initialised _ r
      (λ on. schedule-Armed (is_some cb && not (interval == 0)) _ _ interval cb arg d a) e

cancel-Armed : (h : ℕ) (d : Driver) (r : Bool × Driver) → Armed d → cancel h d ≡ some r → Armed r.1
unfolding cancel
cancel-Armed h d r a e = elim (Bool-cases (h == 0)) [
  | inl none_given ↦ got (λ (q : Bool × Driver). Armed q.1) (false, d) r a (rw none_given at e)
  | inr given ↦
      checked (λ r. Armed r.1) d.initialised _ r (λ on. cancel_in-Armed _ d a) (rw given at e)
]

start-Armed : (now : ℕ) (d d' : Driver) → Armed d → start now d ≡ some d' → Armed d'
unfolding start
start-Armed now d d' a e = from d.table.started _ (rearm_locked-Armed _) e
  where
    from :
        (b : Bool) (x : Driver)
        → Armed x
        → (if b then some d else (check d.initialised >>= λ u. some x)) ≡ some d'
        → Armed d'
    from true x p e = got Armed d d' a e
    from false x p e = checked Armed d.initialised x d' (λ on. p) e

stop-Armed : (d : Driver) → Armed d → Armed (stop d)
unfolding stop
stop-Armed d a = either-Armed d.table.started _ d (λ on. cc) (λ off. a)

on_timer_isr-Armed :
    (run : Option ℕ → ℕ → Driver → Driver) (now : ℕ) (d d' : Driver)
    → on_timer_isr run now d ≡ some d'
    → Armed d'
unfolding on_timer_isr
on_timer_isr-Armed run now d d' e = after (fire_due_isr run now d) e
  where
    after : (o : Option Driver) → (o >>= λ f. some (rearm_locked f)) ≡ some d' → Armed d'
    after none e = cc e
    after (some f) e = got Armed (rearm_locked f) d' (rearm_locked-Armed f) e

initialise-Armed : (hz : ℕ) (d d' : Driver) → Armed d → initialise hz d ≡ some d' → Armed d'
unfolding initialise
initialise-Armed hz d d' a e = checked Armed (not d.initialised) _ d' (λ off. a) e

finalise-Armed : (d d' : Driver) → finalise d ≡ some d' → Armed d'
unfolding finalise
finalise-Armed d d' e = checked Armed d.initialised _ d' (λ live on. cc) e

projected :
    {A : Type 0} (o : Option (A × Driver)) (d' : Driver)
    → ((r : A × Driver) → o ≡ some r → Armed r.1)
    → (o >>= λ r. some r.1) ≡ some d'
    → Armed d'
projected none d' h e = cc e
projected (some r) d' h e = got Armed r.1 d' (h r refl) e

-- The calls of the tickless driver, with the time that the port answers in each.
pub data Call : Type 0 where
  at : ℕ → Option ℕ → ℕ → Call
  recurring : ℕ → ℕ → Option ℕ → ℕ → Call
  cancelled : ℕ → Call
  timer : ℕ → Call
  started : ℕ → Call
  stopped : Call
  set_up : ℕ → Call
  torn_down : Call

module _ (run : Option ℕ → ℕ → Driver → Driver) where
  abbrev pub serve : Call → Driver → Option Driver
  serve (at tp cb arg) d = do r ← schedule_at tp cb arg d; some r.1
  serve (recurring now interval cb arg) d = do
    r ← schedule_recurring now interval cb arg d
    some r.1
  serve (cancelled h) d = do r ← cancel h d; some r.1
  serve (timer now) d = on_timer_isr run now d
  serve (started now) d = start now d
  serve stopped d = some (stop d)
  serve (set_up hz) d = initialise hz d
  serve torn_down d = finalise d

  serve-Armed : (call : Call) (d d' : Driver) → Armed d → serve call d ≡ some d' → Armed d'
  serve-Armed (at tp cb arg) d d' a e =
      projected (schedule_at tp cb arg d) d' (λ r k. schedule_at-Armed tp cb arg d r a k) e
  serve-Armed (recurring now interval cb arg) d d' a e =
      projected (schedule_recurring now interval cb arg d) d'
        (λ r k. schedule_recurring-Armed now interval cb arg d r a k) e
  serve-Armed (cancelled h) d d' a e = projected (cancel h d) d' (λ r k. cancel-Armed h d r a k) e
  serve-Armed (timer now) d d' a e = on_timer_isr-Armed run now d d' e
  serve-Armed (started now) d d' a e = start-Armed now d d' a e
  serve-Armed stopped d d' a e = got Armed (stop d) d' (stop-Armed d a) e
  serve-Armed (set_up hz) d d' a e = initialise-Armed hz d d' a e
  serve-Armed torn_down d d' a e = finalise-Armed d d' e

  -- The states that a core's driver goes through, in any order of calls.
  pub data Reaches (d : Driver) : Driver → Type 0 where
    here : Reaches d d
    next : {e f : Driver} (call : Call) → Reaches d e → serve call e ≡ some f → Reaches d f

  -- In every state that the tickless driver reaches from one that has not started, by any calls in any
  -- order and whatever the callbacks do, a started core's one-shot is armed for the earliest deadline of
  -- its live slots, or disarmed where none has one below 2 ^ 64 - 1.
  pub reached-Armed : {d e : Driver} → d.table.started ≡ false → Reaches d e → Armed e
  reached-Armed off here = λ on. cc
  reached-Armed off (next {e} {f} call r k) = serve-Armed call e f (reached-Armed off r) k
