-- ===== src/Scheduler/Deciding.antt =====
-- decide (src/kernel/scheduler.hpp): one thread runs before a switch and one after it.
use cyros.Common.{
  ℕ, ◌≡◌, ◌≢◌, ◌⊎◌, inl, inr, refl, ap, ◌∙◌, sym, Bool, true, false, Option, some, List, [], ◌∷◌,
  reverse, arith, ◌==◌, ◌>>=◌, if◌then◌else◌,
}
use cyros.Kernel.Thread.{
  ThreadState, ThreadDisposition, is_ready, is_running, is_prepared, holds_nothing,
}
use cyros.Scheduler.Core.{
  Core, tcb_of, set_state, set_disposition, admit, file_in, append_holder, set_thread_blocked,
}
use cyros.Scheduler.Leaving.{DepartureReason, depart}
use cyros.Scheduler.Switch.{run_next, decide, decide_for, depart_running, drain_intake, drain_each}
use cyros.Scheduler.Filing.{Filed, IsOut}
use cyros.Scheduler.Pick.{IsBest, Nobody}
use cyros.Scheduler.Running.{Runs, run_next-Runs}
use cyros.Scheduler.Departure.{admit-Admitted}

-- Thread `t` is the core's running thread and no other thread pinned to the core runs; the ready
-- structures are in order, and the idle thread is ready unless it is the one that runs.
pub record Live (t : ℕ) (c : Core) : Type 0 where
  pub filed : Filed c
  pub current : c.current ≡ some t
  pub running : is_running (tcb_of c t).state ≡ true
  pub pin : (tcb_of c t).pinned_core ≡ c.core_id
  pub alone :
      (u : ℕ) → u ≢ t → (tcb_of c u).pinned_core ≡ c.core_id → is_running (tcb_of c u).state ≡ false
  pub idle_pin : (tcb_of c c.idle).pinned_core ≡ c.core_id
  pub idle_ready : c.idle ≢ t → is_ready (tcb_of c c.idle).state ≡ true

-- What a departure of `t` leaves: no thread of the core runs, and the idle thread is ready.
record Departed (c d : Core) : Type 0 where
  filed : Filed d
  core_id : d.core_id ≡ c.core_id
  idle : d.idle ≡ c.idle
  none_runs : (u : ℕ) → (tcb_of d u).pinned_core ≡ d.core_id → is_running (tcb_of d u).state ≡ false
  idle_ready : is_ready (tcb_of d d.idle).state ≡ true
  cores : (u : ℕ) → (tcb_of d u).pinned_core ≡ (tcb_of c u).pinned_core

not_running : (st : ThreadState) → is_running st ≡ true → is_ready st ≡ false
not_running ThreadState.running e = refl
not_running ThreadState.created e = refl
not_running ThreadState.ready e = cc
not_running ThreadState.blocked e = refl
not_running ThreadState.terminated e = refl

Live-IsOut : {t : ℕ} {c : Core} → Live t c → IsOut c t
Live-IsOut {t} {c} l = (
  ground (arith, l.filed.ready t, not_running (tcb_of c t).state l.running),
  ground (arith, l.filed.ready t, not_running (tcb_of c t).state l.running),
)

placed : Bool → ℕ → Core → Core
placed at_front t c =
    if t == c.idle
    then set_state t ThreadState.ready c
    else if holds_nothing (tcb_of c t)
    then file_in at_front t (set_state t ThreadState.ready c)
    else append_holder t (set_state t ThreadState.ready c)

placed-frame :
    (at_front : Bool) (t : ℕ) (c : Core)
    → ((placed at_front t c).core_id ≡ c.core_id)
      × ((placed at_front t c).idle ≡ c.idle)
      × ((u : ℕ) → (tcb_of (placed at_front t c) u).pinned_core ≡ (tcb_of c u).pinned_core)
      × ((u : ℕ)
          → (tcb_of (placed at_front t c) u).state
            ≡ (if u == t then ThreadState.ready else (tcb_of c u).state))
unfolding placed file_in append_holder
placed-frame at_front t c = (ground arith, ground arith, λ u. ground arith, λ u. ground arith)

placed-Departed :
    (at_front : Bool) (t : ℕ) (c d : Core)
    → Live t c
    → d ≡ placed at_front t c
    → Filed d
    → Departed c d
placed-Departed at_front t c d l p f = record {
  filed = f;
  core_id = ap (λ (e : Core). e.core_id) p ∙ frame.0;
  idle = ap (λ (e : Core). e.idle) p ∙ frame.1;
  none_runs = λ u here.
      ap (λ (e : Core). is_running (tcb_of e u).state) p
      ∙ still
          (sym (ap (λ (e : Core). (tcb_of e u).pinned_core) p ∙ frame.2 u)
            ∙ here
            ∙ (ap (λ (e : Core). e.core_id) p ∙ frame.0))
          (frame.3 u);
  idle_ready =
      ap (λ (e : Core). is_ready (tcb_of e e.idle).state) p
      ∙ ground (arith, frame.1, frame.3 c.idle, l.idle_ready);
  cores = λ u. ap (λ (e : Core). (tcb_of e u).pinned_core) p ∙ frame.2 u;
}
  where
    frame :
        ((placed at_front t c).core_id ≡ c.core_id)
        × ((placed at_front t c).idle ≡ c.idle)
        × ((u : ℕ) → (tcb_of (placed at_front t c) u).pinned_core ≡ (tcb_of c u).pinned_core)
        × ((u : ℕ)
            → (tcb_of (placed at_front t c) u).state
              ≡ (if u == t then ThreadState.ready else (tcb_of c u).state))
    frame = placed-frame at_front t c

    still :
        {u : ℕ} {st : ThreadState}
        → (tcb_of c u).pinned_core ≡ c.core_id
        → st ≡ (if u == t then ThreadState.ready else (tcb_of c u).state)
        → is_running st ≡ false
    still {u} {st} here e = ground (arith, l.alone u, here, e)

admit-Departed :
    (at_front : Bool) (t : ℕ) (c : Core)
    → Live t c
    → (d : Core) × (admit at_front t c ≡ some d) × Departed c d
unfolding placed
admit-Departed at_front t c l =
    let (d, e, a) = admit-Admitted at_front t c l.filed (Live-IsOut l) l.pin in
    (d, e, placed-Departed at_front t c d l a.place a.filed)

abbrev blocked : ℕ → Core → Core
blocked t c = set_state t ThreadState.blocked (set_disposition t ThreadDisposition.none c)

set_thread_blocked-Departed :
    (t : ℕ) (c : Core)
    → Live t c
    → is_prepared (tcb_of c t).disposition ≡ true
    → c.idle ≢ t
    → (d : Core) × (set_thread_blocked t c ≡ some d) × Departed c d
unfolding set_thread_blocked
set_thread_blocked-Departed t c l prepared other = (
  blocked t c,
  ground (arith, l.pin, l.running, prepared, Live-IsOut l),
  record {
    filed = record {
      small = l.filed.small;
      marked = l.filed.marked;
      levels = λ u p. ground (arith, l.filed.levels u p);
      holders = λ u. ground (arith, l.filed.holders u);
      ready = λ u h. ground (arith, l.filed.ready u, Live-IsOut l);
      once = λ u. ground (arith, l.filed.once u);
      idle_out = ground (arith, l.filed.idle_out);
      range = λ u h. ground (arith, l.filed.range u);
    };
    core_id = refl;
    idle = refl;
    none_runs = λ u here. ground (arith, l.alone u);
    idle_ready = ground (arith, l.idle_ready other);
    cores = λ u. ground arith;
  },
)

-- What a departure for the reason asks of the thread: a park is of a prepared thread other than the
-- idle one, and an exit never comes this way.
abbrev pub Leaves : DepartureReason → ℕ → Core → Type 0
Leaves DepartureReason.yielded t c = Unit {0}
Leaves DepartureReason.preempted t c = Unit {0}
Leaves DepartureReason.parked t c = (is_prepared (tcb_of c t).disposition ≡ true) × (c.idle ≢ t)
Leaves DepartureReason.exited t c = true ≡ false

depart-Departed :
    (reason : DepartureReason) (t : ℕ) (c : Core)
    → Live t c
    → Leaves reason t c
    → (d : Core) × (depart reason t c ≡ some d) × Departed c d
unfolding depart
depart-Departed DepartureReason.yielded t c l h = admit-Departed false t c l
depart-Departed DepartureReason.preempted t c l h = admit-Departed true t c l
depart-Departed DepartureReason.parked t c l h = set_thread_blocked-Departed t c l h.0 h.1
depart-Departed DepartureReason.exited t c l h = cc h

picked_pin :
    (d : Core) (n : ℕ)
    → Filed d
    → (tcb_of d d.idle).pinned_core ≡ d.core_id
    → (Nobody d × (n ≡ d.idle)) ⊎ IsBest d n
    → (tcb_of d n).pinned_core ≡ d.core_id
picked_pin d n f pin (inl (nobody, e)) = rw e pin
picked_pin d n f pin (inr best) = (f.ready n best.ready).1

run_next-Live :
    (c d : Core)
    → (tcb_of c c.idle).pinned_core ≡ c.core_id
    → Departed c d
    → (r : ℕ × Core) × (run_next d ≡ some r) × Live r.0 r.1
run_next-Live c d pin p = (
  ran.0,
  ran.1,
  record {
    filed = ran.2.filed;
    current = ran.2.current;
    running = ran.2.running;
    pin =
        ran.2.cores ran.0.0
        ∙ picked_pin d ran.0.0 p.filed idle_pin ran.2.chosen
        ∙ sym ran.2.core_id;
    alone = λ u h here.
        ap is_running (ran.2.others u h)
        ∙ p.none_runs u (sym (ran.2.cores u) ∙ here ∙ ran.2.core_id);
    idle_pin = rw (ran.2.idle, ran.2.core_id) (ran.2.cores d.idle ∙ idle_pin);
    idle_ready = λ h. ap is_ready (ran.2.others ran.0.1.idle h) ∙ rw ran.2.idle p.idle_ready;
  },
)
  where
    idle_pin : (tcb_of d d.idle).pinned_core ≡ d.core_id
    idle_pin = rw (p.idle, p.core_id) (p.cores c.idle ∙ pin)

    ran : (r : ℕ × Core) × (run_next d ≡ some r) × Runs d r.0 r.1
    ran = run_next-Runs d p.filed p.idle_ready idle_pin

drain_none :
    (xs : List ℕ) (c : Core)
    → xs ≡ []
    → drain_each (reverse xs) (record c { intake = [] }) ≡ some (record c { intake = xs })
unfolding drain_each
drain_none [] c e = refl
drain_none (x ∷ xs) c e = cc e

drained : (c : Core) → c.intake ≡ [] → drain_intake c ≡ some c
unfolding drain_intake
drained c e = drain_none c.intake c e

departed_for :
    (reason : DepartureReason) (t : ℕ) (c : Core)
    → Live t c
    → Leaves reason t c
    → (r : ℕ × Core) × (decide_for t reason c ≡ some r) × Live r.0 r.1
unfolding decide_for depart_running
departed_for reason t c l h =
    let gone = depart-Departed reason t c l h in
    let ran = run_next-Live c gone.0 l.idle_pin gone.2 in
    (ran.0, rw (l.running, gone.1) ran.1, ran.2)

decide_from :
    (reason : DepartureReason) (t : ℕ) (c : Core) (r : ℕ × Core)
    → drain_intake c ≡ some c
    → c.current ≡ some t
    → decide_for t reason c ≡ some r
    → decide reason c ≡ some (t, r.0, r.1)
unfolding decide
decide_from reason t c r e now d =
    ap
      (λ (o : Option Core).
        o >>= λ b. b.current >>= λ prev. decide_for prev reason b >>= λ q. some (prev, q.0, q.1))
      e
    ∙ ap (λ (o : Option ℕ). o >>= λ prev. decide_for prev reason c >>= λ q. some (prev, q.0, q.1))
        now
    ∙ ap (λ (o : Option (ℕ × Core)). o >>= λ q. some (t, q.0, q.1)) d

-- Where one thread of the core runs, the ready structures are in order, the idle thread is ready or
-- the one that runs, and no other core has posted a wake, a decision for a yield or a preemption, or for a park of
-- a prepared thread that is not the idle one, goes through with no assert: it names that thread as
-- the one that departs, and the pick is then the one thread of the core that runs, and the ready
-- structures and the idle thread are in order again.
pub decide-Live :
    (reason : DepartureReason) (t : ℕ) (c : Core)
    → Live t c
    → c.intake ≡ []
    → Leaves reason t c
    → (r : ℕ × Core) × (decide reason c ≡ some (t, r.0, r.1)) × Live r.0 r.1
decide-Live reason t c l e h =
    let (r, d, k) = departed_for reason t c l h in
    (r, decide_from reason t c r (drained c e) l.current d, k)
