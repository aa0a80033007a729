-- ===== src/Scheduler/Running.antt =====
-- run_next (src/kernel/scheduler.hpp): the pick becomes the running thread.
use cyros.Common.{ℕ, ◌≡◌, ◌≢◌, ◌⊎◌, inl, inr, refl, ap, ◌∙◌, sym, true, Option, none, some, arith}
use cyros.Kernel.Thread.{ThreadState, is_ready, is_running}
use cyros.Scheduler.Core.{Core, tcb_of, set_state, set_thread_running}
use cyros.Scheduler.Picking.{pick_next}
use cyros.Scheduler.Switch.{run_next, or_idle}
use cyros.Scheduler.Filing.{Filed, IsOut}
use cyros.Scheduler.Pick.{Chosen, IsBest, Nobody, Kept}
use cyros.Scheduler.Choice.{pick_next-Chosen}
use cyros.Scheduler.Departure.{set_state-Filed}

-- What run_next leaves: the thread that runs, and the core.
pub record Runs (c : Core) (next : ℕ) (c' : Core) : Type 0 where
  pub chosen : (Nobody c × (next ≡ c.idle)) ⊎ IsBest c next
  pub current : c'.current ≡ some next
  pub running : is_running (tcb_of c' next).state ≡ true
  pub others : (u : ℕ) → u ≢ next → (tcb_of c' u).state ≡ (tcb_of c u).state
  pub filed : Filed c'
  pub out : IsOut c' next
  pub core_id : c'.core_id ≡ c.core_id
  pub idle : c'.idle ≡ c.idle
  pub cores : (u : ℕ) → (tcb_of c' u).pinned_core ≡ (tcb_of c u).pinned_core

abbrev made_running : ℕ → Core → Core
made_running t c = record (set_state t ThreadState.running c) { current = some t }

module _ (c : Core) (t : ℕ) (f : Filed c) (out : IsOut c t)
    (pin : (tcb_of c t).pinned_core ≡ c.core_id) (ready : is_ready (tcb_of c t).state ≡ true) where
  set_thread_running_ready : set_thread_running t c ≡ some (made_running t c)
  unfolding set_thread_running
  set_thread_running_ready = ground arith

  made_running-Filed : Filed (made_running t c)
  made_running-Filed =
      let g = set_state-Filed t ThreadState.running f out in
      record {
        small = g.small;
        marked = g.marked;
        levels = g.levels;
        holders = g.holders;
        ready = g.ready;
        once = g.once;
        idle_out = g.idle_out;
        range = g.range;
      }

-- On a core whose ready structures are in order and whose idle thread is ready and pinned to it,
-- run_next goes through with no assert and runs the idle thread where no thread is ready, else a
-- ready thread that is as urgent, by the inheritance fold, as every listed holder and as the base
-- priority of every enqueued thread; that thread is the core's current thread, running and in
-- neither ready structure, no other thread's state changes, and the structures stay in order.
pub run_next-Runs :
    (c : Core)
    → Filed c
    → is_ready (tcb_of c c.idle).state ≡ true
    → (tcb_of c c.idle).pinned_core ≡ c.core_id
    → (r : ℕ × Core) × (run_next c ≡ some r) × Runs c r.0 r.1
unfolding run_next or_idle
run_next-Runs c f idle_ready idle_pin = from (pick_next-Chosen c f)
  where
    from :
        (r : Option ℕ × Core) × (pick_next c ≡ some r) × Chosen c r.0 r.1 × Filed r.1 × Kept c r.1
        → (r : ℕ × Core) × (run_next c ≡ some r) × Runs c r.0 r.1
    from ((none, c'), e, nobody, g, kept) =
        let out : IsOut c' c'.idle = (ground (arith, g.idle_out), ground (arith, g.idle_out)) in
        let pin : (tcb_of c' c'.idle).pinned_core ≡ c'.core_id =
          rw (kept.idle, kept.core_id) (kept.cores c.idle ∙ idle_pin) in
        let ready : is_ready (tcb_of c' c'.idle).state ≡ true =
          rw kept.idle (ap is_ready (kept.states c.idle) ∙ idle_ready) in
        (
          (c'.idle, made_running c'.idle c'),
          rw (e, set_thread_running_ready c' c'.idle g out pin ready) refl,
          record {
            chosen = inl (nobody, kept.idle);
            current = refl;
            running = ground arith;
            others = λ u h. ground (arith, kept.states u);
            filed = made_running-Filed c' c'.idle g out pin ready;
            out = ground (arith, out);
            core_id = kept.core_id;
            idle = kept.idle;
            cores = λ u. ground (arith, kept.cores u);
          },
        )
    from ((some t, c'), e, (best, out), g, kept) =
        let pin : (tcb_of c' t).pinned_core ≡ c'.core_id =
          kept.cores t ∙ (f.ready t best.ready).1 ∙ sym kept.core_id in
        let ready : is_ready (tcb_of c' t).state ≡ true =
          ap is_ready (kept.states t) ∙ (f.ready t best.ready).0 in
        (
          (t, made_running t c'),
          rw (e, set_thread_running_ready c' t g out pin ready) refl,
          record {
            chosen = inr best;
            current = refl;
            running = ground arith;
            others = λ u h. ground (arith, kept.states u);
            filed = made_running-Filed c' t g out pin ready;
            out = ground (arith, out);
            core_id = kept.core_id;
            idle = kept.idle;
            cores = λ u. ground (arith, kept.cores u);
          },
        )
