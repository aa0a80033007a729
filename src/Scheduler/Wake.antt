-- ===== src/Scheduler/Wake.antt =====
-- make_ready: every wake of a thread of this core goes through, and keeps the structures in order.
use cyros.Common.{
  ℕ, ◌≡◌, ◌≢◌, refl, ap, ◌∙◌, true, false, not, ◌&&◌, ◌||◌, Option, some, List, [], ◌∷◌, arith,
  count, count-erase, is_empty, Bool-cases, inl, inr,
}
use cyros.Kernel.Thread.{is_ready, holds_nothing}
use cyros.Scheduler.Matrix.{shrink, unfile}
use cyros.Scheduler.Matrix.Laws.{shrink-Marked}
use cyros.Scheduler.Core.{
  Core, tcb_of, admit, append_holder, remove_thread, refile, reroute, make_ready, hint_for,
  is_finished, ScheduleHint, unfiled,
}
use cyros.Scheduler.Filing.{Filed, IsOut, link_holder-Filed}
use cyros.Scheduler.Departure.{Admitted, admit-Admitted}

module _ {c : Core} (f : Filed c) (t : ℕ) (on : (tcb_of c t).enqueued ≡ true) where
  here_once : count t (c.matrix.levels (tcb_of c t).base_priority) ≡ 1
  here_once = ground (arith, f.levels t (tcb_of c t).base_priority)

  pinned_here : (tcb_of c t).pinned_core ≡ c.core_id
  pinned_here = (f.ready t (rw on refl)).1

  not_empty : (xs : List ℕ) → count t xs ≡ 1 → is_empty xs ≡ false
  unfolding count
  not_empty [] h = absurd (omega arith)
  not_empty (x ∷ xs) h = refl

  -- Taking an enqueued thread out of its level.
  unfiled-Filed : Filed (unfiled t c) × IsOut (unfiled t c) t
  unfolding unfiled unfile shrink
  unfiled-Filed = (
    record {
      small = f.small;
      marked =
          shrink-Marked (tcb_of c t).base_priority _ (omega (arith, f.range t pinned_here, f.small))
            (not_empty _ here_once) f.marked;
      levels = λ u p. ground (
        arith,
        f.levels u p,
        here_once,
        count-erase t u (c.matrix.levels (tcb_of c t).base_priority),
      );
      holders = λ u. ground (arith, f.holders u);
      ready = λ u k. ground (arith, f.ready u);
      once = λ u. ground (arith, f.once u);
      idle_out = ground (arith, f.idle_out);
      range = λ u k. ground (arith, f.range u);
    },
    (ground arith, ground (arith, f.once t)),
  )

  remove_thread-Filed : remove_thread t c ≡ some (unfiled t c)
  unfolding remove_thread
  remove_thread-Filed = ground (arith, here_once, f.range t pinned_here)

  refile-Filed :
      (r : ScheduleHint × Core) × (refile t c ≡ some r) × Filed r.1 × ((tcb_of r.1 t).listed ≡ true)
  unfolding refile
  refile-Filed =
      let linked =
        link_holder-Filed unfiled-Filed.0 t unfiled-Filed.1
          (unfold unfiled in ground (arith, f.ready t))
          (unfold unfiled in ground (arith, pinned_here))
          (unfold unfiled in ground (arith, f.idle_out)) in
      (
        (hint_for t (append_holder t (unfiled t c)), append_holder t (unfiled t c)),
        rw (remove_thread-Filed, linked.0) refl,
        linked.1,
        unfold append_holder in ground arith,
      )

-- What a wake of `t` leaves.
pub record Woken (t : ℕ) (c c' : Core) : Type 0 where
  pub filed : Filed c'
  pub finished : is_finished (tcb_of c t) ≡ true → c' ≡ c
  pub ready : is_finished (tcb_of c t) ≡ false → is_ready (tcb_of c' t).state ≡ true
  pub routed :
      is_finished (tcb_of c t) ≡ false
      → t ≢ c.idle
      → holds_nothing (tcb_of c t) ≡ false
      → (tcb_of c' t).listed ≡ true

abbrev Wakes : ℕ → Core → Option (ScheduleHint × Core) → Type 0
Wakes t c o = (r : ScheduleHint × Core) × (o ≡ some r) × Woken t c r.1

reroute-Woken :
    (c : Core) (t : ℕ)
    → Filed c
    → ((tcb_of c t).enqueued || (tcb_of c t).listed) ≡ true
    → is_finished (tcb_of c t) ≡ false
    → Wakes t c (reroute t c)
unfolding reroute
reroute-Woken c t f on alive =
    elim (Bool-cases ((tcb_of c t).enqueued && not (holds_nothing (tcb_of c t)))) [
      | inl move ↦
          let moved = refile-Filed f t (ground arith) in
          (
            moved.0,
            rw ((f.ready t on).0, move) moved.1,
            record {
              filed = moved.2;
              finished = λ e. ground arith;
              ready = λ e. (moved.2.ready t (ground (arith, moved.3))).0;
              routed = λ e other held. moved.3;
            },
          )
      | inr stay ↦ (
        (ScheduleHint.unwarranted, c),
        rw ((f.ready t on).0, stay) refl,
        record {
          filed = f;
          finished = λ e. refl;
          ready = λ e. (f.ready t on).0;
          routed = λ e other held. ground arith;
        },
      )
    ]

place_holder :
    {c c' : Core} (t : ℕ)
    → Admitted false t c c'
    → t ≢ c.idle
    → holds_nothing (tcb_of c t) ≡ false
    → (tcb_of c' t).listed ≡ true
unfolding append_holder
place_holder {c} {c'} t a other held =
    ap (λ (d : Core). (tcb_of d t).listed) (a.place) ∙ ground arith

admit-Woken :
    (c : Core) (t : ℕ)
    → Filed c
    → IsOut c t
    → (tcb_of c t).pinned_core ≡ c.core_id
    → is_finished (tcb_of c t) ≡ false
    → (c' : Core) × (admit false t c ≡ some c') × Woken t c c'
admit-Woken c t f out pin alive =
    let (c', e, a) = admit-Admitted false t c f out pin in
    (
      c',
      e,
      record {
        filed = a.filed;
        finished = λ e. ground arith;
        ready = λ e. a.ready;
        routed = λ e other held. place_holder t a other held;
      },
    )

-- A wake of a thread pinned to a core whose structures are in order goes through with no assert and
-- keeps them in order. It changes nothing for a thread that has terminated or is terminating. Any
-- other thread is ready afterwards, and, unless it is the idle thread, it is on the holder list if
-- it holds a mutex, also where it had been filed in the matrix before the mutex was handed to it.
pub make_ready-Woken :
    (c : Core) (t : ℕ)
    → Filed c
    → (tcb_of c t).pinned_core ≡ c.core_id
    → (r : ScheduleHint × Core) × (make_ready t c ≡ some r) × Woken t c r.1
unfolding make_ready
make_ready-Woken c t f pin = elim (Bool-cases (is_finished (tcb_of c t))) [
  | inl over ↦ (
    (ScheduleHint.unwarranted, c),
    rw over refl,
    record {
      filed = f;
      finished = λ e. refl;
      ready = λ e. ground arith;
      routed = λ e other held. ground arith;
    },
  )
  | inr alive ↦ elim (Bool-cases ((tcb_of c t).enqueued || (tcb_of c t).listed)) [
    | inl on ↦ rw (alive, on) (reroute-Woken c t f on alive)
    | inr off ↦
        let (c', e, w) = admit-Woken c t f (ground arith, ground arith) pin alive in
        ((hint_for t c', c'), rw (alive, off, e) refl, w)
  ]
]
