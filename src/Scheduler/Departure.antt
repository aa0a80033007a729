-- ===== src/Scheduler/Departure.antt =====
-- admit (src/kernel/scheduler.hpp), on a core whose ready structures are in order.
use cyros.Common.{
  ℕ, ◌≡◌, ◌≢◌, refl, [], ◌∷◌, ◌++◌, ◌∙◌, Bool, true, false, some, arith, ◌==◌, if◌then◌else◌,
  Bool-cases, inl, inr,
}
use cyros.Kernel.Thread.{ThreadState, is_ready, holds_nothing}
use cyros.Scheduler.Core.{
  Core, tcb_of, set_state, admit, file_ready, file_in, append_holder, enqueue, link_holder,
}
use cyros.Scheduler.Matrix.{file_front, file_back}
use cyros.Scheduler.Filing.{Filed, IsOut, enqueue-Filed, link_holder-Filed}

-- The state of a thread in neither structure may change.
pub set_state-Filed :
    {c : Core} (t : ℕ) (st : ThreadState) → Filed c → IsOut c t → Filed (set_state t st c)
set_state-Filed {c} t st f (oe, ol) = record {
  small = f.small;
  marked = f.marked;
  levels = λ u p. ground (arith, f.levels u p);
  holders = λ u. ground (arith, f.holders u);
  ready = λ u h. ground (arith, f.ready u);
  once = λ u. ground (arith, f.once u);
  idle_out = ground (arith, f.idle_out);
  range = λ u h. ground (arith, f.range u);
}

-- Where the thread is: nowhere, in the level of its base priority, or in the holder list.
pub record Placed (at_front : Bool) (t : ℕ) (c c' : Core) : Type 0 where
  pub nowhere :
      t ≡ c.idle → ((p : ℕ) → c'.matrix.levels p ≡ c.matrix.levels p) × (c'.holders ≡ c.holders)
  pub level :
      t ≢ c.idle
      → holds_nothing (tcb_of c t) ≡ true
      → (c'.matrix.levels (tcb_of c t).base_priority ≡ (
          if at_front
          then t ∷ c.matrix.levels (tcb_of c t).base_priority
          else c.matrix.levels (tcb_of c t).base_priority ++ t ∷ []))
        × ((p : ℕ) → p ≢ (tcb_of c t).base_priority → c'.matrix.levels p ≡ c.matrix.levels p)
        × (c'.holders ≡ c.holders)
  pub listed :
      t ≢ c.idle
      → holds_nothing (tcb_of c t) ≡ false
      → (c'.holders ≡ c.holders ++ t ∷ []) × ((p : ℕ) → c'.matrix.levels p ≡ c.matrix.levels p)

file_in-Placed :
    (at_front : Bool) (t : ℕ) (c : Core)
    → (t == c.idle) ≡ false
    → holds_nothing (tcb_of c t) ≡ true
    → Placed at_front t c (file_in at_front t (set_state t ThreadState.ready c))
unfolding file_in file_front file_back
file_in-Placed true t c other free = record {
  nowhere = λ e. absurd (ground arith);
  level = λ n h. (ground arith, λ p d. ground arith, refl);
  listed = λ n h. cc;
}
file_in-Placed false t c other free = record {
  nowhere = λ e. absurd (ground arith);
  level = λ n h. (ground arith, λ p d. ground arith, refl);
  listed = λ n h. cc;
}

append_holder-Placed :
    (at_front : Bool) (t : ℕ) (c : Core)
    → (t == c.idle) ≡ false
    → holds_nothing (tcb_of c t) ≡ false
    → Placed at_front t c (append_holder t (set_state t ThreadState.ready c))
unfolding append_holder
append_holder-Placed at_front t c other held = record {
  nowhere = λ e. absurd (ground arith);
  level = λ n h. cc;
  listed = λ n h. (refl, λ p. refl);
}

-- What an admission leaves: the thread ready, and filed by what it holds, unless it is the idle thread,
-- which is filed nowhere.
pub record Admitted (at_front : Bool) (t : ℕ) (c c' : Core) : Type 0 where
  pub filed : Filed c'
  pub ready : is_ready (tcb_of c' t).state ≡ true
  pub placed : Placed at_front t c c'
  pub place : c' ≡ (
      if t == c.idle
      then set_state t ThreadState.ready c
      else if holds_nothing (tcb_of c t)
      then file_in at_front t (set_state t ThreadState.ready c)
      else append_holder t (set_state t ThreadState.ready c))

-- Admitting a thread of this core that is in neither structure goes through with no assert. It is
-- ready then; the idle thread is filed nowhere, a thread that holds no mutex in the level of its base
-- priority, at the front or the back as asked, and a holder at the end of the holder list.
pub admit-Admitted :
    (at_front : Bool) (t : ℕ) (c : Core)
    → Filed c
    → IsOut c t
    → (tcb_of c t).pinned_core ≡ c.core_id
    → (c' : Core) × (admit at_front t c ≡ some c') × Admitted at_front t c c'
unfolding admit
admit-Admitted at_front t c f out pin = elim (Bool-cases (t == c.idle)) [
  | inl idle ↦ (
    readied,
    rw idle refl,
    record {
      filed = base;
      ready = ground arith;
      placed = record {
        nowhere = λ e. (λ p. refl, refl);
        level = λ n h. absurd (ground (arith, n));
        listed = λ n h. absurd (ground (arith, n));
      };
      place = rw idle refl;
    },
  )
  | inr other ↦ elim (Bool-cases (holds_nothing (tcb_of c t))) [
    | inl free ↦
        let filed =
          enqueue-Filed base t at_front (ground arith, ground arith) (ground arith) (ground arith)
            (ground arith) in
        (
          file_in at_front t readied,
          rw other (unheld free filed.0),
          record {
            filed = filed.1;
            ready = unfold file_in in ground arith;
            placed = file_in-Placed at_front t c other free;
            place = rw (other, free) refl;
          },
        )
    | inr holder ↦
        let filed =
          link_holder-Filed base t (ground arith, ground arith) (ground arith) (ground arith)
            (ground arith) in
        (
          append_holder t readied,
          rw other (held holder filed.0),
          record {
            filed = filed.1;
            ready = unfold append_holder in ground arith;
            placed = append_holder-Placed at_front t c other holder;
            place = rw (other, holder) refl;
          },
        )
  ]
]
  where
    readied : Core
    readied = set_state t ThreadState.ready c

    base : Filed readied
    base = set_state-Filed t ThreadState.ready f out

    same : holds_nothing (tcb_of readied t) ≡ holds_nothing (tcb_of c t)
    same = ground arith

    unheld :
        holds_nothing (tcb_of c t) ≡ true
        → enqueue at_front t readied ≡ some (file_in at_front t readied)
        → file_ready at_front t readied ≡ some (file_in at_front t readied)
    unheld free e = unfold file_ready in rw (same ∙ free) e

    held :
        holds_nothing (tcb_of c t) ≡ false
        → link_holder t readied ≡ some (append_holder t readied)
        → file_ready at_front t readied ≡ some (append_holder t readied)
    held holder e = unfold file_ready in rw (same ∙ holder) e
