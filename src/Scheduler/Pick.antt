-- ===== src/Scheduler/Pick.antt =====
-- What the two sides of a pick give: the fold over the holders, and a pop of the matrix.
use cyros.Common.{
  ℕ, ◌+◌, ◌<◌, ◌≤◌, ◌≡◌, ◌⊎◌, inl, inr, refl, ap, true, false, ◌||◌, Option, none, some, List, [],
  ◌∷◌, arith, ◌==◌, ltb, if◌then◌else◌, count, Bool-cases,
}
use cyros.Kernel.Store.{Store}
use cyros.Kernel.Urgency.{urgency}
use cyros.Scheduler.Matrix.{Matrix, shrink, pop_best}
use cyros.Scheduler.Matrix.Laws.{shrink-Marked, Popped, nothing, best, pop_best-Popped}
use cyros.Scheduler.Core.{Core, tcb_of, take_popped, pop_best_thread, set_enqueued}
use cyros.Scheduler.Picking.{best_holder}
use cyros.Scheduler.Filing.{Filed, IsOut}

-- What the fold over the holders finds: the best urgency, and a holder that has it unless it is the
-- one given.
pub record Best (s : Store) (b : Option ℕ) (u : ℕ) (hs : List ℕ) (r : Option ℕ × ℕ) : Type 0 where
  pub lower : r.1 ≤ u
  pub least : (h : ℕ) → 0 < count h hs → r.1 ≤ urgency s h
  pub found : (r ≡ (b, u)) ⊎ ((h : ℕ) × (0 < count h hs) × (r.0 ≡ some h) × (r.1 ≡ urgency s h))

pub best_holder-Best :
    (s : Store) (b : Option ℕ) (u : ℕ) (hs : List ℕ) → Best s b u hs (best_holder s b u hs)
unfolding best_holder count
best_holder-Best s b u [] = record {
  lower = omega arith;
  least = λ h k. elim k [ ];
  found = inl refl;
}
best_holder-Best s b u (h ∷ hs) = elim (Bool-cases (ltb (urgency s h) u)) [
  | inl better ↦
      let ih = best_holder-Best s (some h) (urgency s h) hs in
      rw better (record {
        lower = ground (arith, ih.lower);
        least = λ k p. ground (arith, ih.lower, ih.least k);
        found = elim ih.found [
          | inl e ↦ inr (h, ground arith, ap (λ r. r.0) e, ap (λ r. r.1) e)
          | inr (k, p, e, v) ↦ inr (k, omega arith, e, v)
        ];
      })
  | inr worse ↦
      let ih = best_holder-Best s b u hs in
      rw worse (record {
        lower = ih.lower;
        least = λ k p. ground (arith, ih.lower, ih.least k);
        found = elim ih.found [ inl e ↦ inl e | inr (k, p, e, v) ↦ inr (k, omega arith, e, v) ];
      })
]

-- A pick of `c`: nothing where no thread is ready, else a ready thread as urgent as every holder's
-- urgency and as every other ready thread's base priority; it is in neither structure then, and the
-- others stay filed.
pub record IsBest (c : Core) (t : ℕ) : Type 0 where
  pub ready : ((tcb_of c t).enqueued || (tcb_of c t).listed) ≡ true
  pub over_enqueued :
      (u : ℕ) → (tcb_of c u).enqueued ≡ true → urgency c.store t ≤ (tcb_of c u).base_priority
  pub over_listed : (u : ℕ) → (tcb_of c u).listed ≡ true → urgency c.store t ≤ urgency c.store u

abbrev pub Nobody : Core → Type 0
Nobody c = (u : ℕ) → ((tcb_of c u).enqueued || (tcb_of c u).listed) ≡ false

abbrev pub Chosen : Core → Option ℕ → Core → Type 0
Chosen c none c' = Nobody c
Chosen c (some t) c' = IsBest c t × IsOut c' t

-- No thread's state or core has changed, nor which thread is the idle one.
pub record Kept (c c' : Core) : Type 0 where
  pub core_id : c'.core_id ≡ c.core_id
  pub idle : c'.idle ≡ c.idle
  pub states : (u : ℕ) → (tcb_of c' u).state ≡ (tcb_of c u).state
  pub cores : (u : ℕ) → (tcb_of c' u).pinned_core ≡ (tcb_of c u).pinned_core

take_popped-Kept : (c : Core) (r : Option ℕ × Matrix) → Kept c (take_popped r c).1
unfolding take_popped
take_popped-Kept c (none, m) = record {
  core_id = refl;
  idle = refl;
  states = λ u. refl;
  cores = λ u. refl;
}
take_popped-Kept c (some t, m) = record {
  core_id = refl;
  idle = refl;
  states = λ u. ground arith;
  cores = λ u. ground arith;
}

pub pop_best_thread-Kept : (c : Core) → Kept c (pop_best_thread c).1
unfolding pop_best_thread
pop_best_thread-Kept c = take_popped-Kept c (pop_best c.matrix)

-- What a pop of the matrix takes: the first of the best level.
pub data Pops (c : Core) : Option ℕ × Core → Type 0 where
  idle : ((u : ℕ) → (tcb_of c u).enqueued ≡ false) → {c' : Core} → Filed c' → Pops c (none, c')
  pick :
      (t : ℕ) {c' : Core}
      → (tcb_of c t).enqueued ≡ true
      → ((u : ℕ)
          → (tcb_of c u).enqueued ≡ true
          → (tcb_of c t).base_priority ≤ (tcb_of c u).base_priority)
      → Filed c'
      → IsOut c' t
      → Pops c (some t, c')

module _ {c : Core} (f : Filed c) where
  pub empty_level :
      (u q : ℕ)
      → c.matrix.levels q ≡ []
      → (tcb_of c u).base_priority ≡ q
      → (tcb_of c u).enqueued ≡ false
  unfolding count
  empty_level u q e b = ground (arith, f.levels u q, ap (count u) e)

  module _ (p t : ℕ) (rest : List ℕ) (e : c.matrix.levels p ≡ t ∷ rest) (h : p < 32) where
    pub first_enqueued : ((tcb_of c t).enqueued ≡ true) × ((tcb_of c t).base_priority ≡ p)
    unfolding count
    first_enqueued = ground (arith, f.levels t p, ap (count t) e)

    count-rest : (u : ℕ) → count u rest + (if t == u then 1 else 0) ≡ count u (c.matrix.levels p)
    unfolding count
    count-rest u = rw e (omega arith)

    popped : Core
    popped = record (set_enqueued t false c) { matrix = shrink p rest c.matrix }

    popped-Filed : Filed popped × IsOut popped t
    unfolding popped shrink
    popped-Filed = (
      record {
        small = f.small;
        marked = shrink-Marked p rest h (rw e refl) f.marked;
        levels = λ u q. ground (arith, f.levels u q, count-rest u, first_enqueued);
        holders = λ u. ground (arith, f.holders u);
        ready = λ u k. ground (arith, f.ready u);
        once = λ u. ground (arith, f.once u);
        idle_out = ground (arith, f.idle_out);
        range = λ u k. ground (arith, f.range u);
      },
      (ground arith, ground (arith, f.once t, first_enqueued)),
    )

take_popped-Pops :
    (c : Core) (r : Option ℕ × Matrix) → Filed c → Popped c.matrix r → Pops c (take_popped r c)
unfolding take_popped popped
take_popped-Pops c _ f (nothing empty) =
    idle (λ u. empty_level f u (tcb_of c u).base_priority (empty (tcb_of c u).base_priority) refl) f
take_popped-Pops c _ f (best p t rest h e below) =
    pick t (first_enqueued f p t rest e h).0
      (λ u on. ground (
        arith,
        (first_enqueued f p t rest e h).1,
        empty_level f u (tcb_of c u).base_priority,
        below (tcb_of c u).base_priority,
      ))
      (popped-Filed f p t rest e h).0 (popped-Filed f p t rest e h).1

pub pop_best_thread-Pops : (c : Core) → Filed c → Pops c (pop_best_thread c)
unfolding pop_best_thread
pop_best_thread-Pops c f = take_popped-Pops c (pop_best c.matrix) f (pop_best-Popped f.marked)
