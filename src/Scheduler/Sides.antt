-- ===== src/Scheduler/Sides.antt =====
-- Each side of a pick is one: a pop of the matrix, and a holder taken off its list.
use cyros.Common.{
  ℕ, ◌<◌, ◌≤◌, ◌≡◌, ◌⊎◌, inl, inr, refl, ap, ◌∙◌, true, false, not, Option, none, some, List, [],
  ◌∷◌, arith, ◌==◌, count, is_empty, Bool-cases,
}
use cyros.Common.Bits.{test_bit, test_bit-zero, countr_zero, countr_zero_lem, countr_zero_set}
use cyros.Kernel.Urgency.{urgency}
use cyros.Kernel.Urgency.Inheritance.{urgency-base}
use cyros.Scheduler.Matrix.{best_priority}
use cyros.Scheduler.Core.{Core, tcb_of, drop_holder}
use cyros.Scheduler.Picking.{take_holder}
use cyros.Scheduler.Filing.{Filed, unlink_holder-Filed}
use cyros.Scheduler.Pick.{Kept, Chosen, Pops, idle, pick, first_enqueued}

-- What best_priority says: nothing is enqueued, or `b` is the base priority of an enqueued thread, and
-- none is better.
abbrev pub Top : Core → Option ℕ → Type 0
Top c none = (u : ℕ) → (tcb_of c u).enqueued ≡ false
Top c (some b) =
    ((w : ℕ) × ((tcb_of c w).enqueued ≡ true) × ((tcb_of c w).base_priority ≡ b))
    × ((u : ℕ) → (tcb_of c u).enqueued ≡ true → b ≤ (tcb_of c u).base_priority)

-- The level of an enqueued thread holds something.
enqueued_level :
    {c : Core} (f : Filed c) (u : ℕ)
    → (tcb_of c u).enqueued ≡ true
    → test_bit (tcb_of c u).base_priority c.matrix.bitmap ≡ true
enqueued_level {c} f u on =
    f.marked.bits b ∙ nonempty (c.matrix.levels b) (ground (arith, f.levels u b))
  where
    b : ℕ
    b = (tcb_of c u).base_priority

    nonempty : (xs : List ℕ) → count u xs ≡ 1 → not (is_empty xs) ≡ true
    nonempty [] h = unfold count in cc
    nonempty (x ∷ xs) h = refl

pub best_priority-Top : (c : Core) → Filed c → Top c (best_priority c.matrix)
unfolding best_priority
best_priority-Top c f = elim (Bool-cases (c.matrix.bitmap == 0)) [
  | inl zero_word ↦ rw zero_word (λ u. unmarked u (ground arith))
  | inr set_word ↦
      let low = countr_zero_set 32 c.matrix.bitmap f.marked.word (ground arith) in
      rw set_word (
        at_level (c.matrix.levels (countr_zero 32 c.matrix.bitmap)) refl
            (ground (arith, low, f.marked.bits (countr_zero 32 c.matrix.bitmap))) low.1,
        λ u on. lowest u on low.1,
      )
]
  where
    unmarked : (u : ℕ) → c.matrix.bitmap ≡ 0 → (tcb_of c u).enqueued ≡ false
    unmarked u e = ground (
      arith,
      enqueued_level f u,
      test_bit-zero (tcb_of c u).base_priority,
      ap (test_bit (tcb_of c u).base_priority) e,
    )

    at_level :
        (xs : List ℕ)
        → c.matrix.levels (countr_zero 32 c.matrix.bitmap) ≡ xs
        → is_empty xs ≡ false
        → countr_zero 32 c.matrix.bitmap < 32
        → (w : ℕ) × ((tcb_of c w).enqueued ≡ true)
          × ((tcb_of c w).base_priority ≡ countr_zero 32 c.matrix.bitmap)
    at_level [] e h inside = cc
    at_level (w ∷ xs) e h inside =
        let first = first_enqueued f (countr_zero 32 c.matrix.bitmap) w xs e inside in
        (w, first.0, first.1)

    lowest :
        (u : ℕ)
        → (tcb_of c u).enqueued ≡ true
        → countr_zero 32 c.matrix.bitmap < 32
        → countr_zero 32 c.matrix.bitmap ≤ (tcb_of c u).base_priority
    lowest u on w =
        (countr_zero_lem 32 c.matrix.bitmap (tcb_of c u).base_priority
          (omega (arith, f.range u (f.ready u (ground arith)).1, f.small))
          (enqueued_level f u on)).1

-- A pop of the matrix is a pick, where the best level is as urgent as every holder or more.
pub Pops-Chosen :
    (c : Core) (r : Option ℕ × Core)
    → Pops c r
    → ((w : ℕ) × ((tcb_of c w).enqueued ≡ true)
        × ((h : ℕ) → (tcb_of c h).listed ≡ true → (tcb_of c w).base_priority ≤ urgency c.store h))
      ⊎ ((h : ℕ) → (tcb_of c h).listed ≡ false)
    → Chosen c r.0 r.1 × Filed r.1
Pops-Chosen c _ (idle empty f) (inl (w, on, over)) = cc (empty w)
Pops-Chosen c _ (idle empty f) (inr off) = ((λ u. ground (arith, empty u, off u)), f)
Pops-Chosen c _ (pick t on le f out) why = (
  (
    record {
      ready = rw on refl;
      over_enqueued = λ u k. omega (arith, le u k, (urgency-base c.store t).0);
      over_listed = λ u k. over u k why;
    },
    out,
  ),
  f,
)
  where
    over :
        (u : ℕ)
        → (tcb_of c u).listed ≡ true
        → ((w : ℕ) × ((tcb_of c w).enqueued ≡ true)
            × ((h : ℕ)
                → (tcb_of c h).listed ≡ true
                → (tcb_of c w).base_priority ≤ urgency c.store h))
          ⊎ ((h : ℕ) → (tcb_of c h).listed ≡ false)
        → urgency c.store t ≤ urgency c.store u
    over u k (inl (w, on', least)) = omega (arith, le w on', least u k, (urgency-base c.store t).0)
    over u k (inr off) = cc (off u)

drop_holder-Kept : (c : Core) (h : ℕ) → Kept c (drop_holder h c)
unfolding drop_holder
drop_holder-Kept c h = record {
  core_id = refl;
  idle = refl;
  states = λ u. ground arith;
  cores = λ u. ground arith;
}

-- Taking a holder is a pick, where it is as urgent as every other and as the best level.
pub take_holder-Chosen :
    (c : Core) (h : ℕ)
    → Filed c
    → (tcb_of c h).listed ≡ true
    → ((u : ℕ) → (tcb_of c u).listed ≡ true → urgency c.store h ≤ urgency c.store u)
    → ((u : ℕ) → (tcb_of c u).enqueued ≡ true → urgency c.store h ≤ (tcb_of c u).base_priority)
    → (r : Option ℕ × Core) × (take_holder h c ≡ some r) × Chosen c r.0 r.1 × Filed r.1 × Kept c r.1
unfolding take_holder
take_holder-Chosen c h f on over_listed over_enqueued = (
  (some h, drop_holder h c),
  rw (unlink_holder-Filed f h on).0 refl,
  (
    record { ready = ground arith; over_enqueued = over_enqueued; over_listed = over_listed },
    (unlink_holder-Filed f h on).2,
  ),
  (unlink_holder-Filed f h on).1,
  drop_holder-Kept c h,
)

pub listed_of_count :
    {c : Core} (f : Filed c) (h : ℕ) → 0 < count h c.holders → (tcb_of c h).listed ≡ true
listed_of_count f h k = ground (arith, f.holders h)

pub count_of_listed :
    {c : Core} (f : Filed c) (h : ℕ) → (tcb_of c h).listed ≡ true → 0 < count h c.holders
count_of_listed f h on = ground (arith, f.holders h)
