-- ===== src/Scheduler/Filing.antt =====
-- The invariant of a core's ready structures, and that filing and taking out threads preserve it.
use cyros.Common.{
  ℕ, ◌+◌, ◌<◌, ◌≤◌, ◌≡◌, ◌≢◌, ◌∙◌, Bool, true, false, ◌&&◌, ◌||◌, some, [], ◌∷◌, arith, ◌==◌,
  if◌then◌else◌, count, count-append, count-erase,
}
use cyros.Kernel.Thread.{is_ready}
use cyros.Scheduler.Matrix.{file_back, file_front}
use cyros.Scheduler.Matrix.Laws.{Marked, file_back-Marked, file_front-Marked}
use cyros.Scheduler.Core.{
  Core, tcb_of, file_in, enqueue, append_holder, drop_holder, link_holder, unlink_holder,
}

-- An enqueued thread stands once in the level of its base priority and nowhere else, a listed holder
-- once in the holder list; both are ready and pinned here, no thread is both, the idle thread is
-- neither, and the bitmap is true of the levels.
pub record Filed (c : Core) : Type 0 where
  pub small : c.max_priorities ≤ 32
  pub marked : Marked c.matrix
  pub levels :
      (t p : ℕ)
      → count t (c.matrix.levels p)
        ≡ (if (tcb_of c t).enqueued && (tcb_of c t).base_priority == p then 1 else 0)
  pub holders : (t : ℕ) → count t c.holders ≡ (if (tcb_of c t).listed then 1 else 0)
  pub ready :
      (t : ℕ)
      → ((tcb_of c t).enqueued || (tcb_of c t).listed) ≡ true
      → (is_ready (tcb_of c t).state ≡ true) × ((tcb_of c t).pinned_core ≡ c.core_id)
  pub once : (t : ℕ) → ((tcb_of c t).enqueued && (tcb_of c t).listed) ≡ false
  pub idle_out : ((tcb_of c c.idle).enqueued || (tcb_of c c.idle).listed) ≡ false
  pub range :
      (t : ℕ) → (tcb_of c t).pinned_core ≡ c.core_id → (tcb_of c t).base_priority < c.max_priorities

-- A thread that is in neither structure.
abbrev pub IsOut : Core → ℕ → Type 0
IsOut c t = ((tcb_of c t).enqueued ≡ false) × ((tcb_of c t).listed ≡ false)

module _ {c : Core} (f : Filed c) (t : ℕ) where
  file_in-Marked :
      (at_front : Bool)
      → (tcb_of c t).pinned_core ≡ c.core_id
      → Marked (file_in at_front t c).matrix
  unfolding file_in
  file_in-Marked true pin =
      file_front-Marked (tcb_of c t).base_priority t (omega (arith, f.range t pin, f.small))
        f.marked
  file_in-Marked false pin =
      file_back-Marked (tcb_of c t).base_priority t (omega (arith, f.range t pin, f.small)) f.marked

  file_in-count :
      (at_front : Bool) (u p : ℕ)
      → count u ((file_in at_front t c).matrix.levels p)
        ≡ count u (c.matrix.levels p)
          + (if (tcb_of c t).base_priority == p then if u == t then 1 else 0 else 0)
  unfolding file_in file_back file_front count
  file_in-count true u p = ground arith
  file_in-count false u p =
      ground (arith, count-append u (c.matrix.levels (tcb_of c t).base_priority) (t ∷ []))

  file_in-Filed :
      (at_front : Bool)
      → IsOut c t
      → is_ready (tcb_of c t).state ≡ true
      → (tcb_of c t).pinned_core ≡ c.core_id
      → t ≢ c.idle
      → Filed (file_in at_front t c)
  unfolding file_in
  file_in-Filed at_front (oe, ol) r pin other = record {
    small = f.small;
    marked = file_in-Marked at_front pin;
    levels = λ u p. file_in-count at_front u p ∙ ground (arith, f.levels u p);
    holders = λ u. ground (arith, f.holders u);
    ready = λ u h. ground (arith, f.ready u);
    once = λ u. ground (arith, f.once u);
    idle_out = ground (arith, f.idle_out);
    range = λ u h. ground (arith, f.range u);
  }

  -- Filing a ready thread of this core that is in neither structure, at either end of its level.
  pub enqueue-Filed :
      (at_front : Bool)
      → IsOut c t
      → is_ready (tcb_of c t).state ≡ true
      → (tcb_of c t).pinned_core ≡ c.core_id
      → t ≢ c.idle
      → (enqueue at_front t c ≡ some (file_in at_front t c)) × Filed (file_in at_front t c)
  unfolding enqueue
  enqueue-Filed at_front (oe, ol) r pin other =
      (ground (arith, f.range t pin), file_in-Filed at_front (oe, ol) r pin other)

  append_holder-Filed :
      IsOut c t
      → is_ready (tcb_of c t).state ≡ true
      → (tcb_of c t).pinned_core ≡ c.core_id
      → t ≢ c.idle
      → Filed (append_holder t c)
  unfolding append_holder count
  append_holder-Filed (oe, ol) r pin other = record {
    small = f.small;
    marked = f.marked;
    levels = λ u p. ground (arith, f.levels u p);
    holders = λ u. count-append u c.holders (t ∷ []) ∙ ground (arith, f.holders u);
    ready = λ u h. ground (arith, f.ready u);
    once = λ u. ground (arith, f.once u);
    idle_out = ground (arith, f.idle_out);
    range = λ u h. ground (arith, f.range u);
  }

  pub link_holder-Filed :
      IsOut c t
      → is_ready (tcb_of c t).state ≡ true
      → (tcb_of c t).pinned_core ≡ c.core_id
      → t ≢ c.idle
      → (link_holder t c ≡ some (append_holder t c)) × Filed (append_holder t c)
  unfolding link_holder
  link_holder-Filed (oe, ol) r pin other = (ground arith, append_holder-Filed (oe, ol) r pin other)

  -- Taking a listed holder off goes through, and leaves it in neither structure.
  drop_holder-Filed :
      (tcb_of c t).listed ≡ true → Filed (drop_holder t c) × IsOut (drop_holder t c) t
  unfolding drop_holder
  drop_holder-Filed on = (
    record {
      small = f.small;
      marked = f.marked;
      levels = λ u p. ground (arith, f.levels u p);
      holders = λ u. ground (arith, f.holders u, f.holders t, count-erase t u c.holders);
      ready = λ u h. ground (arith, f.ready u);
      once = λ u. ground (arith, f.once u);
      idle_out = ground (arith, f.idle_out);
      range = λ u h. ground (arith, f.range u);
    },
    (ground (arith, f.once t), ground arith),
  )

  pub unlink_holder-Filed :
      (tcb_of c t).listed ≡ true
      → (unlink_holder t c ≡ some (drop_holder t c))
        × Filed (drop_holder t c)
        × IsOut (drop_holder t c) t
  unfolding unlink_holder
  unlink_holder-Filed on =
      (ground (arith, f.holders t, f.ready t), (drop_holder-Filed on).0, (drop_holder-Filed on).1)
