-- ===== src/Intake/Arrival.antt =====
-- Every request is serviced, once and in order.
use mathlib.Core.List.{reverse-cons}
use cyros.Common.{
  ℕ, ◌≤◌, ◌≡◌, refl, sym, ◌∙◌, ap, false, none, some, List, [], ◌∷◌, ◌++◌, reverse, append-nil,
  arith, count, subst, count-append,
}
use cyros.Intake.{
  Push, Drain, Intake, Step, posts, pushes, rings, answers, switches, drains, take_step, Reaches,
}
use cyros.Intake.Links.{links, is_swapped, LastSwapped, Standing, one_if, Kept}
use cyros.Intake.Pushing.{post_intake-Kept, push_intake-Kept, ring-Kept}
use cyros.Intake.Draining.{drain_intake-Kept, switch-Kept, answer-Kept}

-- An intake that nobody is at: no request, and nothing pushed.
pub record Fresh (s : Intake) : Type 0 where
  pub empty : (s.head ≡ none) × (s.stack ≡ []) × (s.unreversed ≡ []) × (s.fifo ≡ [])
  pub nobody : (t : ℕ) → (s.pending t ≡ false) × (s.push t ≡ Push.idle)
  pub core : s.drain ≡ Drain.resting
  pub no_history : (s.arrived ≡ []) × (s.serviced ≡ [])

take_step-Kept : (step : Step) (s u : Intake) → take_step step s ≡ some u → Kept s → Kept u
unfolding take_step
take_step-Kept (posts t) s u eq k = subst Kept (cc eq) (post_intake-Kept t s k)
take_step-Kept (pushes t) s u eq k = push_intake-Kept t (s.push t) s u refl eq k
take_step-Kept rings s u eq k = ring-Kept s u eq k
take_step-Kept answers s u eq k = answer-Kept s u eq k
take_step-Kept switches s u eq k = switch-Kept s.drain s u refl eq k
take_step-Kept drains s u eq k = drain_intake-Kept s.drain s u refl eq k

Fresh-Kept : (s : Intake) → Fresh s → Kept s
unfolding count
Fresh-Kept s f =
    let (h, st, us, fs) = f.empty in
    let (ar, se) = f.no_history in
    record {
      counted = λ t. ground (arith, st, us, fs, f.nobody t);
      stacked = rw (h, st) refl;
      standing = rw (f.core) (us, fs);
      sentinel = λ t. rw ((f.nobody t).1) tt;
      unpublished = λ t e. absurd (ground (arith, f.nobody t));
      order = rw (ar, se, us, fs, st) refl;
      bell = λ a b. rw st tt;
    }

reached-Kept : {s u : Intake} → Fresh s → Reaches s u → Kept u
reached-Kept {s} f Reaches.here = Fresh-Kept s f
reached-Kept f (Reaches.next {u} {v} step r eq) = take_step-Kept step u v eq (reached-Kept f r)

count-reverse : (t : ℕ) (xs : List ℕ) → count t (reverse xs) ≡ count t xs
unfolding count
count-reverse t [] = refl
count-reverse t (x ∷ xs) =
    ap (count t) (reverse-cons x xs)
    ∙ ground (arith, count-append t (reverse xs) (x ∷ []), count-reverse t xs)

no_stack :
    (push : ℕ → Push) (xs : List ℕ) → ((t : ℕ) → push t ≡ Push.idle) → LastSwapped push xs → xs ≡ []
no_stack push [] rest c = refl
no_stack push (x ∷ []) rest c = cc (sym c ∙ ap is_swapped (rest x))
no_stack push (x ∷ y ∷ xs) rest c = cc (no_stack push (y ∷ xs) rest c)

-- However posts, pushes, doorbells, switches and the rounds of the drain interleave: the threads
-- serviced so far are those that arrived first, in the order in which they arrived, and a thread is
-- on its way at most once; it is so only while its request is pending.
pub serviced-arrived :
    {s u : Intake}
    → Fresh s
    → Reaches s u
    → (coming : List ℕ) × (u.arrived ≡ u.serviced ++ coming)
      × ((t : ℕ) → count t coming ≤ one_if (u.pending t))
serviced-arrived {s} {u} f r =
    let k = reached-Kept f r in
    (
      reverse u.unreversed ++ (u.fifo ++ reverse u.stack),
      k.order,
      λ t. omega (
        arith,
        k.counted t,
        count-append t (reverse u.unreversed) (u.fifo ++ reverse u.stack),
        count-append t u.fifo (reverse u.stack),
        count-reverse t u.unreversed,
        count-reverse t u.stack,
      ),
    )

-- The core is not in drain_intake, no push is in hand, and no doorbell is owed or rings.
pub record AtRest (s : Intake) : Type 0 where
  pub core : s.drain ≡ Drain.resting
  pub pushed : (t : ℕ) → s.push t ≡ Push.idle
  pub silent : (s.owed ≡ 0) × (s.rung ≡ false)

-- Once nothing is left to run, every thread that arrived has been serviced and no request is pending.
pub rested-serviced :
    {s u : Intake}
    → Fresh s
    → Reaches s u
    → AtRest u
    → (u.arrived ≡ u.serviced) × ((t : ℕ) → u.pending t ≡ false)
unfolding count
rested-serviced {s} {u} f r q =
    let k = reached-Kept f r in
    let (us, fs) =
      subst (λ (d : Drain). Standing (links u) d u.unreversed u.fifo) q.core k.standing in
    let gone = no_stack u.push u.stack q.pushed (k.bell q.silent.0 q.silent.1) in
    (
      k.order ∙ rw (us, fs, gone) (append-nil u.serviced),
      λ t. ground (arith, k.counted t, us, fs, gone, q.pushed t),
    )
