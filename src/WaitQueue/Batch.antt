-- ===== src/WaitQueue/Batch.antt =====
-- wait_queue::wake_all_where (src/kernel/waitable.cpp): the waiters that a test accepts leave the queue,
-- in batches of eight, and are readied. `pick` is the test, which answers the same throughout.
use cyros.Common.{
  ℕ, zero, suc, ◌+◌, ◌≤◌, ◌<◌, ◌≡◌, ◌⊎◌, inl, inr, refl, ap, Bool, Option, none, some, List, [],
  ◌∷◌, ◌++◌, arith, ◌==◌, if◌then◌else◌, length, ◌>>=◌, Bool-cases, append-nil,
}

abbrev pub batch_size : ℕ
batch_size = 8

module _ (pick : ℕ → Bool) where
  -- One walk under the lock: those it takes, while there is room, and those it leaves queued.
  unfoldable pub walk : ℕ → List ℕ → List ℕ × List ℕ
  walk zero queue = ([], queue)
  walk (suc room) [] = ([], [])
  walk (suc room) (x ∷ xs) =
      let further = walk (if pick x then room else suc room) xs in
      if pick x then (x ∷ further.0, further.1) else (further.0, x ∷ further.1)

  -- The threads readied, in that order, and the queue. `none`: the fuel ran out.
  unfoldable pub wake_all_where : ℕ → List ℕ → Option (List ℕ × List ℕ)
  unfolding walk
  wake_all_where zero queue = none
  wake_all_where (suc fuel) queue =
      let (chosen, left) = walk batch_size queue in
      let further = wake_all_where fuel left in
      if length chosen == batch_size
      then (do r ← further; some (chosen ++ r.0, r.1))
      else some (chosen, left)

  -- The waiters that the test accepts, and those that it refuses, in the queue's order.
  abbrev pub accepted : List ℕ → List ℕ
  accepted [] = []
  accepted (x ∷ xs) = let rest = accepted xs in if pick x then x ∷ rest else rest

  abbrev pub others : List ℕ → List ℕ
  others [] = []
  others (x ∷ xs) = let rest = others xs in if pick x then rest else x ∷ rest

  record Walked (room : ℕ) (queue chosen left : List ℕ) : Type 0 where
    in_order : accepted queue ≡ chosen ++ accepted left
    same : others left ≡ others queue
    fits : length chosen ≤ room
    full_or_done : (length chosen ≡ room) ⊎ (left ≡ others left)
    shrinks : length left + length chosen ≡ length queue

  walk-Walked :
      (room : ℕ) (queue : List ℕ) → Walked room queue (walk room queue).0 (walk room queue).1
  unfolding walk
  walk-Walked zero queue = record {
    in_order = refl;
    same = refl;
    fits = omega arith;
    full_or_done = inl refl;
    shrinks = omega arith;
  }
  walk-Walked (suc room) [] = record {
    in_order = refl;
    same = refl;
    fits = omega arith;
    full_or_done = inr refl;
    shrinks = refl;
  }
  walk-Walked (suc room) (x ∷ xs) = elim (Bool-cases (pick x)) [
    | inl e ↦
        let ih = walk-Walked room xs in
        rw e (record {
          in_order = ground (arith, e, ih.in_order);
          same = ground (arith, e, ih.same);
          fits = omega (arith, ih.fits);
          full_or_done = elim ih.full_or_done [ inl f ↦ inl (ap suc f) | inr d ↦ inr d ];
          shrinks = omega (arith, ih.shrinks);
        })
    | inr e ↦
        let ih = walk-Walked (suc room) xs in
        rw e (record {
          in_order = ground (arith, e, ih.in_order);
          same = ground (arith, e, ih.same);
          fits = ih.fits;
          full_or_done = elim ih.full_or_done [
            | inl f ↦ inl f
            | inr d ↦ inr (ground (arith, e, d))
          ];
          shrinks = omega (arith, ih.shrinks);
        })
  ]

  accepted-others : (queue : List ℕ) → accepted (others queue) ≡ []
  accepted-others [] = refl
  accepted-others (x ∷ xs) = ground (arith, accepted-others xs)

  -- With more fuel than there are waiters, the batches end: they ready every waiter that the test
  -- accepts, in the queue's order, and leave the others queued in theirs.
  pub wake_all_where_lem :
      (fuel : ℕ) (queue : List ℕ)
      → length queue < fuel
      → wake_all_where fuel queue ≡ some (accepted queue, others queue)
  unfolding wake_all_where
  wake_all_where_lem zero queue h = elim h [ ]
  wake_all_where_lem (suc fuel) queue h =
      let w = walk-Walked batch_size queue in
      elim (Bool-cases (length (walk batch_size queue).0 == batch_size)) [
        | inl again ↦
            let ih =
              wake_all_where_lem fuel (walk batch_size queue).1
                (ground (arith, again, w.shrinks)) in
            rw (again, ih) (ground (arith, w.in_order, w.same))
        | inr last ↦ rw last (elim w.full_or_done [
          | inl f ↦ absurd (ground arith)
          | inr d ↦ ground (
            arith,
            d,
            w.in_order,
            w.same,
            append-nil (walk batch_size queue).0,
            accepted-others (walk batch_size queue).1,
          )
        ])
      ]
