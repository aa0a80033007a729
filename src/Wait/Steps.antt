-- ===== src/Wait/Steps.antt =====
-- The steps of a wait that change the queue, and those of a wake, keep the supply.
use cyros.Common.{
  ℕ, suc, ◌+◌, ◌≡◌, refl, true, false, not, List, [], ◌∷◌, arith, ◌==◌, if◌then◌else◌, count,
  count-erase, count-append,
}
use cyros.WaitQueue.{unlink}
use cyros.WaitQueue.Order.{count-link, unlink_lem}
use cyros.Wait.Engine.{
  Waits, Phase, arm, disarm, wake_one, wake_first, pass_on, ready, deliver, raise, set_phase,
}
use cyros.Wait.Semaphore.{try_satisfy}
use cyros.Wait.Count.{total-same}
use cyros.Wait.Supply.{in_pass, is_asleep, pending, Kept, supply-Kept}

module _ (threads : ℕ) (priority : ℕ → ℕ) where
  pub arm-Kept :
      (wakes t : ℕ) (s : Waits ℕ)
      → s.phase t ≡ Phase.arriving
      → Kept threads wakes s
      → Kept threads wakes (arm priority try_satisfy t s)
  unfolding arm
  arm-Kept wakes t s p k = record {
    queued = λ u. ground (arith, p, k.queued u, k.queued t, count-link priority t u s.queue);
    known = λ u a. ground (arith, p, k.known u, k.known t);
    told = λ u i z e. ground (arith, p, k.told u, count-link priority t u s.queue);
    still = λ u i. ground (arith, k.still u);
    unbound = k.unbound;
    supply =
        supply-Kept threads wakes wakes t s (arm priority try_satisfy t s) k
          (ground (arith, p, k.known t)) (λ u ne. ground (arith, count-link priority t u s.queue))
          (λ u a. ground (arith, p, count-link priority t u s.queue))
          (ground (arith, p, k.queued t, count-link priority t t s.queue));
  }

  wake_first-Kept :
      (queue : List ℕ) (wakes : ℕ) (s : Waits ℕ)
      → s.queue ≡ queue
      → Kept threads (suc wakes) s
      → Kept threads wakes (wake_first queue s)
  unfolding wake_first count
  wake_first-Kept [] wakes s e k = record {
    queued = k.queued;
    known = k.known;
    told = k.told;
    still = k.still;
    unbound = k.unbound;
    supply = λ u a. ground (arith, e);
  }
  wake_first-Kept (x ∷ rest) wakes s e k = record {
    queued = λ u. ground (arith, e, k.queued u);
    known = k.known;
    told = λ u i z h. ground (arith, e, k.told u, count-append u s.delivering (x ∷ []));
    still = k.still;
    unbound = k.unbound;
    supply =
        supply-Kept threads (suc wakes) wakes x s (wake_first (x ∷ rest) s) k
          (ground (arith, e, k.queued x, k.known x)) (λ u ne. ground (arith, e))
          (λ u a. ground (arith, e)) (ground (arith, e, k.queued x));
  }

  pub wake_one-Kept :
      (wakes : ℕ) (s : Waits ℕ) → Kept threads (suc wakes) s → Kept threads wakes (wake_one s)
  unfolding wake_one
  wake_one-Kept wakes s k = wake_first-Kept s.queue wakes s refl k

  -- A thread that is about to pass a wake on owes it as a release does.
  owing-Kept :
      (wakes t : ℕ) (s : Waits ℕ)
      → s.phase t ≡ Phase.passing
      → Kept threads wakes s
      → Kept threads (suc wakes) (set_phase t (Phase.returned true) s)
  owing-Kept wakes t s p k = record {
    queued = λ u. ground (arith, p, k.queued u);
    known = λ u a. ground (arith, k.known u);
    told = λ u i z h. ground (arith, p, k.told u);
    still = λ u i. ground (arith, p, k.still u);
    unbound = k.unbound;
    supply =
        supply-Kept threads wakes (suc wakes) t s (set_phase t (Phase.returned true) s) k
          (ground (arith, p, k.known t)) (λ u ne. ground arith) (λ u a. ground (arith, p))
          (ground (arith, p));
  }

  wake_first-set_phase :
      (queue : List ℕ) (t : ℕ) (p : Phase) (s : Waits ℕ)
      → set_phase t p (wake_first queue s) ≡ wake_first queue (set_phase t p s)
  unfolding wake_first
  wake_first-set_phase [] t p s = refl
  wake_first-set_phase (x ∷ rest) t p s = refl

  pub pass_on-Kept :
      (wakes t : ℕ) (s : Waits ℕ)
      → s.phase t ≡ Phase.passing
      → Kept threads wakes s
      → Kept threads wakes (pass_on t s)
  unfolding pass_on wake_one
  pass_on-Kept wakes t s p k = rw (wake_first-set_phase s.queue t (Phase.returned true) s) (
      wake_first-Kept s.queue wakes (set_phase t (Phase.returned true) s) refl
        (owing-Kept wakes t s p k))

  unlinked :
      (t u : ℕ) (xs : List ℕ)
      → ((unlink t xs).0 ≡ not (count t xs == 0))
        × (count u (unlink t xs).1 + (if u == t then (if count t xs == 0 then 0 else 1) else 0)
            ≡ count u xs)
  unlinked t u xs = rw (unlink_lem t xs) (ground (arith, count-erase t u xs))

  -- The disarm of a thread whose poll was not satisfied, and of one that was.
  pub disarm-Kept :
      (wakes t : ℕ) (s : Waits ℕ)
      → in_pass (s.phase t) ≡ true
      → is_asleep (s.phase t) ≡ false
      → Kept threads wakes s
      → Kept threads wakes (disarm t s)
  unfolding disarm
  disarm-Kept wakes t s p a k = record {
    queued = λ u. ground (arith, p, k.queued u, k.queued t, unlinked t u s.queue);
    known = λ u a. ground (arith, p, k.known u, k.known t);
    told = λ u i z h. ground (arith, p, k.told u, unlinked t u s.queue);
    still = λ u i. ground (arith, k.still u);
    unbound = k.unbound;
    supply =
        supply-Kept threads wakes wakes t s (disarm t s) k (ground (arith, p, k.known t))
          (λ u ne. ground (arith, unlinked t u s.queue))
          (λ u a. ground (arith, p, unlinked t u s.queue))
          (ground (arith, p, k.queued t, k.unbound t, unlinked t t s.queue));
  }

  pub deliver-Kept :
      (wakes t : ℕ) (s : Waits ℕ) → Kept threads wakes s → Kept threads wakes (deliver t s)
  unfolding deliver ready
  deliver-Kept wakes t s k = record {
    queued = λ u. ground (arith, k.queued u);
    known = λ u a. ground (arith, k.known u);
    told = λ u i z h. ground (arith, k.told u, count-erase t u s.delivering);
    still = λ u i. ground (arith, k.still u);
    unbound = k.unbound;
    supply = λ u a. omega (
      arith,
      k.supply u (ground arith),
      total-same threads (pending s) (pending (deliver t s)) (λ v lt. ground arith),
    );
  }

  pub raise-Kept :
      (wakes t : ℕ) (s : Waits ℕ) → Kept threads wakes s → Kept threads wakes (raise t s)
  unfolding raise
  raise-Kept wakes t s k = record {
    queued = λ u. ground (arith, k.queued u);
    known = λ u a. ground (arith, k.known u);
    told = λ u i z h. ground (arith, k.told u, count-append u s.delivering (t ∷ []));
    still = λ u i. ground (arith, k.still u);
    unbound = k.unbound;
    supply = λ u a. omega (
      arith,
      k.supply u (ground arith),
      total-same threads (pending s) (pending (raise t s)) (λ v lt. ground arith),
    );
  }
