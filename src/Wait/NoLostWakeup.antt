-- ===== src/Wait/NoLostWakeup.antt =====
-- No wake is lost: over every order of the steps of the threads, the releases and the signals.
use native.Mathlib.Nat.{mod-le}
use cyros.Common.{
  ◌%◌, ℕ, suc, ◌+◌, ◌-◌, ◌≤◌, ◌≡◌, refl, Bool, true, false, Option, none, some, List, [], ◌∷◌,
  arith, ltb, leb, if◌then◌else◌, count, is_empty, ◌>>=◌, subst, got, checked, checked_both,
}
use cyros.Wait.Engine.{Waits, Phase, run, run_from}
use cyros.Wait.Semaphore.{
  Semaphore, Step, is_apart, try_satisfy, try_acquire, acquire, add_tokens, test_waiters, make_wake,
  on_waits, take_step, Reaches,
}
use cyros.Wait.Count.{total-zero}
use cyros.Wait.Supply.{pending, sleeps, Kept}
use cyros.Wait.Moves.{poll-Kept, commit-Kept, repoll-Kept, acquire-Kept}
use cyros.Wait.Steps.{arm-Kept, wake_one-Kept, pass_on-Kept, disarm-Kept, deliver-Kept, raise-Kept}

is_empty-count : (t : ℕ) (xs : List ℕ) → is_empty xs ≡ true → count t xs ≡ 0
unfolding count
is_empty-count t [] e = refl
is_empty-count t (x ∷ xs) e = cc e

module _ (threads : ℕ) (priority : ℕ → ℕ) where
  run_from-Kept :
      (p : Phase) (wakes t : ℕ) (s w : Waits ℕ)
      → s.phase t ≡ p
      → run_from priority try_satisfy p t s ≡ some w
      → Kept threads wakes s
      → Kept threads wakes w
  unfolding run_from
  run_from-Kept Phase.outside wakes t s w p e k = cc e
  run_from-Kept Phase.arriving wakes t s w p e k =
      got (Kept threads wakes) _ w (arm-Kept threads priority wakes t s p k) e
  run_from-Kept Phase.armed wakes t s w p e k =
      got (Kept threads wakes) _ w (poll-Kept threads priority wakes t s p k) e
  run_from-Kept Phase.satisfied wakes t s w p e k =
      got (Kept threads wakes) _ w
        (disarm-Kept threads priority wakes t s (rw p refl) (rw p refl) k) e
  run_from-Kept Phase.refused wakes t s w p e k =
      got (Kept threads wakes) _ w (commit-Kept threads priority wakes t s p k) e
  run_from-Kept Phase.cancelled wakes t s w p e k =
      got (Kept threads wakes) _ w
        (disarm-Kept threads priority wakes t s (rw p refl) (rw p refl) k) e
  run_from-Kept Phase.parked wakes t s w p e k = cc e
  run_from-Kept Phase.resumed wakes t s w p e k =
      got (Kept threads wakes) _ w
        (disarm-Kept threads priority wakes t s (rw p refl) (rw p refl) k) e
  run_from-Kept (Phase.retrying chosen) wakes t s w p e k =
      got (Kept threads wakes) _ w (repoll-Kept threads priority wakes t chosen s p k) e
  run_from-Kept Phase.passing wakes t s w p e k =
      got (Kept threads wakes) _ w (pass_on-Kept threads priority wakes t s p k) e
  run_from-Kept (Phase.returned b) wakes t s w p e k = cc e

  abbrev Sound : Semaphore → Type 0
  Sound s = Kept threads (s.testing + s.owed) s.waits

  -- More wakes are owed, or tokens are taken with no wait.
  loosened :
      (wakes more r : ℕ) (s : Waits ℕ)
      → ((t : ℕ) → sleeps s t ≡ true → r + wakes ≤ s.resource + more)
      → Kept threads wakes s
      → Kept threads more (record s { resource = r })
  loosened wakes more r s le k = record {
    queued = k.queued;
    known = k.known;
    told = k.told;
    still = k.still;
    unbound = k.unbound;
    supply = λ t a. omega (arith, le t a, k.supply t a);
  }

  ran :
      (t : ℕ) (s s' : Semaphore) (o : Option (Waits ℕ))
      → ((w : Waits ℕ) → o ≡ some w → Kept threads (s.testing + s.owed) w)
      → (o >>= λ w. some (on_waits s w)) ≡ some s'
      → Sound s'
  ran t s s' none h e = cc e
  ran t s s' (some w) h e = got Sound (on_waits s w) s' (h w refl) e

  take_step-Sound :
      (step : Step) (s s' : Semaphore)
      → take_step threads priority step s ≡ some s'
      → Sound s
      → Sound s'
  unfolding take_step
  take_step-Sound (Step.acquires t) s s' e k =
      checked_both Sound (ltb t threads) (is_apart (s.waits.phase t))
        (on_waits s (acquire t s.waits)) s'
        (λ h a. acquire-Kept threads priority _ t s.waits (ground arith) a k) e
  take_step-Sound (Step.runs t) s s' e k =
      ran t s s' (run priority try_satisfy t s.waits)
        (λ w h. run_from-Kept (s.waits.phase t) _ t s.waits w refl (unfold run in h) k) e
  take_step-Sound Step.barges s s' e k =
      got Sound _ s'
        (loosened (s.testing + s.owed) (s.testing + s.owed) (try_acquire s.waits.resource).1 s.waits
          (λ t a. unfold try_acquire in ground arith) k)
        e
  take_step-Sound (Step.adds n) s s' e k =
      got Sound (add_tokens n s) s'
        (unfold add_tokens in
          loosened (s.testing + s.owed) (s.testing + n + s.owed) ((s.waits.resource + n) % s.limit)
            s.waits (λ t a. omega (arith, mod-le (s.waits.resource + n) s.limit)) k)
        e
  take_step-Sound (Step.tests n) s s' e k =
      checked Sound (leb n s.testing) (test_waiters n s) s'
        (λ h.
          unfold test_waiters in
          loosened (s.testing + s.owed)
            (s.testing - n + (if is_empty s.waits.queue then s.owed else s.owed + n))
            s.waits.resource s.waits (λ t a. ground (arith, h, is_empty-count t s.waits.queue)) k)
        e
  take_step-Sound Step.wakes s s' e k =
      checked Sound (ltb 0 s.owed) (make_wake s) s'
        (λ h.
          let one_more : s.testing + s.owed ≡ suc (s.testing + (s.owed - 1)) = ground (arith, h) in
          unfold make_wake in
          wake_one-Kept threads priority (s.testing + (s.owed - 1)) s.waits
            (subst (λ (n : ℕ). Kept threads n s.waits) one_more k))
        e
  take_step-Sound (Step.delivers t) s s' e k =
      checked Sound (ltb 0 (count t s.waits.delivering)) _ s'
        (λ h. deliver-Kept threads priority _ t s.waits k) e
  take_step-Sound (Step.raises t) s s' e k =
      got Sound _ s' (raise-Kept threads priority _ t s.waits k) e

  -- Nobody waits, no release is at work, and any number of tokens is there.
  pub record Fresh (s : Semaphore) : Type 0 where
    pub apart : (t : ℕ) → is_apart (s.waits.phase t) ≡ true
    pub nobody : s.waits.queue ≡ []
    pub no_record : (t : ℕ) → s.waits.bound t ≡ false

  Fresh-Sound : (s : Semaphore) → Fresh s → Sound s
  unfolding count
  Fresh-Sound s f = record {
    queued = λ t. ground (arith, f.nobody);
    known = λ t a. ground (arith, f.apart t);
    told = λ t i z h. ground (arith, f.apart t);
    still = λ t i. ground (arith, f.apart t);
    unbound = f.no_record;
    supply = λ t a. ground (arith, f.apart t);
  }

  Reaches-Sound : {s u : Semaphore} → Fresh s → Reaches threads priority s u → Sound u
  Reaches-Sound {s} f Reaches.here = Fresh-Sound s f
  Reaches-Sound f (Reaches.next {u} {v} step r e) = take_step-Sound step u v e (Reaches-Sound f r)

  abbrev pub rests : Phase → Bool
  rests Phase.parked = true
  rests p = is_apart p

  -- Every release is done, every thread that was woken has been readied, and every thread is blocked,
  -- or outside its wait.
  pub record Quiet (s : Semaphore) : Type 0 where
    pub tested : s.testing ≡ 0
    pub made : s.owed ≡ 0
    pub delivered : s.waits.delivering ≡ []
    pub resting : (t : ℕ) → rests (s.waits.phase t) ≡ true

  -- In every state that threads, releases and cancel signals reach by steps in any order, from one
  -- where nobody waits: once nothing is left to run, a thread that is blocked on the semaphore is
  -- blocked at a counter of zero.
  pub blocked-at-zero :
      {s u : Semaphore} (t : ℕ)
      → Fresh s
      → Reaches threads priority s u
      → Quiet u
      → u.waits.phase t ≡ Phase.parked
      → u.waits.resource ≡ 0
  unfolding count
  blocked-at-zero {s} {u} t f r q p =
      let k = Reaches-Sound f r in
      let none_pending =
        total-zero threads (pending u.waits)
          (λ v lt. ground (arith, q.resting v, q.delivered, k.queued v, k.told v, k.still v)) in
      ground (
        arith,
        p,
        q.tested,
        q.made,
        q.delivered,
        none_pending,
        k.queued t,
        k.told t,
        k.still t,
        k.supply t,
      )
