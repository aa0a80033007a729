-- ===== src/Wait/Moves.antt =====
-- The steps of a wait that leave the queue alone keep the supply.
use cyros.Common.{
  ℕ, ◌+◌, ◌-◌, ◌≤◌, ◌<◌, ◌≡◌, ◌≢◌, ◌⊎◌, refl, Bool, true, false, ◌&&◌, arith, ltb, update, count,
  Bool-cases, inl, inr,
}
use cyros.Wait.Engine.{Waits, Phase, poll, commit_to_block, repoll}
use cyros.Wait.Semaphore.{is_apart, try_satisfy, try_acquire, acquire}
use cyros.Wait.Count.{total}
use cyros.Wait.Supply.{in_pass, is_parked, is_asleep, stake, pending, sleeps, Kept, supply-Kept}

module _ (threads : ℕ) (priority : ℕ → ℕ) where
  -- A thread that stays queued, or off the queue, as it was: its next place, who is prepared to block,
  -- and the tokens that are left.
  abbrev moved : ℕ → Phase → (ℕ → Bool) → ℕ → Waits ℕ → Waits ℕ
  moved t p prepared r s = record s {
    resource = r;
    phase = update s.phase t p;
    prepared = prepared;
  }

  moved-Kept :
      (wakes t r : ℕ) (p : Phase) (prepared : ℕ → Bool) (s : Waits ℕ)
      → t < threads
      → in_pass p ≡ in_pass (s.phase t)
      → (is_parked p ≡ true → prepared t ≡ true)
      → ((u : ℕ) → prepared u ≡ true → s.prepared u ≡ true)
      → ((u : ℕ) → u ≢ t → prepared u ≡ s.prepared u)
      → ((is_asleep p && ltb 0 r) ≡ true → is_asleep (s.phase t) ≡ true)
      → (ltb 0 r ≡ true
          → r + stake (count t s.queue) (s.phase t) ≤ s.resource + stake (count t s.queue) p)
      → Kept threads wakes s
      → Kept threads wakes (moved t p prepared r s)
  moved-Kept wakes t r p prepared s lt same off less others asleep le k = record {
    queued = λ u. ground (arith, same, k.queued u);
    known = λ u a. ground (arith, k.known u, lt);
    told = λ u i z h. ground (arith, same, less u, k.told u);
    still = λ u i. ground (arith, off, others u, k.still u);
    unbound = k.unbound;
    supply = from (Bool-cases (ltb 0 r));
  }
    where
      from :
          (ltb 0 r ≡ true) ⊎ (ltb 0 r ≡ false)
          → (u : ℕ) → sleeps (moved t p prepared r s) u ≡ true
          → r ≤ wakes + total threads (pending (moved t p prepared r s))
      from (inl e) u a =
          supply-Kept threads wakes wakes t s (moved t p prepared r s) k lt (λ u ne. ground arith)
            (λ u a. ground (arith, asleep)) (ground (arith, le e)) u a
      from (inr e) u a = ground (arith, e)

  pub commit-Kept :
      (wakes t : ℕ) (s : Waits ℕ)
      → s.phase t ≡ Phase.refused
      → Kept threads wakes s
      → Kept threads wakes (commit_to_block t s)
  unfolding commit_to_block
  commit-Kept wakes t s p k =
      let lt : t < threads = ground (arith, p, k.known t) in
      elim (Bool-cases (s.prepared t)) [
        | inl e ↦ rw e (
            moved-Kept wakes t s.resource Phase.parked s.prepared s lt (ground (arith, p)) (λ x. e)
              (λ u x. x) (λ u x. refl) (λ x. ground (arith, p)) (λ x. ground (arith, p)) k)
        | inr e ↦ rw e (
            moved-Kept wakes t s.resource Phase.resumed s.prepared s lt (ground (arith, p))
              (λ x. cc) (λ u x. x) (λ u x. refl) (λ x. ground arith) (λ x. ground (arith, p)) k)
      ]

  pub poll-Kept :
      (wakes t : ℕ) (s : Waits ℕ)
      → s.phase t ≡ Phase.armed
      → Kept threads wakes s
      → Kept threads wakes (poll priority try_satisfy t s)
  unfolding poll try_acquire
  poll-Kept wakes t s p k =
      let lt : t < threads = ground (arith, p, k.known t) in
      let apart = update s.prepared t false in
      elim (Bool-cases (ltb 0 s.resource)) [
        | inl e ↦ rw e (
            moved-Kept wakes t (s.resource - 1) Phase.satisfied apart s lt (ground (arith, p))
              (λ x. cc) (λ u x. ground arith) (λ u x. ground arith) (λ x. cc)
              (λ x. ground (arith, p, e)) k)
        | inr e ↦ elim (Bool-cases (s.raised t)) [
          | inl f ↦
              rw (e, f)
                (moved-Kept wakes t s.resource Phase.cancelled apart s lt (ground (arith, p))
                  (λ x. cc) (λ u x. ground arith) (λ u x. ground arith) (λ x. cc) (λ x. cc (e, x))
                  k)
          | inr f ↦
              rw (e, f)
                (moved-Kept wakes t s.resource Phase.refused s.prepared s lt (ground (arith, p))
                  (λ x. cc) (λ u x. x) (λ u x. refl) (λ x. ground (arith, e)) (λ x. cc (e, x)) k)
        ]
      ]

  pub repoll-Kept :
      (wakes t : ℕ) (chosen : Bool) (s : Waits ℕ)
      → s.phase t ≡ Phase.retrying chosen
      → Kept threads wakes s
      → Kept threads wakes (repoll priority try_satisfy t s)
  unfolding repoll try_acquire
  repoll-Kept wakes t chosen s p k =
      let lt : t < threads = ground (arith, p, k.known t) in
      elim (Bool-cases (ltb 0 s.resource)) [
        | inl e ↦ rw e (
            moved-Kept wakes t (s.resource - 1) (Phase.returned true) s.prepared s lt
              (ground (arith, p)) (λ x. cc) (λ u x. x) (λ u x. refl) (λ x. cc)
              (λ x. ground (arith, p, e)) k)
        | inr e ↦ elim (Bool-cases (s.raised t)) [
          | inl f ↦
              rw (e, f)
                (moved-Kept wakes t s.resource (Phase.returned false) s.prepared s lt
                  (ground (arith, p)) (λ x. cc) (λ u x. x) (λ u x. refl) (λ x. cc) (λ x. cc (e, x))
                  k)
          | inr f ↦
              rw (e, f)
                (moved-Kept wakes t s.resource Phase.arriving s.prepared s lt (ground (arith, p))
                  (λ x. cc) (λ u x. x) (λ u x. refl) (λ x. cc) (λ x. cc (e, x)) k)
        ]
      ]

  pub acquire-Kept :
      (wakes t : ℕ) (s : Waits ℕ)
      → t < threads
      → is_apart (s.phase t) ≡ true
      → Kept threads wakes s
      → Kept threads wakes (acquire t s)
  unfolding acquire try_acquire
  acquire-Kept wakes t s lt p k = elim (Bool-cases (ltb 0 s.resource)) [
    | inl e ↦ rw e (
        moved-Kept wakes t (s.resource - 1) (Phase.returned true) s.prepared s lt
          (ground (arith, p)) (λ x. cc) (λ u x. x) (λ u x. refl) (λ x. cc)
          (λ x. ground (arith, p, e)) k)
    | inr e ↦ rw e (
        moved-Kept wakes t s.resource Phase.arriving s.prepared s lt (ground (arith, p)) (λ x. cc)
          (λ u x. x) (λ u x. refl) (λ x. cc) (λ x. cc (e, x)) k)
  ]
