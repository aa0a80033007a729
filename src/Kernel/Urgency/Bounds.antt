-- ===== src/Kernel/Urgency/Bounds.antt =====
-- What the urgency fold answers: never less urgent than the base priority, nor than what any held
-- mutex contributes.
use cyros.Common.{ℕ, zero, suc, ◌+◌, ◌≤◌, ◌<◌, ◌≡◌, true, false, Option, none, some, arith}
use cyros.Common.Bits.{
  test_bit, test_bit-change, test_bit-zero, countr_zero, countr_zero_lem, clear_bit,
}
use cyros.Kernel.Thread.{holds_nothing}
use cyros.Kernel.Store.{Store}
use cyros.Kernel.Urgency.{urgency_contribution, lower_floor, fold_held, donated_floor, urgency_at}

lower_floor-le : (f : ℕ → ℕ) (o : Option ℕ) (floor : ℕ) → lower_floor f o floor ≤ floor
unfolding lower_floor
lower_floor-le f none floor = omega arith
lower_floor-le f (some k) floor = omega arith

fold_held-le :
    (rounds : ℕ) (f : ℕ → ℕ) (slots : ℕ → Option ℕ) (mask floor : ℕ)
    → fold_held rounds f slots mask floor ≤ floor
unfolding fold_held
fold_held-le zero f slots mask floor = omega arith
fold_held-le (suc rounds) f slots mask floor =
    let slot = countr_zero 8 mask in
    let lower = lower_floor f (slots slot) floor in
    ground (
      arith,
      lower_floor-le f (slots slot) floor,
      fold_held-le rounds f slots (clear_bit slot mask) lower,
    )

-- Clearing the lowest set bit of a mask that is clear below `low` leaves it clear up to there.
lowest-clear :
    (low mask q p : ℕ)
    → ((p : ℕ) → p < low → test_bit p mask ≡ false)
    → q < 8
    → test_bit q mask ≡ true
    → p < low + 1
    → test_bit p (clear_bit (countr_zero 8 mask) mask) ≡ false
lowest-clear low mask q p clear hq set h = ground (
  arith,
  countr_zero_lem 8 mask q hq set,
  test_bit-change (λ b. false) (countr_zero 8 mask) p mask,
  countr_zero_lem 8 mask p,
  clear p,
  clear (countr_zero 8 mask),
)

lower_floor_hit :
    (f : ℕ → ℕ) (o : Option ℕ) (floor k : ℕ) → o ≡ some k → lower_floor f o floor ≤ f k
unfolding lower_floor
lower_floor_hit f o floor k e = ground arith

-- Every set bit with a published slot is folded in.
fold_held-slot :
    (rounds low : ℕ) (f : ℕ → ℕ) (slots : ℕ → Option ℕ) (mask floor q k : ℕ)
    → rounds + low ≡ 8
    → ((p : ℕ) → p < low → test_bit p mask ≡ false)
    → q < 8
    → test_bit q mask ≡ true
    → slots q ≡ some k
    → fold_held rounds f slots mask floor ≤ f k
unfolding fold_held
fold_held-slot zero low f slots mask floor q k e clear hq set published = cc (clear q (omega arith))
fold_held-slot (suc rounds) low f slots mask floor q k e clear hq set published =
    let slot = countr_zero 8 mask in
    let lower = lower_floor f (slots slot) floor in
    ground (
      arith,
      test_bit-zero q,
      test_bit-change (λ b. false) slot q mask,
      lower_floor_hit f (slots slot) floor k,
      fold_held-le rounds f slots (clear_bit slot mask) lower,
      fold_held-slot rounds (low + 1) f slots (clear_bit slot mask) lower q k (omega arith)
          (λ p h. lowest-clear low mask q p clear hq set h) hq,
    )

-- A thread is never less urgent than its base priority, at any depth of the fold.
pub urgency_at-le-base :
    (depth : ℕ) (s : Store) (t : ℕ) → urgency_at depth s t ≤ (s.tcb t).base_priority
unfolding urgency_at donated_floor
urgency_at-le-base zero s t = ground (
  arith,
  fold_held-le 8 (urgency_contribution s none) (s.tcb t).held_slots (s.tcb t).held_mask
      (s.tcb t).base_priority,
)
urgency_at-le-base (suc d) s t = ground (
  arith,
  fold_held-le 8 (urgency_contribution s (some (urgency_at d s))) (s.tcb t).held_slots
      (s.tcb t).held_mask (s.tcb t).base_priority,
)

-- The inline fast path and the fold agree, and give the base priority, for a thread that holds nothing.
pub urgency_at-holds_nothing :
    (depth : ℕ) (s : Store) (t : ℕ)
    → holds_nothing (s.tcb t) ≡ true
    → urgency_at depth s t ≡ (s.tcb t).base_priority
unfolding urgency_at donated_floor
urgency_at-holds_nothing zero s t h = ground arith
urgency_at-holds_nothing (suc d) s t h = ground arith

-- `t` has mutex `k` filed in one of its held slots.
pub record Holding (s : Store) (t k : ℕ) : Type 0 where
  pub slot : ℕ
  pub in_mask : slot < 8
  pub marked : test_bit slot (s.tcb t).held_mask ≡ true
  pub published : (s.tcb t).held_slots slot ≡ some k

pub urgency_at-le-contribution :
    (depth : ℕ) (s : Store) (t k : ℕ)
    → Holding s t k
    → urgency_at (suc depth) s t ≤ urgency_contribution s (some (urgency_at depth s)) k
unfolding urgency_at donated_floor
urgency_at-le-contribution d s t k h = ground (
  arith,
  test_bit-zero h.slot,
  fold_held-slot 8 0 (urgency_contribution s (some (urgency_at d s))) (s.tcb t).held_slots
      (s.tcb t).held_mask (s.tcb t).base_priority h.slot k (omega arith)
      (λ p low. absurd (omega arith)) h.in_mask h.marked h.published,
)
