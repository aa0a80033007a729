-- ===== src/Mutex/Slots.antt =====
-- claim_slot and retire_held: the slots and the mask of a thread agree with the mutexes' owners.
use cyros.Common.{
  ℕ, zero, suc, ◌+◌, ◌≤◌, ◌<◌, ◌≡◌, ◌≢◌, true, false, Option, none, some, arith, ltb, if◌then◌else◌,
  update, is_some, ℕ_discrete,
}
use cyros.Common.Bits.{test_bit, test_bit-change, set_bit, clear_bit}
use cyros.Kernel.Thread.{Tcb, max_held_per_thread}
use cyros.Kernel.Store.{Store, not_held}
use cyros.Mutex.{free_slot}

-- The slot that the search gives is free and in its range; where it gives none, all are taken.
pub free_slot_lem :
    (rounds i j : ℕ) (slots : ℕ → Option ℕ)
    → free_slot rounds i slots ≡ some j
    → (slots j ≡ none) × (i ≤ j) × (j < i + rounds)
unfolding free_slot
free_slot_lem zero i j slots e = cc
free_slot_lem (suc rounds) i j slots e = ground (arith, free_slot_lem rounds (i + 1) j slots)

pub free_slot-IsSome :
    (rounds i j : ℕ) (slots : ℕ → Option ℕ)
    → i ≤ j
    → j < i + rounds
    → slots j ≡ none
    → is_some (free_slot rounds i slots) ≡ true
unfolding free_slot
free_slot-IsSome zero i j slots lo hi free = absurd (omega arith)
free_slot-IsSome (suc rounds) i j slots lo hi free =
    ground (arith, free_slot-IsSome rounds (i + 1) j slots)

-- The mask marks exactly the slots that are taken.
abbrev pub Masked : Tcb → Type 0
Masked b =
    (i : ℕ)
    → test_bit i b.held_mask
      ≡ (if ltb i max_held_per_thread then is_some (b.held_slots i) else false)

-- Mutex `j` is filed where its owner word and its slot index say, or nowhere.
pub record Filed (s : Store) (j : ℕ) : Type 0 where
  pub owned :
      (t : ℕ)
      → (s.mutex j).owner ≡ some t
      → ((s.mutex j).held_slot < max_held_per_thread)
        × ((s.tcb t).held_slots (s.mutex j).held_slot ≡ some j)
  pub free : (s.mutex j).owner ≡ none → (s.mutex j).held_slot ≡ not_held

-- A slot holds only a mutex that the thread owns, and whose index is that slot.
abbrev pub Owns : Store → ℕ → ℕ → ℕ → Type 0
Owns s t i j = ((s.mutex j).owner ≡ some t) × ((s.mutex j).held_slot ≡ i)

pub record Consistent (s : Store) : Type 0 where
  pub masked : (t : ℕ) → Masked (s.tcb t)
  pub filed : (j : ℕ) → Filed s j
  pub slots : (t i j : ℕ) → i < max_held_per_thread → (s.tcb t).held_slots i ≡ some j → Owns s t i j

-- The same of every mutex but `k`, which is filed nowhere, whoever its owner word names.
pub record Loose (k : ℕ) (s : Store) : Type 0 where
  pub masked : (t : ℕ) → Masked (s.tcb t)
  pub filed : (j : ℕ) → j ≢ k → Filed s j
  pub unfiled : (s.mutex k).held_slot ≡ not_held
  pub slots :
      (t i j : ℕ)
      → i < max_held_per_thread
      → (s.tcb t).held_slots i ≡ some j
      → (j ≢ k) × Owns s t i j

pub Consistent-Loose : {s : Store} (k : ℕ) → Consistent s → (s.mutex k).owner ≡ none → Loose k s
Consistent-Loose {s} k c e = record {
  masked = c.masked;
  filed = λ j h. c.filed j;
  unfiled = (c.filed k).free e;
  slots = λ t i j h f. ground (arith, c.slots t i j h f);
}

pub Loose-Consistent : {s : Store} (k : ℕ) → Loose k s → (s.mutex k).owner ≡ none → Consistent s
Loose-Consistent {s} k l e = record {
  masked = l.masked;
  filed = λ j. elim (ℕ_discrete j k) [
    | yes same ↦ rw same (record { owned = λ t o. cc; free = λ _. l.unfiled })
    | no other ↦ l.filed j other
  ];
  slots = λ t i j h f. (l.slots t i j h f).1;
}

pub Masked-file :
    (b : Tcb) (slot k : ℕ)
    → Masked b
    → slot < max_held_per_thread
    → Masked (record b {
      held_slots = update b.held_slots slot (some k);
      held_mask = set_bit slot b.held_mask;
    })
Masked-file b slot k m h = λ i. ground (arith, m i, test_bit-change (λ b. true) slot i b.held_mask)

pub Masked-retire :
    (b : Tcb) (slot : ℕ)
    → Masked b
    → slot < max_held_per_thread
    → Masked (record b {
      held_slots = update b.held_slots slot none;
      held_mask = clear_bit slot b.held_mask;
    })
Masked-retire b slot m h = λ i. ground (arith, m i, test_bit-change (λ b. false) slot i b.held_mask)
