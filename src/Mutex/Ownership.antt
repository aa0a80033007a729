-- ===== src/Mutex/Ownership.antt =====
-- Filing and retiring a held mutex (claim_slot and retire_held, src/kernel/base_mutex.cpp): owners,
-- slots and masks stay in step.
use cyros.Common.{
  ℕ, ◌<◌, ◌≡◌, ◌≢◌, refl, Option, none, some, List, [], ◌∷◌, arith, ℕ_discrete, ==_refl,
  Option-cases, inl, inr,
}
use cyros.Kernel.Thread.{max_held_per_thread}
use cyros.Kernel.Store.{Store}
use cyros.Mutex.{free_slot, file_at, claim_slot, retire_held, retire_at, set_owner}
use cyros.Mutex.Queue.{pop_from, refresh_top}
use cyros.Mutex.Slots.{
  Filed, Owns, Consistent, Loose, Masked-file, Masked-retire, free_slot_lem, free_slot-IsSome,
}

module _ (t k slot : ℕ) (s : Store) (l : Loose k s) where
  file-Filed :
      (s.mutex k).owner ≡ some t
      → slot < max_held_per_thread
      → (s.tcb t).held_slots slot ≡ none
      → (j : ℕ) → Filed (file_at t k slot s) j
  unfolding file_at
  file-Filed own h vacant j = elim (ℕ_discrete j k) [
    | yes same ↦ rw same (record { owned = λ u o. ground arith; free = λ o. ground arith })
    | no other ↦ record {
      owned = λ u o. ground (arith, (l.filed j other).owned u);
      free = λ o. ground (arith, (l.filed j other).free);
    }
  ]

  file-Owns :
      (s.mutex k).owner ≡ some t
      → slot < max_held_per_thread
      → (s.tcb t).held_slots slot ≡ none
      → (u i j : ℕ) → i < max_held_per_thread
      → ((file_at t k slot s).tcb u).held_slots i ≡ some j
      → Owns (file_at t k slot s) u i j
  unfolding file_at
  file-Owns own h vacant u i j hi f = ground (arith, l.slots u i j hi)

  file-Consistent :
      (s.mutex k).owner ≡ some t
      → slot < max_held_per_thread
      → (s.tcb t).held_slots slot ≡ none
      → Consistent (file_at t k slot s)
  unfolding file_at
  file-Consistent own h vacant = record {
    masked = λ u. elim (ℕ_discrete u t) [
      | yes same ↦ rw (same, ==_refl t) (Masked-file (s.tcb t) slot k (l.masked t) h)
      | no other ↦ λ i. ground (arith, l.masked u i)
    ];
    filed = file-Filed own h vacant;
    slots = file-Owns own h vacant;
  }

-- Filing a mutex in a thread that has a free slot goes through.
pub claim-Consistent :
    (t k i : ℕ) (s : Store)
    → Loose k s
    → (s.mutex k).owner ≡ some t
    → i < max_held_per_thread
    → (s.tcb t).held_slots i ≡ none
    → (s' : Store) × (claim_slot t k s ≡ some s')
      × Consistent s'
      × ((j : ℕ)
          → ((s'.mutex j).owner ≡ (s.mutex j).owner) × ((s'.mutex j).queue ≡ (s.mutex j).queue))
unfolding claim_slot file_at
claim-Consistent t k i s l own hi vacant =
    elim (Option-cases (free_slot max_held_per_thread 0 (s.tcb t).held_slots)) [
      | inl full ↦
          absurd
            (ground (arith, free_slot-IsSome 4 0 i (s.tcb t).held_slots (omega arith) hi vacant))
      | inr (slot, e) ↦
          let found = free_slot_lem 4 0 slot (s.tcb t).held_slots e in
          (
            file_at t k slot s,
            rw e refl,
            file-Consistent t k slot s l own (omega arith) found.0,
            λ j. (ground arith, ground arith),
          )
    ]

module _ (t k : ℕ) (s : Store) (c : Consistent s) (own : (s.mutex k).owner ≡ some t) where
  pub retire-Loose : Loose k (retire_at t k (s.mutex k).held_slot s)
  unfolding retire_at
  retire-Loose = record {
    masked = λ u. elim (ℕ_discrete u t) [
      | yes same ↦
          rw (same, ==_refl t)
            (Masked-retire (s.tcb t) (s.mutex k).held_slot (c.masked t) ((c.filed k).owned t own).0)
      | no other ↦ λ i. ground (arith, c.masked u i)
    ];
    filed = λ j other. record {
      owned = λ u o. ground (arith, (c.filed j).owned u, (c.filed k).owned t own);
      free = λ o. ground (arith, (c.filed j).free);
    };
    unfiled = ground arith;
    slots = λ u i j h f. ground (arith, c.slots u i j h, (c.filed k).owned t own);
  }

  -- The asserts of retire_held hold for the owner.
  pub retire_held_owner : retire_held t k s ≡ some (retire_at t k (s.mutex k).held_slot s)
  unfolding retire_held
  retire_held_owner = ground (arith, (c.filed k).owned t own)

pub set_owner-Loose : {s : Store} (k : ℕ) (o : Option ℕ) → Loose k s → Loose k (set_owner k o s)
unfolding set_owner
set_owner-Loose {s} k o l = record {
  masked = l.masked;
  filed = λ j other. record {
    owned = λ t e. ground (arith, (l.filed j other).owned t);
    free = λ e. ground (arith, (l.filed j other).free);
  };
  unfiled = ground (arith, l.unfiled);
  slots = λ t i j h f. ground (arith, l.slots t i j h f);
}

abbrev pub first : List ℕ → Option ℕ
first [] = none
first (w ∷ ws) = some w

abbrev pub rest : List ℕ → List ℕ
rest [] = []
rest (w ∷ ws) = ws

pub pop_from-Loose : {s : Store} (k : ℕ) (q : List ℕ) → Loose k s → Loose k (pop_from k q s).1
unfolding pop_from refresh_top
pop_from-Loose k [] l = l
pop_from-Loose {s} k (w ∷ ws) l = record {
  masked = l.masked;
  filed = λ j other. record {
    owned = λ t e. ground (arith, (l.filed j other).owned t);
    free = λ e. ground (arith, (l.filed j other).free);
  };
  unfiled = ground (arith, l.unfiled);
  slots = λ t i j h f. ground (arith, l.slots t i j h f);
}

-- A thread with a free slot for a mutex.
abbrev pub HasRoom : Store → ℕ → Type 0
HasRoom s t = (i : ℕ) × (i < max_held_per_thread) × ((s.tcb t).held_slots i ≡ none)

-- What a release leaves: the first waiter, if there is one, owns the mutex and is the thread to
-- ready, the others wait on in their order, no other mutex changes hands, and owners and slots agree.
pub record HandedOver (k : ℕ) (s : Store) (chosen : Option ℕ) (s' : Store) : Type 0 where
  pub consistent : Consistent s'
  pub picked : chosen ≡ first (s.mutex k).queue
  pub owner : (s'.mutex k).owner ≡ chosen
  pub queue : (s'.mutex k).queue ≡ rest (s.mutex k).queue
  pub others : (j : ℕ) → j ≢ k → (s'.mutex j).owner ≡ (s.mutex j).owner
