-- ===== src/Channel/Ring.antt =====
-- The ring as the list of the values that it holds, the oldest first.
use cyros.Common.{
  ℕ, zero, suc, ◌+◌, ◌-◌, ◌≤◌, ◌<◌, ◌≡◌, ◌≢◌, refl, ap, List, [], ◌∷◌, ◌++◌, arith, ltb,
  if◌then◌else◌, update, length,
}
use cyros.Channel.{advance}

-- The index `k` slots on from `h`.
abbrev pub index_on : ℕ → ℕ → ℕ → ℕ
index_on capacity zero h = h
index_on capacity (suc k) h = index_on capacity k (advance capacity h)

pub index_on_lem :
    (capacity k h : ℕ)
    → h < capacity
    → k ≤ capacity
    → index_on capacity k h ≡ (if ltb (h + k) capacity then h + k else h + k - capacity)
unfolding advance
index_on_lem capacity zero h inside le = ground arith
index_on_lem capacity (suc k) h inside le =
    ground (arith, index_on_lem capacity k (advance capacity h))

pub index_on-advance :
    (capacity k h : ℕ) → advance capacity (index_on capacity k h) ≡ index_on capacity (suc k) h
index_on-advance capacity zero h = refl
index_on-advance capacity (suc k) h = index_on-advance capacity k (advance capacity h)

pub advance-lt : (capacity h : ℕ) → h < capacity → advance capacity h < capacity
unfolding advance
advance-lt capacity h lt = ground arith

module _ {T : Type 0} where
  abbrev pub walk : ℕ → ℕ → (ℕ → T) → ℕ → List T
  walk capacity zero ring h = []
  walk capacity (suc n) ring h = ring h ∷ walk capacity n ring (advance capacity h)

  pub walk_snoc :
      (capacity n : ℕ) (ring : ℕ → T) (h : ℕ)
      → walk capacity (suc n) ring h ≡ walk capacity n ring h ++ ring (index_on capacity n h) ∷ []
  walk_snoc capacity zero ring h = refl
  walk_snoc capacity (suc n) ring h =
      ap (λ xs. ring h ∷ xs) (walk_snoc capacity n ring (advance capacity h))

  -- A write to a slot that the walk does not come to.
  pub walk-update :
      (capacity n : ℕ) (ring : ℕ → T) (h t : ℕ) (v : T)
      → ((k : ℕ) → k < n → index_on capacity k h ≢ t)
      → walk capacity n (update ring t v) h ≡ walk capacity n ring h
  walk-update capacity zero ring h t v away = refl
  walk-update capacity (suc n) ring h t v away =
      rw (walk-update capacity n ring (advance capacity h) t v (λ k lt. away (suc k) (omega arith)))
        (ap (λ x. x ∷ walk capacity n ring (advance capacity h))
          (ground (arith, away 0 (omega arith))))

  pub length-walk : (capacity n : ℕ) (ring : ℕ → T) (h : ℕ) → length (walk capacity n ring h) ≡ n
  length-walk capacity zero ring h = refl
  length-walk capacity (suc n) ring h = ap suc (length-walk capacity n ring (advance capacity h))
