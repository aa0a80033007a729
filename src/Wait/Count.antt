-- ===== src/Wait/Count.antt =====
-- Sums over the threads.
use cyros.Common.{ℕ, zero, suc, ◌+◌, ◌<◌, ◌≡◌, ◌≢◌, refl, arith, ◌==◌, Bool-cases, inl, inr}

unfoldable pub total : ℕ → (ℕ → ℕ) → ℕ
total zero f = 0
total (suc n) f = total n f + f n

pub total-same : (n : ℕ) (f g : ℕ → ℕ) → ((t : ℕ) → t < n → f t ≡ g t) → total n f ≡ total n g
unfolding total
total-same zero f g h = refl
total-same (suc n) f g h =
    omega (arith, total-same n f g (λ t lt. h t (omega arith)), h n (omega arith))

-- A sum of which one term changes.
pub total-change :
    (n t : ℕ) (f g : ℕ → ℕ)
    → t < n
    → ((u : ℕ) → u ≢ t → f u ≡ g u)
    → total n g + f t ≡ total n f + g t
unfolding total
total-change zero t f g lt h = elim lt [ ]
total-change (suc n) t f g lt h = elim (Bool-cases (n == t)) [
  | inl last ↦
      let e : n ≡ t = ground arith in
      let rest = total-same t f g (λ u less. h u (λ same. absurd (omega arith))) in
      rw e (omega (arith, rest))
  | inr earlier ↦
      omega (arith, total-change n t f g (ground arith) h, h n (λ same. absurd (ground arith)))
]

pub total-zero : (n : ℕ) (f : ℕ → ℕ) → ((t : ℕ) → t < n → f t ≡ 0) → total n f ≡ 0
unfolding total
total-zero zero f h = refl
total-zero (suc n) f h =
    omega (arith, total-zero n f (λ t lt. h t (omega arith)), h n (omega arith))
