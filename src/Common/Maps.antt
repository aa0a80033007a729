-- ===== src/Common/Maps.antt =====
-- Stores and arrays as functions, and how often a thread stands in a list.
use Prim.Native.Nat.{ℕ, suc, ◌+◌}
use mathlib.Core.Path.{◌≡◌, refl}
use mathlib.Core.Bool.{Bool, true, false}
use mathlib.Core.List.{List, [], ◌∷◌, ◌++◌}
use native.Mathlib.Omega.{arith}
use cyros.Common.Tests.{◌==◌, if◌then◌else◌}

-- `a[i] = v`, and every other entry as it was.
abbrev pub update {ℓ} : {A : Type ℓ} → (ℕ → A) → ℕ → A → ℕ → A
update f i v j = if j == i then v else f j

abbrev pub is_empty {ℓ} : {A : Type ℓ} → List A → Bool
is_empty [] = true
is_empty (x ∷ xs) = false

abbrev pub length {ℓ} : {A : Type ℓ} → List A → ℕ
length [] = 0
length (x ∷ xs) = suc (length xs)

unfoldable pub count : ℕ → List ℕ → ℕ
count t [] = 0
count t (x ∷ xs) = (if x == t then 1 else 0) + count t xs

-- The list without the first `t`.
unfoldable pub erase : ℕ → List ℕ → List ℕ
erase t [] = []
erase t (x ∷ xs) = if x == t then xs else x ∷ erase t xs

pub count-append : (t : ℕ) (xs ys : List ℕ) → count t (xs ++ ys) ≡ count t xs + count t ys
unfolding count
count-append t [] ys = omega arith
count-append t (x ∷ xs) ys = omega (arith, count-append t xs ys)

-- Erasing takes away one occurrence where there is one.
pub count-erase :
    (t u : ℕ) (xs : List ℕ)
    → count u (erase t xs) + (if u == t then (if count t xs == 0 then 0 else 1) else 0) ≡ count u xs
unfolding count erase
count-erase t u [] = ground arith
count-erase t u (x ∷ xs) = ground (arith, count-erase t u xs)

pub is_empty-append_one : (xs : List ℕ) (t : ℕ) → is_empty (xs ++ t ∷ []) ≡ false
is_empty-append_one [] t = refl
is_empty-append_one (x ∷ xs) t = refl
