-- ===== src/Common/Bits.antt =====
-- Single bits of an unsigned word, by its binary digits: what `(x >> p) & 1`, `x |= 1u << p`,
-- `x &= ~(1u << p)`, `x ^= 1u << p` and `std::countr_zero` do for a bit position below the width.
use native.Mathlib.Nat.{pow-suc, one-le-pow}
use cyros.Common.{
  ℕ, zero, suc, ◌+◌, ◌*◌, ◌/◌, ◌%◌, ◌^◌, ◌≤◌, ◌<◌, ◌≡◌, ◌≢◌, refl, Bool, true, false, not, arith,
  ◌==◌, if◌then◌else◌,
}

unfoldable pub test_bit : ℕ → ℕ → Bool
test_bit zero n = n % 2 == 1
test_bit (suc p) n = test_bit p (n / 2)

-- Bit `p` set to the value of `f` at it; the others stay.
unfoldable pub change_bit : (Bool → Bool) → ℕ → ℕ → ℕ
change_bit f zero n = n / 2 * 2 + (if f (n % 2 == 1) then 1 else 0)
change_bit f (suc p) n = n % 2 + 2 * change_bit f p (n / 2)

abbrev pub set_bit : ℕ → ℕ → ℕ
set_bit = change_bit (λ b. true)

abbrev pub clear_bit : ℕ → ℕ → ℕ
clear_bit = change_bit (λ b. false)

abbrev pub flip_bit : ℕ → ℕ → ℕ
flip_bit = change_bit not

-- The number of zeros below the lowest one; `width` for the word zero.
unfoldable pub countr_zero : ℕ → ℕ → ℕ
countr_zero zero n = 0
countr_zero (suc width) n =
    let rest = countr_zero width (n / 2) in if n % 2 == 1 then 0 else suc rest

pub test_bit-change :
    (f : Bool → Bool) (p q n : ℕ)
    → test_bit q (change_bit f p n) ≡ (if q == p then f (test_bit p n) else test_bit q n)
unfolding test_bit change_bit
test_bit-change f zero zero n = ground arith
test_bit-change f zero (suc q) n = ground (arith)
test_bit-change f (suc p) zero n = ground arith
test_bit-change f (suc p) (suc q) n = ground (arith, test_bit-change f p q (n / 2))

pub test_bit-zero : (p : ℕ) → test_bit p 0 ≡ false
unfolding test_bit
test_bit-zero zero = refl
test_bit-zero (suc p) = test_bit-zero p

abbrev half_lt : (width n : ℕ) → n < 2 ^ suc width → n / 2 < 2 ^ width
half_lt width n h = omega (arith, pow-suc 2 width)

-- A word below `2 ^ width` with no bit set is zero.
pub eq_zero_of_test_bit : (width n : ℕ) → n < 2 ^ width → ((p : ℕ) → test_bit p n ≡ false) → n ≡ 0
unfolding test_bit
eq_zero_of_test_bit zero n h none_set = omega arith
eq_zero_of_test_bit (suc width) n h none_set = ground (
  arith,
  none_set 0,
  eq_zero_of_test_bit width (n / 2) (half_lt width n h) (λ (p : ℕ). none_set (suc p)),
)

-- Changing a bit inside the width keeps the word inside it.
pub change_bit-lt :
    (f : Bool → Bool) (width p n : ℕ) → p < width → n < 2 ^ width → change_bit f p n < 2 ^ width
unfolding change_bit
change_bit-lt f zero p n hp h = elim hp [ ]
change_bit-lt f (suc width) zero n hp h = ground (arith, pow-suc 2 width)
change_bit-lt f (suc width) (suc p) n hp h =
    omega
      (arith, pow-suc 2 width, change_bit-lt f width p (n / 2) (omega arith) (half_lt width n h))

-- Where some bit is set, `countr_zero` is the position of the lowest one.
pub countr_zero_lem :
    (width n q : ℕ)
    → q < width
    → test_bit q n ≡ true
    → (test_bit (countr_zero width n) n ≡ true) × (countr_zero width n ≤ q)
unfolding countr_zero test_bit
countr_zero_lem zero n q hq h = elim hq [ ]
countr_zero_lem (suc width) n zero hq h = ground arith
countr_zero_lem (suc width) n (suc q) hq h =
    ground (arith, countr_zero_lem width (n / 2) q (omega arith) h)

mod-pow-suc : (m n : ℕ) → 0 < m → n % (m * 2) ≡ n % 2 + 2 * (n / 2 % m)
mod-pow-suc m n h = grind arith

low_bits-suc : (p n : ℕ) → n % 2 ^ suc p ≡ n % 2 + 2 * (n / 2 % 2 ^ p)
low_bits-suc p n = rw pow-suc (mod-pow-suc (2 ^ p) n (one-le-pow p 2 (omega arith)))

-- `n & ((1u << p) - 1u)` is zero exactly where no bit below `p` is set.
pub low_bits_set : (p q n : ℕ) → q < p → test_bit q n ≡ true → n % 2 ^ p ≢ 0
unfolding test_bit
low_bits_set zero q n hq h = elim hq [ ]
low_bits_set (suc p) zero n hq h = ground (arith, low_bits-suc p n)
low_bits_set (suc p) (suc q) n hq h =
    omega (arith, low_bits-suc p n, low_bits_set p q (n / 2) (omega arith) h)

pub low_bits_clear : (p n : ℕ) → ((q : ℕ) → q < p → test_bit q n ≡ false) → n % 2 ^ p ≡ 0
unfolding test_bit
low_bits_clear zero n clear = omega arith
low_bits_clear (suc p) n clear = ground (
  arith,
  low_bits-suc p n,
  clear 0 (omega arith),
  low_bits_clear p (n / 2) (λ (q : ℕ) (h : q < p). clear (suc q) (omega arith)),
)

-- The lowest set bit of a word that is not zero lies inside its width.
pub countr_zero_set :
    (width n : ℕ)
    → n < 2 ^ width
    → n ≢ 0
    → (test_bit (countr_zero width n) n ≡ true) × (countr_zero width n < width)
unfolding countr_zero test_bit
countr_zero_set zero n h nz = absurd (nz (omega arith))
countr_zero_set (suc width) n h nz =
    ground (arith, countr_zero_set width (n / 2) (half_lt width n h))
