-- ===== src/Common/Words.antt =====
-- Bitwise operators on unsigned words of a width: `x & y`, `x | y`, `x & ~y`.
use cyros.Common.{
  ℕ, zero, suc, ◌+◌, ◌*◌, ◌/◌, ◌%◌, ◌<◌, ◌≡◌, refl, Bool, true, false, not, ◌&&◌, ◌||◌, arith, ◌==◌,
  if◌then◌else◌,
}
use cyros.Common.Bits.{test_bit}

unfoldable pub bitwise : (f : Bool → Bool → Bool) (width m n : ℕ) → ℕ
bitwise f zero m n = 0
bitwise f (suc width) m n =
    (if f (m % 2 == 1) (n % 2 == 1) then 1 else 0) + 2 * bitwise f width (m / 2) (n / 2)

abbrev pub and32 : ℕ → ℕ → ℕ
and32 = bitwise (λ a b. a && b) 32

abbrev pub or32 : ℕ → ℕ → ℕ
or32 = bitwise (λ a b. a || b) 32

-- `x & ~y`
abbrev pub without32 : ℕ → ℕ → ℕ
without32 = bitwise (λ a b. a && not b) 32

pub test_bit-bitwise :
    (f : Bool → Bool → Bool) (width p m n : ℕ)
    → p < width
    → test_bit p (bitwise f width m n) ≡ f (test_bit p m) (test_bit p n)
unfolding test_bit bitwise
test_bit-bitwise f zero p m n h = elim h [ ]
test_bit-bitwise f (suc width) zero m n h = ground arith
test_bit-bitwise f (suc width) (suc p) m n h =
    ground (arith, test_bit-bitwise f width p (m / 2) (n / 2) (omega arith))

-- The lowest digit of a word that is written by digits, and the rest.
odd_of_digit : (b : Bool) (x : ℕ) → ((if b then 1 else 0) + 2 * x) % 2 == 1 ≡ b
odd_of_digit true x = ground arith
odd_of_digit false x = ground arith

half_of_digit : (b : Bool) (x : ℕ) → ((if b then 1 else 0) + 2 * x) / 2 ≡ x
half_of_digit true x = omega arith
half_of_digit false x = omega arith

and_twice : (b c : Bool) → (b && c) && c ≡ b && c
and_twice true true = refl
and_twice true false = refl
and_twice false c = refl

-- Masking twice is masking once.
pub bitwise-and_twice :
    (width m n : ℕ)
    → bitwise (λ a b. a && b) width (bitwise (λ a b. a && b) width m n) n
      ≡ bitwise (λ a b. a && b) width m n
unfolding bitwise
bitwise-and_twice zero m n = refl
bitwise-and_twice (suc width) m n =
    let b = m % 2 == 1 in
    let c = n % 2 == 1 in
    let x = bitwise (λ a b. a && b) width (m / 2) (n / 2) in
    rw
      (
        odd_of_digit (b && c) x,
        half_of_digit (b && c) x,
        and_twice b c,
        bitwise-and_twice width (m / 2) (n / 2),
      )
      refl
