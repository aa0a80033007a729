-- ===== src/Time/Conversion.antt =====
-- Milliseconds and ticks.
use native.Mathlib.Nat.{mul-le-mul, div-eq_of_lt-le}
use cyros.Common.{ℕ, ◌+◌, ◌*◌, ◌/◌, ◌%◌, ◌^◌, ◌≤◌, ◌<◌, ◌≡◌, arith}
use cyros.Time.Timetable.{ceil_div}
use cyros.Time.Tickless.{from_milliseconds, to_milliseconds}

product_small : (a b : ℕ) → a < 2 ^ 32 → b < 2 ^ 32 → a * b + 4295967296 < 2 ^ 64
product_small a b h k = omega (
  arith,
  mul-le-mul {n₁ = a} {m₁ = b} {n₂ = 4294967295} {m₂ = 4294967295} (omega arith) (omega arith),
)

-- No intermediate of the conversion passes its 64 bits, and the ticks are the fewest that last `ms` milliseconds.
pub from_milliseconds-bounds :
    (hz ms : ℕ)
    → hz < 2 ^ 32
    → ms < 2 ^ 32
    → (ms * hz ≤ from_milliseconds hz ms * 1000) × (from_milliseconds hz ms * 1000 < ms * hz + 1000)
unfolding from_milliseconds ceil_div
from_milliseconds-bounds hz ms h k = omega (arith, product_small ms hz k h)

-- From 1999 ticks a second up, a whole number of milliseconds comes back from its ticks.
pub to_milliseconds-from_milliseconds :
    (hz ms : ℕ)
    → 1999 ≤ hz
    → hz < 2 ^ 32
    → ms < 2 ^ 32
    → to_milliseconds hz (from_milliseconds hz ms) ≡ ms
unfolding to_milliseconds
to_milliseconds-from_milliseconds hz ms fine h k =
    rounded (from_milliseconds hz ms) (from_milliseconds-bounds hz ms h k)
  where
    rounded :
        (d : ℕ)
        → (ms * hz ≤ d * 1000) × (d * 1000 < ms * hz + 1000)
        → (d * 1000 % 2 ^ 64 + hz / 2) % 2 ^ 64 / hz ≡ ms
    rounded d (lo, hi) =
        let small = product_small ms hz k h in
        let plain : (d * 1000 % 2 ^ 64 + hz / 2) % 2 ^ 64 ≡ d * 1000 + hz / 2 = omega arith in
        rw plain (div-eq_of_lt-le {k = ms} hz (omega arith) (grind arith))
