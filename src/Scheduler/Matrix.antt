-- ===== src/Scheduler/Matrix.antt =====
-- thread_ready_matrix (src/kernel/threading_subsystem.hpp and .cpp): a queue for each priority, here
-- the list of threads that Ready.Queue shows its links to spell, and a bitmap of the levels that
-- are not empty. The array is a function of the level; callers assert that a level is in range.
pub mod Laws
use cyros.Common.{
  ℕ, ◌%◌, ◌^◌, Bool, true, false, not, Option, none, some, List, [], ◌∷◌, ◌++◌, ◌==◌, if◌then◌else◌,
  update, is_empty, erase,
}
use cyros.Common.Bits.{set_bit, clear_bit, countr_zero}

pub record Matrix : Type 0 where
  pub levels : ℕ → List ℕ
  pub bitmap : ℕ

-- `(bitmap & ((1u << priority) - 1u)) != 0u`
unfoldable pub has_more_urgent_than : ℕ → Matrix → Bool
has_more_urgent_than priority m = not (m.bitmap % 2 ^ priority == 0)

-- `-1` is `none`.
unfoldable pub best_priority : Matrix → Option ℕ
best_priority m = if m.bitmap == 0 then none else some (countr_zero 32 m.bitmap)

unfoldable pub file_back : ℕ → ℕ → Matrix → Matrix
file_back priority t m = record {
  levels = update m.levels priority (m.levels priority ++ t ∷ []);
  bitmap = set_bit priority m.bitmap;
}

unfoldable pub file_front : ℕ → ℕ → Matrix → Matrix
file_front priority t m = record {
  levels = update m.levels priority (t ∷ m.levels priority);
  bitmap = set_bit priority m.bitmap;
}

-- The level, when it has become `rest`.
unfoldable pub shrink : ℕ → List ℕ → Matrix → Matrix
shrink priority rest m = record {
  levels = update m.levels priority rest;
  bitmap = if is_empty rest then clear_bit priority m.bitmap else m.bitmap;
}

unfoldable pub pop_level : ℕ → List ℕ → Matrix → Option ℕ × Matrix
unfolding shrink
pop_level priority [] m = (none, shrink priority [] m)
pop_level priority (t ∷ rest) m = (some t, shrink priority rest m)

unfoldable pub pop_best : Matrix → Option ℕ × Matrix
unfolding pop_level
pop_best m =
    let priority = countr_zero 32 m.bitmap in
    if m.bitmap == 0 then (none, m) else pop_level priority (m.levels priority) m

unfoldable pub unfile : ℕ → ℕ → Matrix → Matrix
unfolding shrink
unfile priority t m = shrink priority (erase t (m.levels priority)) m
