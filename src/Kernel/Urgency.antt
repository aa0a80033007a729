-- ===== src/Kernel/Urgency.antt =====
-- The fold that defines a thread's effective priority: donated_floor, urgency_at, urgency,
-- wait_queue::top (src/kernel/waitable.cpp, scheduler.hpp) and base_mutex::urgency_contribution
-- (src/kernel/base_mutex.cpp). A smaller number is more urgent.
pub mod Bounds
pub mod Inheritance
use cyros.Common.{
  ℕ, zero, suc, ◌+◌, ◌<◌, Bool, true, false, ◌&&◌, ◌||◌, not, Option, none, some, List, [], ◌∷◌,
  ◌==◌, leb, if◌then◌else◌, min, points_to,
}
use cyros.Common.Bits.{countr_zero, clear_bit}
use cyros.Kernel.Thread.{holds_nothing}
use cyros.Kernel.Store.{Store, Mutex, uses_ceiling}

abbrev pub max_inheritance_depth : ℕ
max_inheritance_depth = 8

abbrev pub max_snapshot : ℕ
max_snapshot = 4

-- The waiters that hold something and are not the owner itself, in the queue's order.
pub bridges : Store → Option ℕ → List ℕ → List ℕ
bridges s owner [] = []
bridges s owner (w ∷ ws) =
    let rest = bridges s owner ws in
    if holds_nothing (s.tcb w) then rest else if points_to owner w then rest else w ∷ rest

-- `best = std::min(best, urgency_at(bridge, depth - 1))` over the snapshot.
pub best_of : (ℕ → ℕ) → ℕ → List ℕ → ℕ
best_of urgency_of best [] = best
best_of urgency_of best (w ∷ ws) = best_of urgency_of (min best (urgency_of w)) ws

abbrev too_many : List ℕ → Bool
too_many (a ∷ b ∷ c ∷ d ∷ e ∷ ws) = true
too_many _ = false

-- The answer of a queue that may hold bridges. The budget is `none` at depth 0, and `some f` at a
-- depth whose next lower one answers `f`.
bridged_top : Store → Option (ℕ → ℕ) → Mutex → ℕ
bridged_top s none m = 0
bridged_top s (some urgency_of) m =
    if too_many (bridges s m.owner m.queue)
    then 0
    else best_of urgency_of m.top_priority (bridges s m.owner m.queue)

-- wait_queue::top
pub top : Store → Option (ℕ → ℕ) → Mutex → ℕ
unfolding bridges best_of bridged_top
top s budget m = if m.may_have_bridges then bridged_top s budget m else m.top_priority

pub urgency_contribution : Store → Option (ℕ → ℕ) → ℕ → ℕ
unfolding top
urgency_contribution s budget k =
    let from_queue = top s budget (s.mutex k) in
    if uses_ceiling (s.mutex k) then min (s.mutex k).ceiling_priority from_queue else from_queue

-- `if (held == nullptr) continue; floor = std::min(contribution, floor);`
lower_floor : (ℕ → ℕ) → Option ℕ → ℕ → ℕ
lower_floor contribution none floor = floor
lower_floor contribution (some k) floor = min (contribution k) floor

-- The loop over the set bits of the mask, the lowest first. The mask is a uint8_t and a round
-- clears a bit, so eight rounds are enough.
pub fold_held : ℕ → (ℕ → ℕ) → (ℕ → Option ℕ) → ℕ → ℕ → ℕ
unfolding lower_floor
fold_held zero contribution slots mask floor = floor
fold_held (suc rounds) contribution slots mask floor =
    let slot = countr_zero 8 mask in
    let rest =
      fold_held rounds contribution slots (clear_bit slot mask)
        (lower_floor contribution (slots slot) floor) in
    if mask == 0 then floor else rest

pub donated_floor : Store → Option (ℕ → ℕ) → ℕ → ℕ
unfolding fold_held urgency_contribution
donated_floor s budget t =
    if (s.tcb t).held_mask == 0
    then (s.tcb t).base_priority
    else fold_held 8 (urgency_contribution s budget) (s.tcb t).held_slots (s.tcb t).held_mask
        (s.tcb t).base_priority

pub urgency_at : ℕ → Store → ℕ → ℕ
urgency_at zero s t = donated_floor s none t
urgency_at (suc depth) s t = donated_floor s (some (urgency_at depth s)) t

pub urgency : Store → ℕ → ℕ
urgency s t =
    if (s.tcb t).held_mask == 0
    then (s.tcb t).base_priority
    else urgency_at max_inheritance_depth s t
