-- ===== src/Scheduler/Picking.antt =====
-- The pick of the next thread, between the matrix and the holder list
-- (pick_next and pick_with_holders, src/kernel/scheduler.hpp and scheduler.cpp).
use cyros.Common.{ℕ, Option, none, some, List, [], ◌∷◌, ◌==◌, ltb, if◌then◌else◌, ◌>>=◌, is_empty}
use cyros.Common.Bits.{flip_bit, test_bit}
use cyros.Kernel.Store.{Store}
use cyros.Kernel.Urgency.{urgency}
use cyros.Scheduler.Matrix.{best_priority}
use cyros.Scheduler.Core.{Core, pop_best_thread, unlink_holder}

-- The loop of pick_with_holders: the first holder at the best urgency, and that urgency.
unfoldable pub best_holder : Store → Option ℕ → ℕ → List ℕ → Option ℕ × ℕ
best_holder s best u [] = (best, u)
best_holder s best u (h ∷ hs) =
    let v = urgency s h in
    best_holder s (if ltb v u then some h else best) (if ltb v u then v else u) hs

unfoldable pub take_holder : ℕ → Core → Option (Option ℕ × Core)
take_holder h c = do unlinked ← unlink_holder h c; some (some h, unlinked)

-- A tie between the two structures at level `base`: the rotor decides.
unfoldable pub break_tie : ℕ → ℕ → Core → Option (Option ℕ × Core)
unfolding take_holder
break_tie base h c =
    let turned = record c { tie_rotor = flip_bit base c.tie_rotor } in
    if test_bit base turned.tie_rotor then take_holder h turned else some (pop_best_thread turned)

unfoldable pub pick_against : ℕ → ℕ → Option ℕ → Core → Option (Option ℕ × Core)
unfolding take_holder break_tie
pick_against h u none c = take_holder h c
pick_against h u (some base) c =
    if ltb base u
    then some (pop_best_thread c)
    else if base == u
    then break_tie base h c
    else take_holder h c

unfoldable pub pick_among : Option ℕ × ℕ → Core → Option (Option ℕ × Core)
unfolding pick_against
pick_among (none, u) c = some (pop_best_thread c)
pick_among (some h, u) c = pick_against h u (best_priority c.matrix) c

unfoldable pub pick_with_holders : Core → Option (Option ℕ × Core)
unfolding pick_among best_holder
pick_with_holders c = pick_among (best_holder c.store none 0xff c.holders) c

unfoldable pub pick_next : Core → Option (Option ℕ × Core)
unfolding pick_with_holders
pick_next c = if is_empty c.holders then some (pop_best_thread c) else pick_with_holders c
