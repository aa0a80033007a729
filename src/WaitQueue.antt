-- ===== src/WaitQueue.antt =====
-- wait_queue (src/kernel/waitable.cpp): the parked threads of one resource. A thread waits with one
-- node, so the queue is the list of the waiting threads; `priority` is the owners' base priority.
pub mod Order
pub mod Batch
mod Tests
use cyros.Common.{
  ℕ, Bool, true, false, List, [], ◌∷◌, ◌==◌, ltb, leb, if◌then◌else◌, Option, none, some,
}

module _ (priority : ℕ → ℕ) where
  -- The walk from `before` to the last node as urgent as the new one or more.
  link_behind : ℕ → ℕ → List ℕ → List ℕ
  link_behind t before [] = before ∷ t ∷ []
  link_behind t before (next ∷ rest) =
      let further = link_behind t next rest in
      if leb (priority next) (priority t) then before ∷ further else before ∷ t ∷ next ∷ rest

  unfoldable pub link : ℕ → List ℕ → List ℕ
  unfolding link_behind
  link t [] = t ∷ []
  link t (first ∷ rest) =
      if ltb (priority t) (priority first) then t ∷ first ∷ rest else link_behind t first rest

-- The search for a node behind `before`: true and the list without it, or false.
unlink_behind : ℕ → ℕ → List ℕ → Bool × List ℕ
unlink_behind t before [] = (false, before ∷ [])
unlink_behind t before (next ∷ rest) =
    let further = unlink_behind t next rest in
    if next == t then (true, before ∷ rest) else (further.0, before ∷ further.1)

unfoldable pub unlink : ℕ → List ℕ → Bool × List ℕ
unfolding unlink_behind
unlink t [] = (false, [])
unlink t (first ∷ rest) = if first == t then (true, rest) else unlink_behind t first rest
