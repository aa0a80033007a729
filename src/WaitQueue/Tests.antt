-- ===== src/WaitQueue/Tests.antt =====
-- The wait queue on concrete waiters, whose base priority is the tens of their number.
use cyros.Common.{ℕ, ◌/◌, ◌≡◌, Bool, some, ltb, List, [], ◌∷◌, ◌++◌, arith}
use cyros.WaitQueue.{link}
use cyros.WaitQueue.Batch.{wake_all_where, accepted, others, wake_all_where_lem}
use cyros.WaitQueue.Order.{Sorted, ahead, behind, link_lem}

abbrev tens : ℕ → ℕ
tens t = t / 10

abbrev waiters : List ℕ
waiters = 10 ∷ 25 ∷ 21 ∷ 30 ∷ []

waiters-Sorted : Sorted tens waiters
waiters-Sorted = (omega arith, (omega arith, (omega arith, tt)))

link_lem_example : link tens 23 waiters ≡ ahead tens 23 waiters ++ 23 ∷ behind tens 23 waiters
link_lem_example = link_lem tens 23 waiters waiters-Sorted

abbrev above_twenty : ℕ → Bool
above_twenty t = ltb 20 t

wake_all_where_lem_example :
    wake_all_where above_twenty 5 waiters
    ≡ some (accepted above_twenty waiters, others above_twenty waiters)
wake_all_where_lem_example = wake_all_where_lem above_twenty 5 waiters (omega arith)
