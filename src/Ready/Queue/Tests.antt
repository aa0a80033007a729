-- ===== src/Ready/Queue/Tests.antt =====
-- The ready queue on a concrete queue of two threads.
use cyros.Common.{
  ◌≡◌, refl, true, false, none, some, [], ◌∷◌, arith, ◌==◌, if◌then◌else◌, count, erase, List,
}
use cyros.Ready.Queue.{Queue, is_enqueued}
use cyros.Ready.Queue.Chain.{Holds}
use cyros.Ready.Queue.Refinement.{
  QueueCall, pushes_back, pushes_front, pops, removes, pushed, popped, removed, queue_answers,
  list_answers, Spells, queue_answers-list_answers,
}

-- Threads 1 and 2, in that order; every other carries the sentinel.
abbrev two : Queue
two = record {
  next = λ t. if t == 1 then some 2 else if t == 2 then none else some t;
  head = some 1;
  tail = some 2;
}

two-Holds : Holds two (1 ∷ 2 ∷ [])
unfolding count
two-Holds = record { chain = (refl, (refl, refl)); ends = refl; distinct = (refl, (refl, tt)) }

two-Spells : Spells two (1 ∷ 2 ∷ [])
unfolding is_enqueued count
two-Spells = record { holds = two-Holds; outside = λ t out. ground arith }

abbrev calls : List QueueCall
calls = pushes_back 3 ∷ removes 2 ∷ pops ∷ pushes_front 2 ∷ removes 7 ∷ []

queue_answers-list_answers_example : queue_answers 8 calls two ≡ list_answers calls (1 ∷ 2 ∷ [])
queue_answers-list_answers_example =
    queue_answers-list_answers 8 calls two (1 ∷ 2 ∷ []) two-Spells (omega arith)

all_answered :
    list_answers calls (1 ∷ 2 ∷ [])
    ≡ some (pushed ∷ removed true ∷ popped (some 1) ∷ pushed ∷ removed false ∷ [])
unfolding count erase
all_answered = refl
