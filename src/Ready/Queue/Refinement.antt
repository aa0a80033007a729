-- ===== src/Ready/Queue/Refinement.antt =====
-- The linked queue against a list: what it answers to any calls in any order.
use cyros.Common.{
  ℕ, ◌+◌, ◌≤◌, ◌<◌, ◌≡◌, refl, ◌∙◌, Bool, true, false, Option, none, some, List, [], ◌∷◌, ◌++◌, ◌⊎◌,
  inl, inr, arith, ◌==◌, if◌then◌else◌, count, erase, length, Bool-cases, ◌>>=◌, count-append,
  count-erase,
}
use cyros.Ready.Queue.{Queue, Pointer, is_enqueued, push_back, push_front, pop_front, remove}
use cyros.Ready.Queue.Chain.{Holds, Files, not_enqueued_outside}
use cyros.Ready.Queue.Push.{push_back-Files, push_front-Files, pop_front-Pops}
use cyros.Ready.Queue.Remove.{remove-Removes}

pub data QueueCall : Type 0 where
  pushes_back : ℕ → QueueCall
  pushes_front : ℕ → QueueCall
  pops : QueueCall
  removes : ℕ → QueueCall

pub data Answer : Type 0 where
  pushed : Answer
  popped : Pointer → Answer
  removed : Bool → Answer

-- A call on the links; `none` is the assert on a thread that is enqueued already.
abbrev pub call_queue : ℕ → QueueCall → Queue → Option (Answer × Queue)
call_queue fuel (pushes_back t) q = do q' ← push_back t q; some (pushed, q')
call_queue fuel (pushes_front t) q = do q' ← push_front t q; some (pushed, q')
call_queue fuel pops q = some (popped (pop_front q).0, (pop_front q).1)
call_queue fuel (removes t) q = do r ← remove fuel t q; some (removed r.0, r.1)

abbrev pub queue_answers : ℕ → List QueueCall → Queue → Option (List Answer)
queue_answers fuel [] q = some []
queue_answers fuel (call ∷ calls) q = do
  r ← call_queue fuel call q
  answers ← queue_answers fuel calls r.1
  some (r.0 ∷ answers)

-- The same calls on a list.
abbrev pub first_of : List ℕ → Answer × List ℕ
first_of [] = (popped none, [])
first_of (x ∷ xs) = (popped (some x), xs)

abbrev pub call_list : QueueCall → List ℕ → Option (Answer × List ℕ)
call_list (pushes_back t) xs = if count t xs == 0 then some (pushed, xs ++ t ∷ []) else none
call_list (pushes_front t) xs = if count t xs == 0 then some (pushed, t ∷ xs) else none
call_list pops xs = some (first_of xs)
call_list (removes t) xs =
    if count t xs == 0 then some (removed false, xs) else some (removed true, erase t xs)

abbrev pub list_answers : List QueueCall → List ℕ → Option (List Answer)
list_answers [] xs = some []
list_answers (call ∷ calls) xs = do
  r ← call_list call xs
  answers ← list_answers calls r.1
  some (r.0 ∷ answers)

-- The queue holds the list, and every thread outside carries the sentinel.
pub record Spells (q : Queue) (xs : List ℕ) : Type 0 where
  pub holds : Holds q xs
  pub outside : (t : ℕ) → count t xs ≡ 0 → is_enqueued q t ≡ false

-- A call and its specification are both refused, or give one answer and go on together.
abbrev Agrees : (length_before : ℕ) → Option (Answer × Queue) → Option (Answer × List ℕ) → Type 0
Agrees n r r' =
    ((r ≡ none) × (r' ≡ none))
    ⊎ ((a : Answer) × (q : Queue) × (xs : List ℕ) × (r ≡ some (a, q))
        × (r' ≡ some (a, xs))
        × Spells q xs
        × (length xs ≤ n + 1))

same_link : (q q' : Queue) (t : ℕ) → q'.next t ≡ q.next t → is_enqueued q' t ≡ is_enqueued q t
unfolding is_enqueued
same_link q q' t e = rw e refl

-- A thread in the list carries no sentinel.
enqueued_inside :
    (q : Queue) (xs : List ℕ) (t : ℕ)
    → Spells q xs
    → (count t xs == 0) ≡ false
    → is_enqueued q t ≡ true
enqueued_inside q xs t s inside = elim (Bool-cases (is_enqueued q t)) [
  | inl yes' ↦ yes'
  | inr fresh ↦ absurd (ground (arith, not_enqueued_outside t q xs s.holds fresh))
]

-- What an operation of this reach leaves outside, where the threads that enter or leave are `t`.
Files-Spells :
    (t : ℕ) (reach xs ys : List ℕ) (q q' : Queue)
    → Spells q xs
    → Files reach ys q q'
    → ((u : ℕ) → count u ys ≡ 0 → (u ≡ t) ⊎ ((count u reach ≡ 0) × (count u xs ≡ 0)))
    → (count t ys ≡ 0 → is_enqueued q' t ≡ false)
    → Spells q' ys
Files-Spells t reach xs ys q q' s f other self = record {
  holds = f.holds;
  outside = λ u out. elim (other u out) [
    | inl same ↦ rw same (self (rw same at out))
    | inr away ↦ same_link q q' u (f.frame u away.0) ∙ s.outside u away.1
  ];
}

length-snoc : (xs : List ℕ) (t : ℕ) → length (xs ++ t ∷ []) ≡ length xs + 1
length-snoc [] t = refl
length-snoc (x ∷ xs) t = omega (arith, length-snoc xs t)

length-erase : (t : ℕ) (xs : List ℕ) → length (erase t xs) ≤ length xs
unfolding erase
length-erase t [] = omega arith
length-erase t (x ∷ xs) = ground (arith, length-erase t xs)

push_back-refused : (t : ℕ) (q : Queue) → is_enqueued q t ≡ true → push_back t q ≡ none
unfolding push_back
push_back-refused t q e = rw e refl

push_front-refused : (t : ℕ) (q : Queue) → is_enqueued q t ≡ true → push_front t q ≡ none
unfolding push_front
push_front-refused t q e = rw e refl

push_back-Agrees :
    (fuel t : ℕ) (q : Queue) (xs : List ℕ)
    → Spells q xs
    → Agrees (length xs) (call_queue fuel (pushes_back t) q) (call_list (pushes_back t) xs)
push_back-Agrees fuel t q xs s = elim (Bool-cases (count t xs == 0)) [
  | inl out ↦
      let (q', e, files) = push_back-Files t q xs s.holds (s.outside t (ground arith)) in
      inr (
        pushed,
        q',
        xs ++ t ∷ [],
        rw e refl,
        rw out refl,
        Files-Spells t (xs ++ t ∷ []) xs (xs ++ t ∷ []) q q' s files
            (λ u away. inr (away, ground (arith, count-append u xs (t ∷ []))))
            (λ away. absurd (unfold count in ground (arith, count-append t xs (t ∷ [])))),
        omega (arith, length-snoc xs t),
      )
  | inr inside ↦
      inl (rw (push_back-refused t q (enqueued_inside q xs t s inside)) refl, rw inside refl)
]

push_front-Agrees :
    (fuel t : ℕ) (q : Queue) (xs : List ℕ)
    → Spells q xs
    → Agrees (length xs) (call_queue fuel (pushes_front t) q) (call_list (pushes_front t) xs)
unfolding count
push_front-Agrees fuel t q xs s = elim (Bool-cases (count t xs == 0)) [
  | inl out ↦
      let (q', e, files) = push_front-Files t q xs s.holds (s.outside t (ground arith)) in
      inr (
        pushed,
        q',
        t ∷ xs,
        rw e refl,
        rw out refl,
        Files-Spells t (t ∷ []) xs (t ∷ xs) q q' s files
            (λ u away. inr (ground arith, ground arith)) (λ away. absurd (ground arith)),
        omega arith,
      )
  | inr inside ↦
      inl (rw (push_front-refused t q (enqueued_inside q xs t s inside)) refl, rw inside refl)
]

pop_front-Agrees :
    (fuel : ℕ) (q : Queue) (xs : List ℕ)
    → Spells q xs
    → Agrees (length xs) (call_queue fuel pops q) (call_list pops xs)
unfolding count
pop_front-Agrees fuel q [] s =
    let e = pop_front-Pops q [] s.holds in inr (popped none, q, [], rw e refl, refl, s, omega arith)
pop_front-Agrees fuel q (x ∷ xs) s =
    let (e, files, gone) = pop_front-Pops q (x ∷ xs) s.holds in
    inr (
      popped (some x),
      (pop_front q).1,
      xs,
      rw e refl,
      refl,
      Files-Spells x (x ∷ xs) (x ∷ xs) xs q (pop_front q).1 s files (λ u away. apart u away)
          (λ away. gone),
      omega arith,
    )
  where
    apart : (u : ℕ) → count u xs ≡ 0 → (u ≡ x) ⊎ ((count u (x ∷ xs) ≡ 0) × (count u (x ∷ xs) ≡ 0))
    apart u away = elim (Bool-cases (x == u)) [
      | inl same ↦ inl (ground arith)
      | inr other ↦ inr (ground arith, ground arith)
    ]

remove-Agrees :
    (fuel t : ℕ) (q : Queue) (xs : List ℕ)
    → Spells q xs
    → length xs < fuel
    → Agrees (length xs) (call_queue fuel (removes t) q) (call_list (removes t) xs)
remove-Agrees fuel t q xs s lt = elim (remove-Removes fuel t q xs s.holds lt) [
  | inl (out, e) ↦ inr (removed false, q, xs, rw e refl, ground arith, s, omega arith)
  | inr (q', e, files, gone, held) ↦ elim (Bool-cases (count t xs == 0)) [
    | inl out ↦ absurd (ground arith)
    | inr inside ↦ inr (
      removed true,
      q',
      erase t xs,
      rw e refl,
      rw inside refl,
      Files-Spells t xs xs (erase t xs) q q' s files (λ u away. apart u away) (λ away. gone),
      omega (arith, length-erase t xs),
    )
  ]
]
  where
    apart : (u : ℕ) → count u (erase t xs) ≡ 0 → (u ≡ t) ⊎ ((count u xs ≡ 0) × (count u xs ≡ 0))
    apart u away = elim (Bool-cases (u == t)) [
      | inl same ↦ inl (ground arith)
      | inr other ↦ inr (ground (arith, count-erase t u xs), ground (arith, count-erase t u xs))
    ]

call_queue-Agrees :
    (fuel : ℕ) (call : QueueCall) (q : Queue) (xs : List ℕ)
    → Spells q xs
    → length xs < fuel
    → Agrees (length xs) (call_queue fuel call q) (call_list call xs)
call_queue-Agrees fuel (pushes_back t) q xs s lt = push_back-Agrees fuel t q xs s
call_queue-Agrees fuel (pushes_front t) q xs s lt = push_front-Agrees fuel t q xs s
call_queue-Agrees fuel pops q xs s lt = pop_front-Agrees fuel q xs s
call_queue-Agrees fuel (removes t) q xs s lt = remove-Agrees fuel t q xs s lt

-- Whatever calls of push_back, push_front, pop_front and remove follow one another, on a queue whose
-- links spell a list and outside of which every thread carries the sentinel, and with fuel for the
-- threads and the calls: the answers are those of the list, to whose ends a thread is added that it
-- does not hold, whose first is taken off, and out of which a thread is taken that it holds; an
-- assert fires exactly where a thread is added that the list holds.
pub queue_answers-list_answers :
    (fuel : ℕ) (calls : List QueueCall) (q : Queue) (xs : List ℕ)
    → Spells q xs
    → length xs + length calls < fuel
    → queue_answers fuel calls q ≡ list_answers calls xs
queue_answers-list_answers fuel [] q xs s lt = refl
queue_answers-list_answers fuel (call ∷ calls) q xs s lt =
    elim (call_queue-Agrees fuel call q xs s (omega arith)) [
      | inl (e, e') ↦ rw (e, e') refl
      | inr (a, q', xs', e, e', s', few) ↦
          rw (e, e', queue_answers-list_answers fuel calls q' xs' s' (omega arith)) refl
    ]
