-- ===== src/WaitQueue/Order.antt =====
-- The order of a wait queue: by base priority, and by arrival within one priority.
use cyros.Common.{
  ℕ, ◌+◌, ◌≤◌, ◌<◌, ◌≡◌, refl, true, false, List, [], ◌∷◌, ◌++◌, arith, ◌==◌, leb, if◌then◌else◌,
  count, erase,
}
use cyros.WaitQueue.{link, link_behind, unlink, unlink_behind}

module _ (priority : ℕ → ℕ) where
  -- Nobody stands behind a less urgent waiter.
  abbrev pub Sorted : List ℕ → Type 0
  Sorted [] = Unit {0}
  Sorted (x ∷ []) = Unit {0}
  Sorted (x ∷ y ∷ xs) = (priority x ≤ priority y) × Sorted (y ∷ xs)

  -- The waiters as urgent as `t` or more, and those less urgent, each in the queue's order.
  unfoldable pub ahead : ℕ → List ℕ → List ℕ
  ahead t [] = []
  ahead t (x ∷ xs) =
      let rest = ahead t xs in if leb (priority x) (priority t) then x ∷ rest else rest

  unfoldable pub behind : ℕ → List ℕ → List ℕ
  behind t [] = []
  behind t (x ∷ xs) =
      let rest = behind t xs in if leb (priority x) (priority t) then rest else x ∷ rest

  -- In a sorted queue whose first waiter is less urgent, nobody is ahead.
  all_behind :
      (t x : ℕ) (xs : List ℕ)
      → Sorted (x ∷ xs)
      → priority t < priority x
      → (ahead t (x ∷ xs) ≡ []) × (behind t (x ∷ xs) ≡ x ∷ xs)
  unfolding ahead behind
  all_behind t x [] s h = ground arith
  all_behind t x (y ∷ xs) s h = ground (arith, all_behind t y xs s.1)

  link_behind_lem :
      (t b : ℕ) (xs : List ℕ)
      → Sorted (b ∷ xs)
      → priority b ≤ priority t
      → link_behind priority t b xs ≡ ahead t (b ∷ xs) ++ t ∷ behind t (b ∷ xs)
  unfolding link_behind ahead behind
  link_behind_lem t b [] s h = ground arith
  link_behind_lem t b (y ∷ xs) s h =
      ground (arith, link_behind_lem t y xs s.1, all_behind t y xs s.1)

  -- In a sorted queue, link puts a thread behind every waiter as urgent as it or more and ahead of
  -- every less urgent one, and keeps the order of both.
  pub link_lem :
      (t : ℕ) (xs : List ℕ) → Sorted xs → link priority t xs ≡ ahead t xs ++ t ∷ behind t xs
  unfolding link
  link_lem t [] s = unfold ahead behind in refl
  link_lem t (x ∷ xs) s = ground (arith, link_behind_lem t x xs s, all_behind t x xs s)

  pub Sorted-cons : (b : ℕ) (xs : List ℕ) → Sorted (b ∷ xs) → Sorted xs
  Sorted-cons b [] s = tt
  Sorted-cons b (x ∷ xs) s = s.1

  link_behind-Sorted :
      (t b : ℕ) (xs : List ℕ)
      → Sorted (b ∷ xs)
      → priority b ≤ priority t
      → Sorted (link_behind priority t b xs)
  unfolding link_behind
  link_behind-Sorted t b [] s h = (h, tt)
  link_behind-Sorted t b (y ∷ []) s h = ground arith
  link_behind-Sorted t b (y ∷ z ∷ xs) s h = ground (arith, link_behind-Sorted t y (z ∷ xs) s.1)

  pub link-Sorted : (t : ℕ) (xs : List ℕ) → Sorted xs → Sorted (link priority t xs)
  unfolding link
  link-Sorted t [] s = tt
  link-Sorted t (x ∷ xs) s = ground (arith, link_behind-Sorted t x xs s)

  Sorted-skip : (b c : ℕ) (xs : List ℕ) → Sorted (b ∷ c ∷ xs) → Sorted (b ∷ xs)
  Sorted-skip b c [] s = tt
  Sorted-skip b c (x ∷ xs) s = (omega arith, s.1.1)

  Sorted-erase_behind : (t b : ℕ) (xs : List ℕ) → Sorted (b ∷ xs) → Sorted (b ∷ erase t xs)
  unfolding erase
  Sorted-erase_behind t b [] s = tt
  Sorted-erase_behind t b (x ∷ xs) s =
      ground (arith, Sorted-skip b x xs s, Sorted-erase_behind t x xs s.1)

  -- A queue that a waiter leaves stays in order.
  pub erase-Sorted : (t : ℕ) (xs : List ℕ) → Sorted xs → Sorted (erase t xs)
  unfolding erase
  erase-Sorted t [] s = tt
  erase-Sorted t (x ∷ xs) s = ground (arith, Sorted-cons x xs s, Sorted-erase_behind t x xs s)

  -- The first waiter of a queue in order is the most urgent one.
  pub Sorted-first :
      (x w : ℕ) (xs : List ℕ) → Sorted (x ∷ xs) → 0 < count w (x ∷ xs) → priority x ≤ priority w
  unfolding count
  Sorted-first x w [] s h = ground arith
  Sorted-first x w (y ∷ xs) s h = ground (arith, Sorted-first y w xs s.1)

  count-link_behind :
      (t b w : ℕ) (xs : List ℕ)
      → count w (link_behind priority t b xs) ≡ count w (b ∷ xs) + (if w == t then 1 else 0)
  unfolding count link_behind
  count-link_behind t b w [] = ground arith
  count-link_behind t b w (y ∷ xs) = ground (arith, count-link_behind t y w xs)

  -- link adds the one thread and loses none.
  pub count-link :
      (t w : ℕ) (xs : List ℕ)
      → count w (link priority t xs) ≡ count w xs + (if w == t then 1 else 0)
  unfolding count link
  count-link t w [] = ground arith
  count-link t w (x ∷ xs) = ground (arith, count-link_behind t x w xs)

unlink_behind_lem :
    (t b : ℕ) (xs : List ℕ)
    → unlink_behind t b xs ≡ (if count t xs == 0 then (false, b ∷ xs) else (true, b ∷ erase t xs))
unfolding unlink_behind count erase
unlink_behind_lem t b [] = ground arith
unlink_behind_lem t b (y ∷ xs) = ground (arith, unlink_behind_lem t y xs)

-- unlink answers whether the thread was queued; it takes out its first node, and changes nothing
-- where there is none.
pub unlink_lem :
    (t : ℕ) (xs : List ℕ)
    → unlink t xs ≡ (if count t xs == 0 then (false, xs) else (true, erase t xs))
unfolding unlink count erase
unlink_lem t [] = ground arith
unlink_lem t (x ∷ xs) = ground (arith, unlink_behind_lem t x xs)
