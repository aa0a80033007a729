-- ===== src/Ready/Queue/Chain.antt =====
-- Which list of threads the links of a thread_ready_queue spell out.
use cyros.Common.{ℕ, ◌≡◌, refl, false, none, some, List, [], ◌∷◌, arith, update, count, is_empty}
use cyros.Ready.Queue.{Queue, Pointer, is_enqueued, empty}

-- From `p` on the links run through these threads and end in nullptr.
abbrev pub Chain : (ℕ → Pointer) → Pointer → List ℕ → Type 0
Chain next p [] = p ≡ none
Chain next p (x ∷ xs) = (p ≡ some x) × Chain next (next x) xs

abbrev pub Distinct : List ℕ → Type 0
Distinct [] = Unit {0}
Distinct (x ∷ xs) = (count x xs ≡ 0) × Distinct xs

abbrev pub last : List ℕ → Pointer
last [] = none
last (x ∷ []) = some x
last (x ∷ y ∷ xs) = last (y ∷ xs)

-- The queue holds exactly these threads, head first.
pub record Holds (q : Queue) (xs : List ℕ) : Type 0 where
  pub chain : Chain q.next q.head xs
  pub ends : q.tail ≡ last xs
  pub distinct : Distinct xs

-- A write to the link of a thread outside leaves a chain as it was.
pub Chain-update :
    (next : ℕ → Pointer) (t : ℕ) (v p : Pointer) (xs : List ℕ)
    → count t xs ≡ 0
    → Chain next p xs
    → Chain (update next t v) p xs
unfolding count
Chain-update next t v p [] out c = c
Chain-update next t v p (x ∷ xs) out (e, c) = (e, ground (arith, Chain-update next t v (next x) xs))

-- A thread in a chain does not carry the sentinel, so one that carries it is not in the chain.
pub sentinel_outside :
    (next : ℕ → Pointer) (t : ℕ) (p : Pointer) (xs : List ℕ)
    → next t ≡ some t
    → Chain next p xs
    → Distinct xs
    → count t xs ≡ 0
unfolding count
sentinel_outside next t p [] self c d = refl
sentinel_outside next t p (x ∷ []) self (e, c) d = ground arith
sentinel_outside next t p (x ∷ y ∷ xs) self (e, c) (out, d) =
    ground (arith, sentinel_outside next t (next x) (y ∷ xs) self c d)

pub empty_iff : {q : Queue} (xs : List ℕ) → Holds q xs → empty q ≡ is_empty xs
unfolding empty
empty_iff [] h = ground arith
empty_iff (x ∷ xs) h = ground arith

-- What an operation of the queue leaves: the queue holds `ys`, and no link of a thread outside
-- `reach` was written.
pub record Files (reach ys : List ℕ) (before after : Queue) : Type 0 where
  pub holds : Holds after ys
  pub frame : (u : ℕ) → count u reach ≡ 0 → after.next u ≡ before.next u

is_enqueued-sentinel : (q : Queue) (t : ℕ) → is_enqueued q t ≡ false → q.next t ≡ some t
unfolding is_enqueued
is_enqueued-sentinel q t h = ground arith

pub not_enqueued_outside :
    (t : ℕ) (q : Queue) (xs : List ℕ) → Holds q xs → is_enqueued q t ≡ false → count t xs ≡ 0
not_enqueued_outside t q xs h fresh =
    sentinel_outside q.next t q.head xs (is_enqueued-sentinel q t fresh) h.chain h.distinct
