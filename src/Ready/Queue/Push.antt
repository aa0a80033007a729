-- ===== src/Ready/Queue/Push.antt =====
-- push_back, push_front and pop_front against the list of the threads that the queue holds.
use cyros.Common.{
  ℕ, ◌<◌, ◌≡◌, ◌≢◌, refl, sym, ap, ◌∙◌, false, none, some, List, [], ◌∷◌, ◌++◌, arith, update,
  count, count-append,
}
use cyros.Ready.Queue.{
  Queue, Pointer, is_enqueued, append_at, tail_or, tail_after, pop_head, push_back, push_front,
  pop_front,
}
use cyros.Ready.Queue.Chain.{
  Chain, Distinct, last, Holds, Files, Chain-update, not_enqueued_outside,
}

Distinct-snoc : (t : ℕ) (xs : List ℕ) → count t xs ≡ 0 → Distinct xs → Distinct (xs ++ t ∷ [])
unfolding count
Distinct-snoc t [] out d = omega arith
Distinct-snoc t (x ∷ xs) out d = ground (arith, Distinct-snoc t xs, count-append x xs (t ∷ []))

pub last-snoc : (t : ℕ) (xs : List ℕ) → last (xs ++ t ∷ []) ≡ some t
last-snoc t [] = refl
last-snoc t (x ∷ []) = refl
last-snoc t (x ∷ y ∷ xs) = last-snoc t (y ∷ xs)

pub last-mem : (l : ℕ) (xs : List ℕ) → last xs ≡ some l → 0 < count l xs
unfolding count
last-mem l [] e = cc
last-mem l (x ∷ []) e = ground arith
last-mem l (x ∷ y ∷ xs) e = ground (arith, last-mem l (y ∷ xs) e)

-- The last link of a chain, written, extends it.
Chain-snoc :
    (next : ℕ → Pointer) (t l : ℕ) (p : Pointer) (xs : List ℕ)
    → next t ≡ none
    → last xs ≡ some l
    → count t xs ≡ 0
    → Distinct xs
    → Chain next p xs
    → Chain (update next l (some t)) p (xs ++ t ∷ [])
unfolding count
Chain-snoc next t l p [] new e out d c = cc
Chain-snoc next t l p (x ∷ []) new e out d c = ground arith
Chain-snoc next t l p (x ∷ y ∷ xs) new e out (ox, d) (px, c) =
    ground (arith, last-mem l (y ∷ xs) e, Chain-snoc next t l (next x) (y ∷ xs) new e)

pub last-none : (xs : List ℕ) → none ≡ last xs → xs ≡ []
last-none [] e = refl
last-none (x ∷ []) e = cc
last-none (x ∷ y ∷ xs) e = cc (last-none (y ∷ xs) e)

append_at-Holds :
    (t : ℕ) (end : Pointer) (q : Queue) (xs : List ℕ)
    → end ≡ last xs
    → q.next t ≡ none
    → count t xs ≡ 0
    → Distinct xs
    → Chain q.next q.head xs
    → Holds (append_at end t q) (xs ++ t ∷ [])
unfolding append_at count
append_at-Holds t none q xs e new out d c =
    rw (last-none xs e)
      (record { chain = (refl, new); ends = refl; distinct = Distinct-snoc t [] refl tt })
append_at-Holds t (some l) q [] e new out d c = cc
append_at-Holds t (some l) q (x ∷ xs) e new out d c = record {
  chain = append_chain;
  ends = sym (last-snoc t (x ∷ xs));
  distinct = Distinct-snoc t (x ∷ xs) out d;
}
  where
    append_chain : Chain (update q.next l (some t)) q.head (x ∷ (xs ++ t ∷ []))
    append_chain = Chain-snoc q.next t l q.head (x ∷ xs) new (sym e) out d c

count-one : (u t : ℕ) → count u (t ∷ []) ≡ 0 → u ≢ t
unfolding count
count-one u t h = ground arith

append_at-next :
    (t : ℕ) (end : Pointer) (q : Queue) (xs : List ℕ) (u : ℕ)
    → end ≡ last xs
    → count u (xs ++ t ∷ []) ≡ 0
    → (append_at end t q).next u ≡ q.next u
unfolding append_at
append_at-next t none q xs u e out = refl
append_at-next t (some l) q xs u e out =
    ground (arith, last-mem l xs (sym e), count-append u xs (t ∷ []))

-- On a queue that holds `xs`, push_back of a thread that is in no queue goes through, leaves the
-- queue holding `xs` and then that thread, and writes no link of a thread outside the new queue.
pub push_back-Files :
    (t : ℕ) (q : Queue) (xs : List ℕ)
    → Holds q xs
    → is_enqueued q t ≡ false
    → (q' : Queue) × (push_back t q ≡ some q') × Files (xs ++ t ∷ []) (xs ++ t ∷ []) q q'
unfolding push_back
push_back-Files t q xs h fresh = (
  _,
  rw fresh refl,
  record {
    holds =
        append_at-Holds t q.tail cut xs h.ends (ground arith) outside h.distinct
          (Chain-update q.next t none q.head xs outside h.chain);
    frame = λ u out.
        append_at-next t q.tail cut xs u h.ends out
        ∙ ground (arith, count-append u xs (t ∷ []), count-one u t);
  },
)
  where
    outside : count t xs ≡ 0
    outside = not_enqueued_outside t q xs h fresh

    cut : Queue
    cut = record q { next = update q.next t none }

tail_or-last : (t : ℕ) (end : Pointer) (xs : List ℕ) → end ≡ last xs → tail_or end t ≡ last (t ∷ xs)
unfolding tail_or
tail_or-last t none [] e = refl
tail_or-last t none (x ∷ xs) e = cc (last-none (x ∷ xs) e)
tail_or-last t (some l) [] e = cc
tail_or-last t (some l) (x ∷ xs) e = e

-- On a queue that holds `xs`, push_front of a thread that is in no queue goes through, leaves the
-- queue holding that thread and then `xs`, and writes no link but that thread's.
pub push_front-Files :
    (t : ℕ) (q : Queue) (xs : List ℕ)
    → Holds q xs
    → is_enqueued q t ≡ false
    → (q' : Queue) × (push_front t q ≡ some q') × Files (t ∷ []) (t ∷ xs) q q'
unfolding push_front count
push_front-Files t q xs h fresh = (
  after,
  rw fresh refl,
  record {
    holds = record {
      chain = (refl, ground (arith, Chain-update q.next t q.head q.head xs outside h.chain));
      ends = tail_or-last t q.tail xs h.ends;
      distinct = (outside, h.distinct);
    };
    frame = λ u out. ground arith;
  },
)
  where
    outside : count t xs ≡ 0
    outside = not_enqueued_outside t q xs h fresh

    after : Queue
    after = record { next = update q.next t q.head; head = some t; tail = tail_or q.tail t }

-- What pop_front gives of a queue that holds these threads.
abbrev pub Pops : Queue → List ℕ → Pointer × Queue → Type 0
Pops q [] r = r ≡ (none, q)
Pops q (x ∷ xs) r = (r.0 ≡ some x) × Files (x ∷ xs) xs q r.1 × (is_enqueued r.1 x ≡ false)

pop_head-Files :
    (q : Queue) (x : ℕ) (xs : List ℕ) → Holds q (x ∷ xs) → Files (x ∷ xs) xs q (pop_head x q)
unfolding pop_head tail_after count
pop_head-Files q x [] h = record {
  holds = record { chain = h.chain.1; ends = rw h.chain.1; distinct = tt };
  frame = λ u out. ground arith;
}
pop_head-Files q x (y ∷ xs) h = record {
  holds = record {
    chain = Chain-update q.next x (some x) (q.next x) (y ∷ xs) h.distinct.0 h.chain.1;
    ends = rw h.chain.1.0 h.ends;
    distinct = h.distinct.1;
  };
  frame = λ u out. ground arith;
}

popped_sentinel : (q : Queue) (x : ℕ) → is_enqueued (pop_head x q) x ≡ false
unfolding pop_head is_enqueued
popped_sentinel q x = ground arith

pop_front-some : (q : Queue) (x : ℕ) → q.head ≡ some x → pop_front q ≡ (some x, pop_head x q)
unfolding pop_front
pop_front-some q x e = ground arith

-- pop_front of a queue that holds nothing gives nullptr and changes nothing; of one that holds `x`
-- and then `xs` it gives `x`, leaves the queue holding `xs` and `x` carrying the sentinel of a
-- thread that is in no queue, and writes no link of a thread outside the queue.
pub pop_front-Pops : (q : Queue) (xs : List ℕ) → Holds q xs → Pops q xs (pop_front q)
unfolding pop_front
pop_front-Pops q [] h = ground arith
pop_front-Pops q (x ∷ xs) h =
    let e = pop_front-some q x h.chain.0 in
    (ap (λ r. r.0) e, rw e (pop_head-Files q x xs h), rw e (popped_sentinel q x))
