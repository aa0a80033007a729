-- ===== src/Ready/Queue/Remove.antt =====
-- thread_ready_queue::remove: the search ends within the queue's length, and unlinks the thread.
use cyros.Common.{
  points_to, ℕ, zero, suc, ◌<◌, ◌≡◌, ◌≢◌, refl, sym, ap, ◌∙◌, Bool, true, false, Option, none, some,
  List, [], ◌∷◌, ◌⊎◌, inl, inr, ◌++◌, Bool-cases, arith, ◌==◌, ==_iff, if◌then◌else◌, update, count,
  erase, length, count-append, append_assoc,
}
use cyros.Ready.Queue.{Queue, Pointer, is_enqueued, unlink_at, remove_from, remove}
use cyros.Ready.Queue.Push.{last-mem, last-none, last-snoc}
use cyros.Ready.Queue.Chain.{Chain, Distinct, last, Holds, Files, Chain-update}

last-outside : (c : ℕ) (xs : List ℕ) → count c xs ≡ 0 → points_to (last xs) c ≡ false
unfolding count
last-outside c [] out = refl
last-outside c (x ∷ []) out = ground arith
last-outside c (x ∷ y ∷ xs) out = ground (arith, last-outside c (y ∷ xs))

-- The last thread of `before`, as the loop's `prev` holds it.
unlink-next :
    (q : Queue) (prev : Pointer) (cur u : ℕ)
    → (unlink_at prev cur q).next u
      ≡ (if u == cur then some cur else if points_to prev u then q.next cur else q.next u)
unfolding unlink_at
unlink-next q none cur u = refl
unlink-next q (some p) cur u = ground arith

-- The chain with `c` cut out.
Chain-unlink :
    (next : ℕ → Pointer) (c : ℕ) (p : Pointer) (xs ys : List ℕ) (l : ℕ)
    → last xs ≡ some l
    → Distinct (xs ++ c ∷ ys)
    → Chain next p (xs ++ c ∷ ys)
    → Chain (update (update next l (next c)) c (some c)) p (xs ++ ys)
unfolding count
Chain-unlink next c p [] ys l e d k = cc
Chain-unlink next c p (x ∷ []) ys l e (out, d) (px, k) = (px, rw relinked rest)
  where
    relinked : update (update next l (next c)) c (some c) x ≡ next c
    relinked = ground arith

    rest : Chain (update (update next l (next c)) c (some c)) (next c) ys
    rest =
        Chain-update (update next l (next c)) c (some c) (next c) ys d.0
          (Chain-update next l (next c) (next c) ys (ground arith) k.1)
Chain-unlink next c p (x ∷ y ∷ xs) ys l e (out, d) (px, k) =
    (px, rw kept (Chain-unlink next c (next x) (y ∷ xs) ys l e d k))
  where
    kept : update (update next l (next c)) c (some c) x ≡ next x
    kept = ground (arith, last-mem l (y ∷ xs) e, count-append x xs (c ∷ ys))

-- The tail after `c` is cut out.
last-unlink :
    (c : ℕ) (xs ys : List ℕ)
    → Distinct (xs ++ c ∷ ys)
    → last (xs ++ ys) ≡ (if points_to (last (xs ++ c ∷ ys)) c then last xs else last (xs ++ c ∷ ys))
unfolding count
last-unlink c [] [] d = ground arith
last-unlink c [] (y ∷ ys) d = ground (arith, last-outside c (y ∷ ys))
last-unlink c (x ∷ []) [] d = ground arith
last-unlink c (x ∷ []) (y ∷ ys) d = ground (arith, last-outside c (y ∷ ys))
last-unlink c (x ∷ y ∷ xs) ys d = last-unlink c (y ∷ xs) ys d.1

Distinct-unlink : (c : ℕ) (xs ys : List ℕ) → Distinct (xs ++ c ∷ ys) → Distinct (xs ++ ys)
unfolding count
Distinct-unlink c [] ys d = d.1
Distinct-unlink c (x ∷ xs) ys (out, d) =
    (omega (arith, count-append x xs ys, count-append x xs (c ∷ ys)), Distinct-unlink c xs ys d)

unlink-Holds :
    (q : Queue) (prev : Pointer) (c : ℕ) (xs ys : List ℕ)
    → prev ≡ last xs
    → Holds q (xs ++ c ∷ ys)
    → Holds (unlink_at prev c q) (xs ++ ys)
unfolding unlink_at
unlink-Holds q none c [] ys e h = record {
  chain = Chain-update q.next c (some c) (q.next c) ys h.distinct.0 h.chain.1;
  ends = rw (last-unlink c [] ys h.distinct, h.ends);
  distinct = h.distinct.1;
}
unlink-Holds q none c (x ∷ xs) ys e h = cc (last-none (x ∷ xs) e)
unlink-Holds q (some l) c xs ys e h = record {
  chain = Chain-unlink q.next c q.head xs ys l (sym e) h.distinct h.chain;
  ends = rw (last-unlink c xs ys h.distinct, h.ends, e);
  distinct = Distinct-unlink c xs ys h.distinct;
}

erase-found : (c : ℕ) (xs ys : List ℕ) → count c xs ≡ 0 → erase c (xs ++ c ∷ ys) ≡ xs ++ ys
unfolding count erase
erase-found c [] ys out = ground arith
erase-found c (x ∷ xs) ys out = ground (arith, erase-found c xs ys)

-- What a search for `t` gives in a queue that holds `zs`.
abbrev pub Removes : ℕ → List ℕ → Queue → Option (Bool × Queue) → Type 0
Removes t zs q r =
    ((count t zs ≡ 0) × (r ≡ some (false, q)))
    ⊎ ((q' : Queue) × (r ≡ some (true, q'))
        × Files zs (erase t zs) q q'
        × (is_enqueued q' t ≡ false)
        × (count t zs ≢ 0))

points_inside :
    (prev : Pointer) (u : ℕ) (xs : List ℕ)
    → prev ≡ last xs
    → count u xs ≡ 0
    → points_to prev u ≡ false
points_inside none u xs e out = refl
points_inside (some l) u xs e out = ground (arith, last-mem l xs (sym e))

found :
    (q : Queue) (prev : Pointer) (c : ℕ) (xs ys : List ℕ)
    → prev ≡ last xs
    → Holds q (xs ++ c ∷ ys)
    → count c xs ≡ 0
    → Files (xs ++ c ∷ ys) (erase c (xs ++ c ∷ ys)) q (unlink_at prev c q)
      × (is_enqueued (unlink_at prev c q) c ≡ false)
unfolding is_enqueued count
found q prev c xs ys e h out = (
  record {
    holds = rw (erase-found c xs ys out) (unlink-Holds q prev c xs ys e h);
    frame = λ u away.
        ground
          (arith, unlink-next q prev c u, count-append u xs (c ∷ ys), points_inside prev u xs e);
  },
  ground (arith, unlink-next q prev c c),
)

-- The loop stands behind `xs`, in which it has not found `t`, and in front of `ys`.
remove_from-Removes :
    (fuel : ℕ) (t : ℕ) (q : Queue) (prev cur : Pointer) (zs xs ys : List ℕ)
    → zs ≡ xs ++ ys
    → Holds q zs
    → prev ≡ last xs
    → Chain q.next cur ys
    → count t xs ≡ 0
    → length ys < fuel
    → Removes t zs q (remove_from fuel prev cur t q)
unfolding remove_from count
remove_from-Removes zero t q prev cur zs xs ys e h ep k out f = elim f [ ]
remove_from-Removes (suc fuel) t q prev none zs xs [] e h ep k out f =
    inl (rw e (count-append t xs [] ∙ omega arith), refl)
remove_from-Removes (suc fuel) t q prev none zs xs (y ∷ ys) e h ep k out f = cc k.0
remove_from-Removes (suc fuel) t q prev (some c) zs xs [] e h ep k out f = cc
remove_from-Removes (suc fuel) t q prev (some c) zs xs (y ∷ ys) e h ep k out f =
    elim (Bool-cases (c == t)) [
      | inl hit ↦ inr (
        unlink_at prev t q,
        rw hit (ap (λ w. some (true, unlink_at prev w q)) (same hit)),
        rw (here hit) (found q prev t xs ys ep (rw (here hit) at h) out).0,
        (found q prev t xs ys ep (rw (here hit) at h) out).1,
        ground (arith, here hit, count-append t xs (t ∷ ys)),
      )
      | inr miss ↦ rw miss (
          remove_from-Removes fuel t q (some c) (q.next c) zs (xs ++ c ∷ []) ys
            (e ∙ ground (arith, append_assoc xs (c ∷ []) ys, first)) h (sym (last-snoc c xs))
            (rw first k.1) (ground (arith, count-append t xs (c ∷ []))) (omega arith))
    ]
  where
    first : c ≡ y
    first = cc

    same : (c == t) ≡ true → c ≡ t
    same hit = (==_iff c t).0 hit

    here : (c == t) ≡ true → zs ≡ xs ++ t ∷ ys
    here hit = e ∙ ap (λ w. xs ++ w ∷ ys) (sym first ∙ same hit)

-- On a queue that holds `xs`, with more fuel than it has threads, remove of a thread that the queue
-- does not hold answers false and changes nothing; of one that it holds it answers true, leaves the
-- queue holding the others in their order and the thread carrying the sentinel, and writes no link
-- of a thread outside the queue.
pub remove-Removes :
    (fuel : ℕ) (t : ℕ) (q : Queue) (xs : List ℕ)
    → Holds q xs
    → length xs < fuel
    → Removes t xs q (remove fuel t q)
unfolding remove count
remove-Removes fuel t q xs h f =
    remove_from-Removes fuel t q none q.head xs [] xs refl h refl h.chain refl f
