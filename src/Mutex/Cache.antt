-- ===== src/Mutex/Cache.antt =====
-- The inheritance cache of a mutex stays true of its queue: arm, disarm and the taking of the first
-- waiter, which every wake begins with.
use cyros.Common.{
  ℕ, ◌≤◌, ◌<◌, ◌≡◌, refl, Bool, true, false, Option, List, [], ◌∷◌, arith, ◌==◌, if◌then◌else◌,
  update, count, erase, count-erase, points_to, Bool-cases, inl, inr,
}
use cyros.Kernel.Thread.{holds_nothing}
use cyros.Kernel.Store.{Store, Mutex}
use cyros.Kernel.Urgency.Inheritance.{Cached}
use cyros.WaitQueue.{link}
use cyros.WaitQueue.Order.{
  Sorted, link-Sorted, erase-Sorted, Sorted-first, Sorted-cons as Sorted-tail, count-link,
  unlink_lem,
}
use cyros.Mutex.Queue.{
  arm, disarm, pop_waiter, pop_from, base_of, first_priority, still_bridged, refresh_top, set_mutex,
}

-- The hint is set wherever a waiter that is not the owner holds something.
abbrev pub Hinted : Store → Option ℕ → List ℕ → Bool → Type 0
Hinted s owner q hint =
    (w : ℕ)
    → 0 < count w q
    → points_to owner w ≡ false
    → holds_nothing (s.tcb w) ≡ false
    → hint ≡ true

-- The queue is in order, `top_priority` is the first waiter's, and the hint is truthful.
pub record Cache (s : Store) (k : ℕ) : Type 0 where
  pub sorted : Sorted (base_of s) (s.mutex k).queue
  pub top : (s.mutex k).top_priority ≡ first_priority s (s.mutex k).queue
  pub hint : Hinted s (s.mutex k).owner (s.mutex k).queue (s.mutex k).may_have_bridges

best_of_Sorted :
    (s : Store) (q : List ℕ) (w : ℕ)
    → Sorted (base_of s) q
    → 0 < count w q
    → first_priority s q ≤ base_of s w
unfolding count
best_of_Sorted s [] w o h = elim h [ ]
best_of_Sorted s (x ∷ q) w o h = Sorted-first (base_of s) x w q o h

-- Such a cache is what the urgency fold relies on.
pub Cache-Cached : (s : Store) (k : ℕ) → Cache s k → Cached s k
Cache-Cached s k c = record {
  best = λ w h. rw c.top (best_of_Sorted s (s.mutex k).queue w c.sorted h);
  hint = c.hint;
}

still_bridged_of :
    (w : ℕ) (q : List ℕ) (hint : Bool) → 0 < count w q → hint ≡ true → still_bridged q hint ≡ true
unfolding count
still_bridged_of w [] hint h e = elim h [ ]
still_bridged_of w (x ∷ q) hint h e = e

-- A refresh makes the cache true of any queue in order, from a hint that is true of it.
refresh-Cache :
    (s : Store) (k : ℕ) (q : List ℕ) (hint : Bool)
    → Sorted (base_of s) q
    → Hinted s (s.mutex k).owner q hint
    → Cache (set_mutex k (refresh_top s q hint (s.mutex k)) s) k
unfolding refresh_top
refresh-Cache s k q hint o h = record {
  sorted = rw updated o;
  top = rw updated refl;
  hint =
      rw updated (λ w waits other holds. still_bridged_of w q hint waits (h w waits other holds));
}
  where
    m : Mutex
    m = refresh_top s q hint (s.mutex k)

    updated : update s.mutex k m k ≡ m
    updated = ground arith

arm-Cache : (t k : ℕ) (s : Store) → Cache s k → Cache (arm t k s) k
unfolding arm
arm-Cache t k s c =
    refresh-Cache s k (link (base_of s) t (s.mutex k).queue)
      (if holds_nothing (s.tcb t) then (s.mutex k).may_have_bridges else true)
      (link-Sorted (base_of s) t (s.mutex k).queue c.sorted)
      (λ w waits other holds.
        ground (arith, count-link (base_of s) t w (s.mutex k).queue, c.hint w))

disarm-Cache : (t k : ℕ) (s : Store) → Cache s k → Cache (disarm t k s).1 k
unfolding disarm
disarm-Cache t k s c = elim (Bool-cases (count t (s.mutex k).queue == 0)) [
  | inl absent ↦ rw (unlink_lem t (s.mutex k).queue, absent) c
  | inr queued ↦
      rw (unlink_lem t (s.mutex k).queue, queued)
        (refresh-Cache s k (erase t (s.mutex k).queue) (s.mutex k).may_have_bridges
          (erase-Sorted (base_of s) t (s.mutex k).queue c.sorted)
          (λ w waits other holds.
            c.hint w (omega (arith, count-erase t w (s.mutex k).queue)) other holds))
]

pop_from-Cache :
    (k : ℕ) (s : Store) (q : List ℕ)
    → (s.mutex k).queue ≡ q
    → Cache s k
    → Cache (pop_from k q s).1 k
unfolding pop_from count
pop_from-Cache k s [] e c = c
pop_from-Cache k s (x ∷ q) e c =
    refresh-Cache s k q (s.mutex k).may_have_bridges
      (Sorted-tail (base_of s) x q (rw e at c.sorted))
      (λ w waits other holds. c.hint w (rw e (omega arith)) other holds)

pop_waiter-Cache : (k : ℕ) (s : Store) → Cache s k → Cache (pop_waiter k s).1 k
unfolding pop_waiter
pop_waiter-Cache k s c = pop_from-Cache k s (s.mutex k).queue refl c

-- What the threads at a mutex do to its queue.
pub data QueueCall : Type 0 where
  arms : ℕ → QueueCall
  disarms : ℕ → QueueCall
  takes_first : QueueCall

abbrev pub make_call : ℕ → QueueCall → Store → Store
make_call k (arms t) s = arm t k s
make_call k (disarms t) s = (disarm t k s).1
make_call k takes_first s = (pop_waiter k s).1

abbrev pub make_calls : ℕ → List QueueCall → Store → Store
make_calls k [] s = s
make_calls k (call ∷ calls) s = make_calls k calls (make_call k call s)

make_call-Cache : (k : ℕ) (call : QueueCall) (s : Store) → Cache s k → Cache (make_call k call s) k
make_call-Cache k (arms t) s c = arm-Cache t k s c
make_call-Cache k (disarms t) s c = disarm-Cache t k s c
make_call-Cache k takes_first s c = pop_waiter-Cache k s c

-- Where a mutex's wait queue is in order and its inheritance cache true of it, they are so after
-- every sequence of arms, disarms, of threads still queued or not, and takings of the first waiter,
-- of an empty queue as well.
pub make_calls-Cache :
    (k : ℕ) (calls : List QueueCall) (s : Store) → Cache s k → Cache (make_calls k calls s) k
make_calls-Cache k [] s c = c
make_calls-Cache k (call ∷ calls) s c =
    make_calls-Cache k calls (make_call k call s) (make_call-Cache k call s c)
