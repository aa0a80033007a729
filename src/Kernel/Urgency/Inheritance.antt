-- ===== src/Kernel/Urgency/Inheritance.antt =====
-- Transitive priority inheritance: a holder is as urgent as every thread that waits on it, through
-- chains of waiting holders, and as urgent as the ceilings of what it holds.
use cyros.Common.{
  ℕ, zero, suc, ◌≤◌, ◌<◌, ◌≡◌, true, false, Option, some, List, [], ◌∷◌, arith, min, count,
  points_to,
}
use cyros.Common.Bits.{test_bit-zero}
use cyros.Kernel.Thread.{holds_nothing}
use cyros.Kernel.Store.{Store, uses_ceiling}
use cyros.Kernel.Urgency.{
  max_inheritance_depth, bridges, best_of, top, bridged_top, urgency_contribution, urgency_at,
  urgency,
}
use cyros.Kernel.Urgency.Bounds.{
  Holding, urgency_at-le-base, urgency_at-le-contribution, urgency_at-holds_nothing,
}

best_of-le : (f : ℕ → ℕ) (best : ℕ) (ws : List ℕ) → best_of f best ws ≤ best
unfolding best_of
best_of-le f best [] = omega arith
best_of-le f best (w ∷ ws) = omega (arith, best_of-le f (min best (f w)) ws)

best_of-le-member :
    (f : ℕ → ℕ) (best w : ℕ) (ws : List ℕ) → 0 < count w ws → best_of f best ws ≤ f w
unfolding best_of count
best_of-le-member f best w [] h = elim h [ ]
best_of-le-member f best w (x ∷ ws) h =
    ground (arith, best_of-le f (min best (f x)) ws, best_of-le-member f (min best (f x)) w ws)

-- A waiter that holds something, and is not the owner, is a bridge.
bridges-member :
    (s : Store) (owner : Option ℕ) (w : ℕ) (ws : List ℕ)
    → 0 < count w ws
    → holds_nothing (s.tcb w) ≡ false
    → points_to owner w ≡ false
    → 0 < count w (bridges s owner ws)
unfolding bridges count
bridges-member s owner w [] h held other = elim h [ ]
bridges-member s owner w (x ∷ ws) h held other = ground (arith, bridges-member s owner w ws)

-- What the inheritance cache of a mutex says is true of its queue.
pub record Cached (s : Store) (k : ℕ) : Type 0 where
  pub best :
      (w : ℕ) → 0 < count w (s.mutex k).queue → (s.mutex k).top_priority ≤ (s.tcb w).base_priority
  pub hint :
      (w : ℕ)
      → 0 < count w (s.mutex k).queue
      → points_to (s.mutex k).owner w ≡ false
      → holds_nothing (s.tcb w) ≡ false
      → (s.mutex k).may_have_bridges ≡ true

-- `w` waits in the queue of a mutex that `t` holds.
pub record WaitsOn (s : Store) (w t : ℕ) : Type 0 where
  pub lock : ℕ
  pub held : Holding s t lock
  pub cached : Cached s lock
  pub waiting : 0 < count w (s.mutex lock).queue
  pub not_owner : points_to (s.mutex lock).owner w ≡ false

top-le-waiter :
    (s : Store) (depth k w : ℕ)
    → Cached s k
    → 0 < count w (s.mutex k).queue
    → points_to (s.mutex k).owner w ≡ false
    → top s (some (urgency_at depth s)) (s.mutex k) ≤ urgency_at depth s w
unfolding top bridged_top
top-le-waiter s d k w c waiting other = ground (
  arith,
  c.best w waiting,
  c.hint w waiting other,
  urgency_at-holds_nothing d s w,
  bridges-member s (s.mutex k).owner w (s.mutex k).queue waiting,
  best_of-le-member (urgency_at d s) (s.mutex k).top_priority w
      (bridges s (s.mutex k).owner (s.mutex k).queue),
)

-- A ceiling lock's contribution is at most its ceiling, and at most what its queue answers.
contribution_le_ceiling :
    (s : Store) (budget : Option (ℕ → ℕ)) (k : ℕ)
    → uses_ceiling (s.mutex k) ≡ true
    → urgency_contribution s budget k ≤ (s.mutex k).ceiling_priority
unfolding urgency_contribution
contribution_le_ceiling s budget k h = ground arith

contribution-le-top :
    (s : Store) (budget : Option (ℕ → ℕ)) (k : ℕ)
    → urgency_contribution s budget k ≤ top s budget (s.mutex k)
unfolding urgency_contribution
contribution-le-top s budget k = ground arith

donation_step :
    (s : Store) (depth w t : ℕ) → WaitsOn s w t → urgency_at (suc depth) s t ≤ urgency_at depth s w
donation_step s d w t h = omega (
  arith,
  urgency_at-le-contribution d s t h.lock h.held,
  contribution-le-top s (some (urgency_at d s)) h.lock,
  top-le-waiter s d h.lock w h.cached h.waiting h.not_owner,
)

-- A chain of waiting holders: `w` waits on a thread that waits on … on `t`, so many hops.
abbrev pub Donates : Store → ℕ → ℕ → ℕ → Type 0
Donates s zero w t = w ≡ t
Donates s (suc hops) w t = (v : ℕ) × Donates s hops w v × WaitsOn s v t

donation_chain :
    (s : Store) (hops depth w t : ℕ)
    → hops ≤ depth
    → Donates s hops w t
    → urgency_at depth s t ≤ (s.tcb w).base_priority
donation_chain s zero depth w t h e = rw e (urgency_at-le-base depth s t)
donation_chain s (suc n) zero w t h c = elim h [ ]
donation_chain s (suc n) (suc depth) w t h (v, c, step) =
    omega (arith, donation_step s depth v t step, donation_chain s n depth w v (omega arith) c)

-- A thread's urgency is at least that of the base priority of every thread that waits on it, through
-- a chain of at most eight waiting holders, where the inheritance caches of the mutexes in the
-- chain are true of their queues and no waiter of the chain is the owner its mutex names.
pub urgency-le-donor :
    (s : Store) (hops w t : ℕ)
    → hops ≤ 8
    → Donates s hops w t
    → urgency s t ≤ (s.tcb w).base_priority
unfolding urgency
urgency-le-donor s hops w t h c = ground (
  arith,
  donation_chain s hops max_inheritance_depth w t h c,
  urgency_at-holds_nothing max_inheritance_depth s t,
)

-- A thread that has a ceiling lock filed in its slots is at least as urgent as the ceiling.
pub urgency-le-ceiling :
    (s : Store) (t k : ℕ)
    → Holding s t k
    → uses_ceiling (s.mutex k) ≡ true
    → urgency s t ≤ (s.mutex k).ceiling_priority
unfolding urgency
urgency-le-ceiling s t k held ceiling = ground (
  arith,
  test_bit-zero held.slot,
  urgency_at-le-contribution 7 s t k held,
  contribution_le_ceiling s (some (urgency_at 7 s)) k ceiling,
)

-- A thread is never less urgent than its base priority, and one that holds no mutex is exactly as
-- urgent as that.
pub urgency-base :
    (s : Store) (t : ℕ)
    → (urgency s t ≤ (s.tcb t).base_priority)
      × (holds_nothing (s.tcb t) ≡ true → urgency s t ≡ (s.tcb t).base_priority)
unfolding urgency
urgency-base s t = (ground (arith, urgency_at-le-base max_inheritance_depth s t), λ h. ground arith)
