-- ===== src/Intake/Links.antt =====
-- What the links of an intake spell, published or not.
use cyros.Common.{
  ℕ, ◌+◌, ◌<◌, ◌≡◌, ◌∙◌, Bool, true, false, some, List, [], ◌∷◌, ◌++◌, reverse, arith,
  if◌then◌else◌, count,
}
use cyros.Ready.Queue.{Pointer}
use cyros.Ready.Queue.Chain.{Chain}
use cyros.Intake.{Push, Drain, Intake}

-- The link that a node has or, where its push has not stored it, will have.
abbrev pub link_of : Push → Pointer → Pointer
link_of Push.idle next = next
link_of Push.claimed next = next
link_of Push.marked next = next
link_of (Push.swapped previous) next = previous

abbrev pub links : Intake → ℕ → Pointer
links s t = link_of (s.push t) (s.next t)

-- A claim that has not put its thread on the stack.
abbrev pub waiting : Push → ℕ
waiting Push.idle = 0
waiting Push.claimed = 1
waiting Push.marked = 1
waiting (Push.swapped previous) = 0

abbrev pub is_swapped : Push → Bool
is_swapped Push.idle = false
is_swapped Push.claimed = false
is_swapped Push.marked = false
is_swapped (Push.swapped previous) = true

-- An unpublished node carries the self-pointer.
abbrev pub Sentinel : ℕ → Push → Pointer → Type 0
Sentinel t Push.idle next = Unit {0}
Sentinel t Push.claimed next = Unit {0}
Sentinel t Push.marked next = next ≡ some t
Sentinel t (Push.swapped previous) next = next ≡ some t

-- The push that found the intake empty has not published its link.
abbrev pub LastSwapped : (ℕ → Push) → List ℕ → Type 0
LastSwapped push [] = Unit {0}
LastSwapped push (x ∷ []) = is_swapped (push x) ≡ true
LastSwapped push (x ∷ y ∷ xs) = LastSwapped push (y ∷ xs)

-- Where the core stands in its chain.
abbrev pub Standing : (ℕ → Pointer) → Drain → (unreversed fifo : List ℕ) → Type 0
Standing l Drain.resting us fs = (us ≡ []) × (fs ≡ [])
Standing l (Drain.reversing node f) us fs = Chain l node us × Chain l f fs
Standing l (Drain.servicing f) us fs = (us ≡ []) × Chain l f fs
Standing l (Drain.taking t f) us fs =
    (us ≡ []) × ((rest : List ℕ) × (fs ≡ t ∷ rest) × Chain l f rest)

abbrev pub one_if : Bool → ℕ
one_if b = if b then 1 else 0

pub record Kept (s : Intake) : Type 0 where
  pub counted :
      (t : ℕ)
      → waiting (s.push t) + count t s.stack + count t s.unreversed + count t s.fifo
        ≡ one_if (s.pending t)
  pub stacked : Chain (links s) s.head s.stack
  pub standing : Standing (links s) s.drain s.unreversed s.fifo
  pub sentinel : (t : ℕ) → Sentinel t (s.push t) (s.next t)
  pub unpublished :
      (t : ℕ) → is_swapped (s.push t) ≡ true → 0 < count t s.stack + count t s.unreversed
  pub order : s.arrived ≡ s.serviced ++ (reverse s.unreversed ++ (s.fifo ++ reverse s.stack))
  pub bell : s.owed ≡ 0 → s.rung ≡ false → LastSwapped s.push s.stack

-- Links that agree on the nodes of a chain.
pub Chain-same :
    (l l' : ℕ → Pointer) (p : Pointer) (xs : List ℕ)
    → ((u : ℕ) → 0 < count u xs → l' u ≡ l u)
    → Chain l p xs
    → Chain l' p xs
unfolding count
Chain-same l l' p [] same c = c
Chain-same l l' p (x ∷ xs) same (e, c) =
    (e, rw (same x (ground arith)) (Chain-same l l' (l x) xs (λ u inside. same u (ground arith)) c))

pub Standing-same :
    (l l' : ℕ → Pointer) (d : Drain) (us fs : List ℕ)
    → ((u : ℕ) → 0 < count u us + count u fs → l' u ≡ l u)
    → Standing l d us fs
    → Standing l' d us fs
unfolding count
Standing-same l l' Drain.resting us fs same c = c
Standing-same l l' (Drain.reversing node f) us fs same (c, d) = (
  Chain-same l l' node us (λ u inside. same u (omega arith)) c,
  Chain-same l l' f fs (λ u inside. same u (omega arith)) d,
)
Standing-same l l' (Drain.servicing f) us fs same (e, d) =
    (e, Chain-same l l' f fs (λ u inside. same u (omega arith)) d)
Standing-same l l' (Drain.taking t f) us fs same (e, (rest, e', d)) =
    (e, (rest, e', Chain-same l l' f rest (λ u inside. same u (ground (arith, e'))) d))

pub LastSwapped-same :
    (p p' : ℕ → Push) (xs : List ℕ)
    → ((u : ℕ) → 0 < count u xs → is_swapped (p' u) ≡ is_swapped (p u))
    → LastSwapped p xs
    → LastSwapped p' xs
unfolding count
LastSwapped-same p p' [] same c = tt
LastSwapped-same p p' (x ∷ []) same c = same x (ground arith) ∙ c
LastSwapped-same p p' (x ∷ y ∷ xs) same c =
    LastSwapped-same p p' (y ∷ xs) (λ u inside. same u (ground arith)) c
