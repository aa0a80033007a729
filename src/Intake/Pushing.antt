-- ===== src/Intake/Pushing.antt =====
-- What the posts, the pushes and the doorbell keep.
use mathlib.Core.List.{reverse-cons}
use cyros.Common.{
  ℕ, ◌+◌, ◌<◌, ◌≡◌, refl, sym, ◌∙◌, ap, Bool, true, false, none, some, List, [], ◌∷◌, ◌++◌, inl,
  inr, reverse, append_assoc, arith, ◌==◌, ==_iff, if◌then◌else◌, update, count, got, if_each,
  subst, fun_ext, Bool-cases,
}
use cyros.Ready.Queue.{Pointer}
use cyros.Ready.Queue.Chain.{Chain}
use cyros.Intake.{Push, Intake, post_intake, is_null, push_intake, ring}
use cyros.Intake.Links.{
  link_of, links, waiting, is_swapped, Sentinel, LastSwapped, one_if, Kept, Chain-same,
  Standing-same, LastSwapped-same,
}

-- Where the links of what is on the chains stay the same.
abbrev SameLinks : Intake → (ℕ → Push) → (ℕ → Pointer) → Type 0
SameLinks s push next =
    (u : ℕ)
    → 0 < count u s.stack + count u s.unreversed + count u s.fifo
    → link_of (push u) (next u) ≡ links s u

update-Sentinel :
    (push : ℕ → Push) (next : ℕ → Pointer) (t : ℕ) (p : Push) (l : Pointer) (u : ℕ)
    → Sentinel t p l
    → Sentinel u (push u) (next u)
    → Sentinel u (update push t p u) (update next t l u)
update-Sentinel push next t p l u new old = elim (Bool-cases (u == t)) [
  | inl same ↦ rw same (subst (λ (v : ℕ). Sentinel v p l) (sym ((==_iff u t).0 same)) new)
  | inr other ↦ rw other old
]

same-update : (next : ℕ → Pointer) (t u : ℕ) → update next t (next t) u ≡ next u
same-update next t u = ground (arith, ==_iff u t)

-- A thread that is on no chain comes to another phase of its push, and stays off the chains.
outside-Kept :
    (t : ℕ) (p : Push) (l : Pointer) (b : Bool) (s : Intake)
    → count t s.stack + count t s.unreversed + count t s.fifo ≡ 0
    → waiting p ≡ one_if b
    → is_swapped p ≡ false
    → Sentinel t p l
    → Kept s
    → Kept (record s {
      pending = update s.pending t b;
      push = update s.push t p;
      next = update s.next t l;
    })
outside-Kept t p l b s off w plain mark k = record {
  counted = λ u. ground (arith, k.counted u, ==_iff u t);
  stacked = Chain-same (links s) _ s.head s.stack (λ u inside. same u (omega arith)) k.stacked;
  standing =
      Standing-same (links s) _ s.drain s.unreversed s.fifo (λ u inside. same u (omega arith))
        k.standing;
  sentinel = λ u. update-Sentinel s.push s.next t p l u mark (k.sentinel u);
  unpublished = λ u e. k.unpublished u (ground (arith, plain));
  order = k.order;
  bell = λ e e'.
      LastSwapped-same s.push _ s.stack (λ u inside. ground (arith, off, ==_iff u t)) (k.bell e e');
}
  where
    same : SameLinks s (update s.push t p) (update s.next t l)
    same u inside = ground (arith, off, ==_iff u t)

same_pending :
    (pending : ℕ → Bool) (t : ℕ) (b : Bool) → pending t ≡ b → update pending t b ≡ pending
same_pending pending t b e = fun_ext (λ u. ground (arith, ==_iff u t, e))

pub post_intake-Kept : (t : ℕ) (s : Intake) → Kept s → Kept (post_intake t s)
unfolding post_intake
post_intake-Kept t s k =
    if_each Kept (s.pending t) _ _ (λ e. k)
      (λ e.
        subst
          (λ (f : ℕ → Pointer). Kept (record s {
            pending = update s.pending t true;
            push = update s.push t Push.claimed;
            next = f;
          }))
          (fun_ext (same-update s.next t))
          (outside-Kept t Push.claimed (s.next t) true s (ground (arith, e, k.counted t)) refl refl
            tt k))

claimed-Kept :
    (t : ℕ) (s : Intake)
    → s.push t ≡ Push.claimed
    → Kept s
    → Kept (record s { next = update s.next t (some t); push = update s.push t Push.marked })
claimed-Kept t s now k =
    subst
      (λ (f : ℕ → Bool). Kept (record s {
        pending = f;
        push = update s.push t Push.marked;
        next = update s.next t (some t);
      }))
      (same_pending s.pending t true (ground (arith, now, k.counted t)))
      (outside-Kept t Push.marked (some t) true s (ground (arith, now, k.counted t)) refl refl refl
        k)

push-Sentinel :
    (push : ℕ → Push) (next : ℕ → Pointer) (t : ℕ) (p : Push) (u : ℕ)
    → Sentinel t p (next t)
    → Sentinel u (push u) (next u)
    → Sentinel u (update push t p u) (next u)
push-Sentinel push next t p u new old = elim (Bool-cases (u == t)) [
  | inl same ↦ rw same (subst (λ (v : ℕ). Sentinel v p (next v)) (sym ((==_iff u t).0 same)) new)
  | inr other ↦ rw other old
]

LastSwapped-cons :
    (push : ℕ → Push) (x : ℕ) (xs : List ℕ)
    → is_swapped (push x) ≡ true
    → LastSwapped push xs
    → LastSwapped push (x ∷ xs)
LastSwapped-cons push x [] e c = e
LastSwapped-cons push x (y ∷ xs) e c = c

regroup : (a b c d e : List ℕ) → (a ++ (b ++ (c ++ d))) ++ e ≡ a ++ (b ++ (c ++ (d ++ e)))
regroup a b c d e = simp append_assoc

module _ (t : ℕ) (s : Intake) (now : s.push t ≡ Push.marked) (k : Kept s) where
  marked_off : count t s.stack + count t s.unreversed + count t s.fifo ≡ 0
  marked_off = ground (arith, now, k.counted t)

  marked_same : SameLinks s (update s.push t (Push.swapped s.head)) s.next
  marked_same u inside = ground (arith, marked_off, ==_iff u t)

  pushed_links : ℕ → Pointer
  pushed_links u = link_of (update s.push t (Push.swapped s.head) u) (s.next u)

  top : pushed_links t ≡ s.head
  unfolding pushed_links
  top = ground arith

  marked-Kept : Kept (record s {
    head = some t;
    push = update s.push t (Push.swapped s.head);
    stack = t ∷ s.stack;
    arrived = s.arrived ++ t ∷ [];
  })
  unfolding count pushed_links
  marked-Kept = record {
    counted = λ u. ground (arith, now, k.counted u, ==_iff u t, ==_iff t u);
    stacked = (
      refl,
      subst (λ (q : Pointer). Chain pushed_links q s.stack) (sym top)
          (Chain-same (links s) pushed_links s.head s.stack
            (λ u inside. marked_same u (omega arith)) k.stacked),
    );
    standing =
        Standing-same (links s) _ s.drain s.unreversed s.fifo
          (λ u inside. marked_same u (omega arith)) k.standing;
    sentinel = λ u.
        push-Sentinel s.push s.next t (Push.swapped s.head) u
          (subst (λ (q : Push). Sentinel t q (s.next t)) now (k.sentinel t)) (k.sentinel u);
    unpublished = λ u e. ground (arith, k.unpublished u, ==_iff u t, ==_iff t u);
    order =
        ap (λ (r : List ℕ). r ++ t ∷ []) k.order
        ∙ regroup s.serviced (reverse s.unreversed) s.fifo (reverse s.stack) (t ∷ [])
        ∙ ap (λ (r : List ℕ). s.serviced ++ (reverse s.unreversed ++ (s.fifo ++ r)))
            (sym (reverse-cons t s.stack));
    bell = λ e e'.
        LastSwapped-cons (update s.push t (Push.swapped s.head)) t s.stack (ground arith) (
          LastSwapped-same s.push (update s.push t (Push.swapped s.head)) s.stack
            (λ u inside. ground (arith, marked_off, ==_iff u t)) (k.bell e e'));
  }

-- A push that has a node beneath it is not the last of the stack.
LastSwapped-linked :
    (l : ℕ → Pointer) (push : ℕ → Push) (t v : ℕ) (p : Pointer) (xs : List ℕ)
    → Chain l p xs
    → l t ≡ some v
    → LastSwapped push xs
    → LastSwapped (update push t Push.idle) xs
LastSwapped-linked l push t v p [] c e h = tt
LastSwapped-linked l push t v p (x ∷ []) (e', c) e h = ground (arith, ==_iff x t)
LastSwapped-linked l push t v p (x ∷ y ∷ xs) (e', c) e h =
    LastSwapped-linked l push t v (l x) (y ∷ xs) c e h

module _ (t : ℕ) (previous : Pointer) (s : Intake) (now : s.push t ≡ Push.swapped previous)
    (k : Kept s) where
  swapped_same : SameLinks s (update s.push t Push.idle) (update s.next t previous)
  swapped_same u inside = ground (arith, now, ==_iff u t)

  swapped_bell :
      (q : Pointer)
      → q ≡ previous
      → (if is_null q then s.owed + 1 else s.owed) ≡ 0
      → s.rung ≡ false
      → LastSwapped (update s.push t Push.idle) s.stack
  swapped_bell none same e e' = absurd (omega arith)
  swapped_bell (some v) same e e' =
      LastSwapped-linked (links s) s.push t v s.head s.stack k.stacked (rw now (sym same))
        (k.bell e e')

  swapped-Kept : Kept (record s {
    next = update s.next t previous;
    push = update s.push t Push.idle;
    owed = if is_null previous then s.owed + 1 else s.owed;
  })
  swapped-Kept = record {
    counted = λ u. ground (arith, now, k.counted u, ==_iff u t);
    stacked =
        Chain-same (links s) _ s.head s.stack (λ u inside. swapped_same u (omega arith)) k.stacked;
    standing =
        Standing-same (links s) _ s.drain s.unreversed s.fifo
          (λ u inside. swapped_same u (omega arith)) k.standing;
    sentinel = λ u. update-Sentinel s.push s.next t Push.idle previous u tt (k.sentinel u);
    unpublished = λ u e. k.unpublished u (ground arith);
    order = k.order;
    bell = swapped_bell previous refl;
  }

pub push_intake-Kept :
    (t : ℕ) (p : Push) (s u : Intake) → s.push t ≡ p → push_intake t p s ≡ some u → Kept s → Kept u
unfolding push_intake
push_intake-Kept t Push.idle s u now eq k = cc eq
push_intake-Kept t Push.claimed s u now eq k = got Kept _ u (claimed-Kept t s now k) eq
push_intake-Kept t Push.marked s u now eq k = got Kept _ u (marked-Kept t s now k) eq
push_intake-Kept t (Push.swapped previous) s u now eq k =
    got Kept _ u (swapped-Kept t previous s now k) eq

pub ring-Kept : (s u : Intake) → ring s ≡ some u → Kept s → Kept u
unfolding ring
ring-Kept s u eq k = elim (Bool-cases (s.owed == 0)) [
  | inl quiet ↦ cc (rw quiet at eq)
  | inr owed ↦
      got Kept _ u
        (record {
          counted = k.counted;
          stacked = k.stacked;
          standing = k.standing;
          sentinel = k.sentinel;
          unpublished = k.unpublished;
          order = k.order;
          bell = λ e e'. cc e';
        })
        (rw owed at eq)
]
