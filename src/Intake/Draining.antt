-- ===== src/Intake/Draining.antt =====
-- What the steps of drain_intake keep.
use mathlib.Core.List.{reverse-cons, append_assoc}
use cyros.Common.{
  ℕ, ◌+◌, ◌<◌, ◌≡◌, ◌≢◌, refl, sym, ◌∙◌, ap, true, false, none, some, List, [], ◌∷◌, ◌++◌, reverse,
  append-nil, arith, ◌==◌, ==_iff, update, count, got, if_each, subst, Bool-cases, inl, inr,
  points_to,
}
use cyros.Ready.Queue.{Pointer}
use cyros.Ready.Queue.Chain.{Chain}
use cyros.Intake.{
  Push, Drain, Intake, take_chain, rest_of, reverse_one, unlink_one, service, drain_intake, switch,
  answer,
}
use cyros.Intake.Links.{link_of, links, waiting, is_swapped, Sentinel, Standing, Kept, Chain-same}

take_chain-Kept :
    (p : Pointer) (s : Intake)
    → s.head ≡ p
    → s.drain ≡ Drain.resting
    → Kept s
    → Kept (take_chain p s)
unfolding take_chain count
take_chain-Kept none s e now k = k
take_chain-Kept (some t) s e now k =
    let (us, fs) = subst (λ (d : Drain). Standing (links s) d s.unreversed s.fifo) now k.standing in
    record {
      counted = λ u. ground (arith, us, fs, k.counted u);
      stacked = refl;
      standing = (
        subst (λ (q : Pointer). Chain (links s) q s.stack) e k.stacked,
        subst (λ (f : List ℕ). Chain (links s) none f) (sym fs) refl,
      );
      sentinel = k.sentinel;
      unpublished = λ u up. ground (arith, us, k.unpublished u up);
      order = k.order ∙ rw (us, fs, append-nil (reverse s.stack)) refl;
      bell = λ a b. tt;
    }

-- A node that is not waited for has published its link.
published :
    (t : ℕ) (p : Push) (next : Pointer)
    → Sentinel t p next
    → points_to next t ≡ false
    → is_swapped p ≡ false
published t Push.idle next s e = refl
published t Push.claimed next s e = refl
published t Push.marked next s e = refl
published t (Push.swapped previous) next s e = absurd (ground (arith, s))

plain_link : (p : Push) (next : Pointer) → is_swapped p ≡ false → link_of p next ≡ next
plain_link Push.idle next e = refl
plain_link Push.claimed next e = refl
plain_link Push.marked next e = refl
plain_link (Push.swapped previous) next e = cc e

plain-Sentinel :
    (t : ℕ) (p : Push) (next : Pointer) → waiting p ≡ 0 → is_swapped p ≡ false → Sentinel t p next
plain-Sentinel t Push.idle next w e = tt
plain-Sentinel t Push.claimed next w e = tt
plain-Sentinel t Push.marked next w e = absurd (omega arith)
plain-Sentinel t (Push.swapped previous) next w e = cc e

next-Sentinel :
    (push : ℕ → Push) (next : ℕ → Pointer) (t : ℕ) (l : Pointer) (u : ℕ)
    → waiting (push t) ≡ 0
    → is_swapped (push t) ≡ false
    → Sentinel u (push u) (next u)
    → Sentinel u (push u) (update next t l u)
next-Sentinel push next t l u w e old = elim (Bool-cases (u == t)) [
  | inl same ↦
      rw same
        (plain-Sentinel u (push u) l (ground (arith, ==_iff u t)) (ground (arith, ==_iff u t)))
  | inr other ↦ rw other old
]

-- A node on the core's own chains, whose link is published, is written by the core.
module _ (t : ℕ) (l : Pointer) (s : Intake) (k : Kept s)
    (plain : is_swapped (s.push t) ≡ false) where
  written : ℕ → Pointer
  written u = link_of (s.push u) (update s.next t l u)

  written_self : written t ≡ l
  unfolding written
  written_self = ground (arith, plain_link (s.push t) l plain)

  written_other : (u : ℕ) → u ≢ t → written u ≡ links s u
  unfolding written
  written_other u other = ground arith

  was_link : links s t ≡ s.next t
  was_link = plain_link (s.push t) (s.next t) plain

  module _ (xs fs : List ℕ) (d : Drain) (own : count t xs + count t fs ≡ 1)
      (stays : (u : ℕ) → count u xs + count u fs ≡ count u s.unreversed + count u s.fifo) where
    written_stack : Chain written s.head s.stack
    written_stack =
        Chain-same (links s) written s.head s.stack
          (λ u inside. written_other u (ground (arith, k.counted u, k.counted t, stays t, own)))
          k.stacked

    written-Kept :
        Standing written d xs fs
        → s.arrived ≡ s.serviced ++ (reverse xs ++ (fs ++ reverse s.stack))
        → ((u : ℕ) → is_swapped (s.push u) ≡ true → 0 < count u s.stack + count u xs)
        → Kept (record s { next = update s.next t l; drain = d; unreversed = xs; fifo = fs })
    unfolding written
    written-Kept standing order up = record {
      counted = λ u. omega (arith, k.counted u, stays u);
      stacked = written_stack;
      standing = standing;
      sentinel = λ u.
          next-Sentinel s.push s.next t l u (ground (arith, k.counted t, stays t, own)) plain
            (k.sentinel u);
      unpublished = up;
      order = order;
      bell = k.bell;
    }

moved_over :
    (a xs fs r : List ℕ) (t : ℕ)
    → a ++ (reverse (t ∷ xs) ++ (fs ++ r)) ≡ a ++ (reverse xs ++ ((t ∷ fs) ++ r))
moved_over a xs fs r t =
    ap (λ (q : List ℕ). a ++ (q ++ (fs ++ r))) (reverse-cons t xs)
    ∙ ap (λ (q : List ℕ). a ++ q) (append_assoc (reverse xs) (t ∷ []) (fs ++ r))

reversed-Kept :
    (t : ℕ) (f : Pointer) (xs : List ℕ) (s : Intake)
    → s.drain ≡ Drain.reversing (some t) f
    → s.unreversed ≡ xs
    → points_to (s.next t) t ≡ false
    → Kept s
    → Kept (record s {
      next = update s.next t f;
      drain = Drain.reversing (s.next t) (some t);
      unreversed = rest_of xs;
      fifo = t ∷ s.fifo;
    })
unfolding count
reversed-Kept t f [] s now e apart k =
    let (c, d) = subst (λ (d : Drain). Standing (links s) d s.unreversed s.fifo) now k.standing in
    cc (subst (λ (us : List ℕ). Chain (links s) (some t) us) e c)
reversed-Kept t f (x ∷ xs) s now e apart k =
    let (c, d) = subst (λ (d : Drain). Standing (links s) d s.unreversed s.fifo) now k.standing in
    let c' = subst (λ (us : List ℕ). Chain (links s) (some t) us) e c in
    let first : x ≡ t = cc (c'.0) in
    let plain = published t (s.push t) (s.next t) (k.sentinel t) apart in
    let e' : s.unreversed ≡ t ∷ xs = e ∙ ap (λ (y : ℕ). y ∷ xs) first in
    let inside : count t s.unreversed ≡ 1 + count t xs = ground (arith, e') in
    let stays : (u : ℕ)
        → count u xs + count u (t ∷ s.fifo) ≡ count u s.unreversed + count u s.fifo =
      (λ u. ground (arith, e')) in
    written-Kept t f s k plain xs (t ∷ s.fifo) (Drain.reversing (s.next t) (some t))
      (ground (arith, inside, k.counted t)) stays
      (
        Chain-same (links s) (written t f s k plain) (s.next t) xs
            (λ u on. written_other t f s k plain u (ground (arith, inside, k.counted t)))
            (subst (λ (q : Pointer). Chain (links s) q xs)
              (ap (links s) first ∙ was_link t f s k plain) c'.1),
        (
          refl,
          subst (λ (q : Pointer). Chain (written t f s k plain) q s.fifo)
              (sym (written_self t f s k plain))
              (Chain-same (links s) (written t f s k plain) f s.fifo
                (λ u on. written_other t f s k plain u (ground (arith, inside, k.counted t))) d),
        ),
      )
      (k.order
        ∙ ap (λ (us : List ℕ). s.serviced ++ (reverse us ++ (s.fifo ++ reverse s.stack))) e'
        ∙ moved_over s.serviced xs s.fifo (reverse s.stack) t)
      (λ u up. ground (arith, k.unpublished u up, e', plain, ==_iff t u))

unlink_one-Kept :
    (t : ℕ) (s : Intake) → s.drain ≡ Drain.servicing (some t) → Kept s → Kept (unlink_one t s)
unfolding unlink_one
unlink_one-Kept t s now k =
    let (us, d) = subst (λ (d : Drain). Standing (links s) d s.unreversed s.fifo) now k.standing in
    unlinked s.fifo refl us d
  where
    unlinked :
        (fs : List ℕ)
        → s.fifo ≡ fs
        → s.unreversed ≡ []
        → Chain (links s) (some t) s.fifo
        → Kept (record s { next = update s.next t none; drain = Drain.taking t (s.next t) })
    unlinked [] e us d = cc (subst (λ (fs : List ℕ). Chain (links s) (some t) fs) e d)
    unlinked (x ∷ fs) e us d =
        let d' = subst (λ (f : List ℕ). Chain (links s) (some t) f) e d in
        let first : x ≡ t = cc (d'.0) in
        let e' : s.fifo ≡ t ∷ fs = e ∙ ap (λ (y : ℕ). y ∷ fs) first in
        let inside : count t s.fifo ≡ 1 + count t fs = unfold count in ground (arith, e') in
        let none_here : count t s.unreversed ≡ 0 = unfold count in ground (arith, us) in
        let plain : is_swapped (s.push t) ≡ false =
          ground (arith, inside, none_here, k.unpublished t, k.counted t) in
        written-Kept t none s k plain s.unreversed s.fifo (Drain.taking t (s.next t))
          (ground (arith, inside, k.counted t)) (λ u. refl)
          (
            us,
            (
              fs,
              e',
              Chain-same (links s) (written t none s k plain) (s.next t) fs
                  (λ u on. written_other t none s k plain u (ground (arith, inside, k.counted t)))
                  (subst (λ (q : Pointer). Chain (links s) q fs)
                    (ap (links s) first ∙ was_link t none s k plain) d'.1),
            ),
          )
          k.order k.unpublished

serviced-Kept :
    (t : ℕ) (f : Pointer) (fs : List ℕ) (s : Intake)
    → s.unreversed ≡ []
    → s.fifo ≡ t ∷ fs
    → Chain (links s) f fs
    → Kept s
    → Kept (service t f s)
unfolding service count
serviced-Kept t f fs s us e d k = record {
  counted = λ u. ground (arith, e, rest, k.counted u, k.counted t, ==_iff u t, ==_iff t u);
  stacked = k.stacked;
  standing = (us, rw rest d);
  sentinel = k.sentinel;
  unpublished = k.unpublished;
  order = k.order ∙ rw (us, e) (sym (append_assoc s.serviced (t ∷ []) (fs ++ reverse s.stack)));
  bell = k.bell;
}
  where
    rest : rest_of s.fifo ≡ fs
    rest = rw e refl

service-Kept :
    (t : ℕ) (f : Pointer) (s : Intake) → s.drain ≡ Drain.taking t f → Kept s → Kept (service t f s)
service-Kept t f s now k =
    let (us, (fs, e, d)) =
      subst (λ (d : Drain). Standing (links s) d s.unreversed s.fifo) now k.standing in
    serviced-Kept t f fs s us e d k

ended : (l : ℕ → Pointer) (xs : List ℕ) → Chain l none xs → xs ≡ []
ended l [] c = refl
ended l (x ∷ xs) c = cc (c.0)

pub drain_intake-Kept :
    (d : Drain) (s u : Intake) → s.drain ≡ d → drain_intake d s ≡ some u → Kept s → Kept u
unfolding drain_intake reverse_one
drain_intake-Kept Drain.resting s u now eq k = cc eq
drain_intake-Kept (Drain.reversing none f) s u now eq k =
    let (c, d) = subst (λ (d : Drain). Standing (links s) d s.unreversed s.fifo) now k.standing in
    got Kept _ u
      (record {
        counted = k.counted;
        stacked = k.stacked;
        standing = (ended (links s) s.unreversed c, d);
        sentinel = k.sentinel;
        unpublished = k.unpublished;
        order = k.order;
        bell = k.bell;
      })
      eq
drain_intake-Kept (Drain.reversing (some t) f) s u now eq k =
    got Kept _ u
      (if_each Kept (points_to (s.next t) t) _ _ (λ wait. k)
        (λ apart. reversed-Kept t f s.unreversed s now refl apart k))
      eq
drain_intake-Kept (Drain.servicing none) s u now eq k =
    let (us, d) = subst (λ (d : Drain). Standing (links s) d s.unreversed s.fifo) now k.standing in
    got Kept _ u
      (record {
        counted = k.counted;
        stacked = k.stacked;
        standing = (us, ended (links s) s.fifo d);
        sentinel = k.sentinel;
        unpublished = k.unpublished;
        order = k.order;
        bell = k.bell;
      })
      eq
drain_intake-Kept (Drain.servicing (some t)) s u now eq k =
    got Kept _ u (unlink_one-Kept t s now k) eq
drain_intake-Kept (Drain.taking t f) s u now eq k = got Kept _ u (service-Kept t f s now k) eq

pub switch-Kept : (d : Drain) (s u : Intake) → s.drain ≡ d → switch d s ≡ some u → Kept s → Kept u
unfolding switch
switch-Kept Drain.resting s u now eq k = got Kept _ u (take_chain-Kept s.head s refl now k) eq
switch-Kept (Drain.reversing at f) s u now eq k = cc eq
switch-Kept (Drain.servicing f) s u now eq k = cc eq
switch-Kept (Drain.taking t f) s u now eq k = cc eq

answered-Kept :
    (p : Pointer) (s : Intake)
    → s.head ≡ p
    → s.drain ≡ Drain.resting
    → Kept s
    → Kept (take_chain p (record s { rung = false }))
unfolding take_chain
answered-Kept none s e now k = record {
  counted = k.counted;
  stacked = k.stacked;
  standing = k.standing;
  sentinel = k.sentinel;
  unpublished = k.unpublished;
  order = k.order;
  bell = λ a b.
      let gone =
        ended (links s) s.stack (subst (λ (q : Pointer). Chain (links s) q s.stack) e k.stacked) in
      rw gone tt;
}
answered-Kept (some t) s e now k =
    let k' = take_chain-Kept (some t) s e now k in
    record {
      counted = k'.counted;
      stacked = k'.stacked;
      standing = k'.standing;
      sentinel = k'.sentinel;
      unpublished = k'.unpublished;
      order = k'.order;
      bell = λ a b. tt;
    }

pub answer-Kept : (s u : Intake) → answer s ≡ some u → Kept s → Kept u
unfolding answer switch
answer-Kept s u eq k = elim (Bool-cases s.rung) [
  | inl on ↦ answer_by s.drain refl (rw on at eq)
  | inr off ↦ cc (rw off at eq)
]
  where
    answer_by : (d : Drain) → s.drain ≡ d → switch d (record s { rung = false }) ≡ some u → Kept u
    answer_by Drain.resting now e = got Kept _ u (answered-Kept s.head s refl now k) e
    answer_by (Drain.reversing at f) now e = cc e
    answer_by (Drain.servicing f) now e = cc e
    answer_by (Drain.taking t f) now e = cc e
