-- ===== src/Spinlock/Moves.antt =====
-- What each step on the flag, the token and the phases keeps.
use cyros.Common.{
  ℕ, ◌≡◌, refl, sym, ◌∙◌, Bool, true, false, ◌==◌, update, arith, Bool-cases, inl, inr, subst,
}
use cyros.Spinlock.{Phase, Spinlock, enter, store, drop}

-- The core's phase has the lock.
abbrev pub owns : {T : Type 0} → Phase T → Bool
owns (Phase.storing t) = true
owns (Phase.holding t) = true
owns Phase.outside = false
owns (Phase.spinning t) = false
owns (Phase.trying t) = false
owns (Phase.refused t) = false
owns Phase.releasing = false

abbrev pub Saved : {T : Type 0} → Phase T → (saved : T) → Type 0
Saved (Phase.spinning t) saved = t ≡ saved
Saved (Phase.trying t) saved = t ≡ saved
Saved (Phase.refused t) saved = t ≡ saved
Saved (Phase.storing t) saved = t ≡ saved
Saved (Phase.holding t) saved = t ≡ saved
Saved Phase.outside saved = Unit {0}
Saved Phase.releasing saved = Unit {0}

abbrev pub Stored : {T : Type 0} → Phase T → (token : T) → Type 0
Stored (Phase.holding t) token = token ≡ t
Stored (Phase.spinning t) token = Unit {0}
Stored (Phase.trying t) token = Unit {0}
Stored (Phase.refused t) token = Unit {0}
Stored (Phase.storing t) token = Unit {0}
Stored Phase.outside token = Unit {0}
Stored Phase.releasing token = Unit {0}

free-Stored : {T : Type 0} (p : Phase T) (token : T) → owns p ≡ false → Stored p token
free-Stored Phase.outside token f = tt
free-Stored (Phase.spinning t) token f = tt
free-Stored (Phase.trying t) token f = tt
free-Stored (Phase.refused t) token f = tt
free-Stored (Phase.storing t) token f = tt
free-Stored (Phase.holding t) token f = cc f
free-Stored Phase.releasing token f = tt

-- An entry of a changed function is the new one at `c` and the old one elsewhere.
at_update :
    {A : Type 0} (P : ℕ → A → Type 0) (f : ℕ → A) (c : ℕ) (v : A) (x : ℕ)
    → P c v
    → ((x == c) ≡ false → P x (f x))
    → P x (update f c v x)
at_update P f c v x new old = elim (Bool-cases (x == c)) [
  | inl same ↦ let e : c ≡ x = ground arith in rw same (subst (λ (y : ℕ). P y v) e new)
  | inr other ↦ rw other (old other)
]

module _ {T M : Type 0} (enter_critical : M → T × M) (exit_critical : T → M → M) where
  pub record Exclusive (s : Spinlock T M) : Type 0 where
    pub one : (c d : ℕ) → owns (s.phase c) ≡ true → owns (s.phase d) ≡ true → c ≡ d
    pub flagged : (c : ℕ) → owns (s.phase c) ≡ true → s.flag ≡ true
    pub owned : s.flag ≡ true → (c : ℕ) × (owns (s.phase c) ≡ true)
    pub stored : (c : ℕ) → Stored (s.phase c) s.token
    pub saved : (c : ℕ) → Saved (s.phase c) (enter_critical (s.entered c)).0

  -- A core that has no lock moves to a phase that has none.
  pub waits-Exclusive :
      (c : ℕ) (p : Phase T) (s : Spinlock T M) (i : ℕ → M)
      → owns (s.phase c) ≡ false
      → owns p ≡ false
      → Saved p (enter_critical (s.entered c)).0
      → Exclusive s
      → Exclusive (record s { phase = update s.phase c p; interrupts = i })
  waits-Exclusive c p s i free still kept e = record {
    one = λ x y ox oy. e.one x y (before x ox) (before y oy);
    flagged = λ x ox. e.flagged x (before x ox);
    owned = λ f. let (x, ox) = e.owned f in (x, ground (arith, still));
    stored = λ x.
        at_update (λ (y : ℕ) (q : Phase T). Stored q s.token) s.phase c p x
          (free-Stored p s.token still) (λ o. e.stored x);
    saved = λ x.
        at_update (λ (y : ℕ) (q : Phase T). Saved q (enter_critical (s.entered y)).0) s.phase c p x
          kept (λ o. e.saved x);
  }
    where
      before : (x : ℕ) → owns (update s.phase c p x) ≡ true → owns (s.phase x) ≡ true
      before x ox = ground arith

  pub taken-Exclusive :
      (c : ℕ) (t : T) (s : Spinlock T M)
      → s.flag ≡ false
      → t ≡ (enter_critical (s.entered c)).0
      → Exclusive s
      → Exclusive (record s { flag = true; phase = update s.phase c (Phase.storing t) })
  taken-Exclusive c t s clear kept e = record {
    one = λ x y ox oy. only x ox ∙ sym (only y oy);
    flagged = λ x ox. refl;
    owned = λ f. (c, ground arith);
    stored = λ x.
        at_update (λ (y : ℕ) (q : Phase T). Stored q s.token) s.phase c (Phase.storing t) x tt
          (λ o. e.stored x);
    saved = λ x.
        at_update (λ (y : ℕ) (q : Phase T). Saved q (enter_critical (s.entered y)).0) s.phase c
          (Phase.storing t) x kept (λ o. e.saved x);
  }
    where
      only : (x : ℕ) → owns (update s.phase c (Phase.storing t) x) ≡ true → x ≡ c
      only x ox = ground (arith, clear, e.flagged x)

  pub store-Exclusive :
      (c : ℕ) (t : T) (s : Spinlock T M)
      → s.phase c ≡ Phase.storing t
      → Exclusive s
      → Exclusive (store enter_critical exit_critical c t s)
  unfolding store
  store-Exclusive c t s now e = record {
    one = λ x y ox oy. e.one x y (before x ox) (before y oy);
    flagged = λ x ox. e.flagged x (before x ox);
    owned = λ f. let (x, ox) = e.owned f in (x, ground arith);
    stored = λ x.
        at_update (λ (y : ℕ) (q : Phase T). Stored q t) s.phase c (Phase.holding t) x refl
          (λ o. free-Stored (s.phase x) t (elsewhere x o));
    saved = λ x.
        at_update (λ (y : ℕ) (q : Phase T). Saved q (enter_critical (s.entered y)).0) s.phase c
          (Phase.holding t) x
          (subst (λ (q : Phase T). Saved q (enter_critical (s.entered c)).0) now (e.saved c))
          (λ o. e.saved x);
  }
    where
      before :
          (x : ℕ) → owns (update s.phase c (Phase.holding t) x) ≡ true → owns (s.phase x) ≡ true
      before x ox = ground (arith, now)

      elsewhere : (x : ℕ) → (x == c) ≡ false → owns (s.phase x) ≡ false
      elsewhere x o = ground (arith, now, e.one x c)

  pub drop-Exclusive :
      (c : ℕ) (t : T) (s : Spinlock T M)
      → s.phase c ≡ Phase.holding t
      → Exclusive s
      → Exclusive (drop enter_critical exit_critical c s)
  unfolding drop
  drop-Exclusive c t s now e = record {
    one = λ x y ox oy. absurd (none_owns x ox);
    flagged = λ x ox. absurd (none_owns x ox);
    owned = λ f. cc f;
    stored = λ x.
        at_update (λ (y : ℕ) (q : Phase T). Stored q s.token) s.phase c Phase.releasing x tt
          (λ o. e.stored x);
    saved = λ x.
        at_update (λ (y : ℕ) (q : Phase T). Saved q (enter_critical (s.entered y)).0) s.phase c
          Phase.releasing x tt (λ o. e.saved x);
  }
    where
      none_owns : (x : ℕ) → ¬ (owns (update s.phase c Phase.releasing x) ≡ true)
      none_owns x ox = ground (arith, now, e.one x c)

  pub enter-Exclusive :
      (c : ℕ) (next : T → Phase T) (s : Spinlock T M)
      → s.phase c ≡ Phase.outside
      → ((t : T) → owns (next t) ≡ false)
      → ((t : T) → Saved (next t) t)
      → Exclusive s
      → Exclusive (enter enter_critical exit_critical c next s)
  unfolding enter
  enter-Exclusive c next s now free kept e = record {
    one = λ x y ox oy. e.one x y (before x ox) (before y oy);
    flagged = λ x ox. e.flagged x (before x ox);
    owned = λ f. let (x, ox) = e.owned f in (x, ground (arith, now));
    stored = λ x.
        at_update (λ (y : ℕ) (q : Phase T). Stored q s.token) s.phase c (next t) x
          (free-Stored (next t) s.token (free t)) (λ o. e.stored x);
    saved = λ x.
        at_update
          (λ (y : ℕ) (q : Phase T).
            Saved q (enter_critical (update s.entered c (s.interrupts c) y)).0)
          s.phase c (next t) x (rw self (kept t)) (λ o. rw o (e.saved x));
  }
    where
      t : T
      t = (enter_critical (s.interrupts c)).0

      self : (c == c) ≡ true
      self = ground arith

      before : (x : ℕ) → owns (update s.phase c (next t) x) ≡ true → owns (s.phase x) ≡ true
      before x ox = ground (arith, free t)
