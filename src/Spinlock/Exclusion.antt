-- ===== src/Spinlock/Exclusion.antt =====
-- At most one core has the lock, and the token is the state that it saved.
use cyros.Common.{ℕ, ◌≡◌, refl, ap, false, some, got, subst, if_each}
use cyros.Spinlock.{
  Phase, Spinlock, Step, locks, tries, unlocks, runs, leave, take, begin, unlock, run, take_step,
  Reaches,
}
use cyros.Spinlock.Moves.{
  owns, Saved, Exclusive, waits-Exclusive, taken-Exclusive, store-Exclusive, drop-Exclusive,
  enter-Exclusive,
}

module _ {T M : Type 0} (enter_critical : M → T × M) (exit_critical : T → M → M) where
  Fresh-Exclusive :
      (s : Spinlock T M)
      → s.flag ≡ false
      → ((c : ℕ) → s.phase c ≡ Phase.outside)
      → Exclusive enter_critical exit_critical s
  Fresh-Exclusive s clear rest = record {
    one = λ x y ox oy. cc (rest x, ox);
    flagged = λ x ox. cc (rest x, ox);
    owned = λ f. cc (clear, f);
    stored = λ x. rw (rest x) tt;
    saved = λ x. rw (rest x) tt;
  }

  begin-Exclusive :
      (c : ℕ) (next : T → Phase T) (p : Phase T) (s u : Spinlock T M)
      → s.phase c ≡ p
      → begin enter_critical exit_critical c next p s ≡ some u
      → ((t : T) → owns (next t) ≡ false)
      → ((t : T) → Saved (next t) t)
      → Exclusive enter_critical exit_critical s
      → Exclusive enter_critical exit_critical u
  unfolding begin
  begin-Exclusive c next Phase.outside s u now eq free kept e =
      got (Exclusive enter_critical exit_critical) _ u
        (enter-Exclusive enter_critical exit_critical c next s now free kept e) eq
  begin-Exclusive c next (Phase.spinning t) s u now eq free kept e = cc eq
  begin-Exclusive c next (Phase.trying t) s u now eq free kept e = cc eq
  begin-Exclusive c next (Phase.refused t) s u now eq free kept e = cc eq
  begin-Exclusive c next (Phase.storing t) s u now eq free kept e = cc eq
  begin-Exclusive c next (Phase.holding t) s u now eq free kept e = cc eq
  begin-Exclusive c next Phase.releasing s u now eq free kept e = cc eq

  unlock-Exclusive :
      (c : ℕ) (p : Phase T) (s u : Spinlock T M)
      → s.phase c ≡ p
      → unlock enter_critical exit_critical c p s ≡ some u
      → Exclusive enter_critical exit_critical s
      → Exclusive enter_critical exit_critical u
  unfolding unlock
  unlock-Exclusive c (Phase.holding t) s u now eq e =
      got (Exclusive enter_critical exit_critical) _ u
        (drop-Exclusive enter_critical exit_critical c t s now e) eq
  unlock-Exclusive c Phase.outside s u now eq e = cc eq
  unlock-Exclusive c (Phase.spinning t) s u now eq e = cc eq
  unlock-Exclusive c (Phase.trying t) s u now eq e = cc eq
  unlock-Exclusive c (Phase.refused t) s u now eq e = cc eq
  unlock-Exclusive c (Phase.storing t) s u now eq e = cc eq
  unlock-Exclusive c Phase.releasing s u now eq e = cc eq

  -- The flag is taken, or the core goes on to a phase that has no lock.
  take-Exclusive :
      (c : ℕ) (t : T) (p : Phase T) (s : Spinlock T M)
      → owns (s.phase c) ≡ false
      → owns p ≡ false
      → Saved p (enter_critical (s.entered c)).0
      → t ≡ (enter_critical (s.entered c)).0
      → Exclusive enter_critical exit_critical s
      → Exclusive enter_critical exit_critical (take enter_critical exit_critical c t p s)
  unfolding take
  take-Exclusive c t p s free still kept mine e =
      if_each (Exclusive enter_critical exit_critical) s.flag _ _
        (λ busy. waits-Exclusive enter_critical exit_critical c p s s.interrupts free still kept e)
        (λ clear. taken-Exclusive enter_critical exit_critical c t s clear mine e)

  run-Exclusive :
      (c : ℕ) (p : Phase T) (s u : Spinlock T M)
      → s.phase c ≡ p
      → run enter_critical exit_critical c p s ≡ some u
      → Exclusive enter_critical exit_critical s
      → Exclusive enter_critical exit_critical u
  unfolding run leave
  run-Exclusive c (Phase.spinning t) s u now eq e =
      let mine : t ≡ (enter_critical (s.entered c)).0 =
        subst (λ (q : Phase T). Saved q (enter_critical (s.entered c)).0) now (e.saved c) in
      got (Exclusive enter_critical exit_critical) _ u
        (take-Exclusive c t (Phase.spinning t) s (ap owns now) refl mine mine e) eq
  run-Exclusive c (Phase.trying t) s u now eq e =
      let mine : t ≡ (enter_critical (s.entered c)).0 =
        subst (λ (q : Phase T). Saved q (enter_critical (s.entered c)).0) now (e.saved c) in
      got (Exclusive enter_critical exit_critical) _ u
        (take-Exclusive c t (Phase.refused t) s (ap owns now) refl mine mine e) eq
  run-Exclusive c (Phase.refused t) s u now eq e =
      got (Exclusive enter_critical exit_critical) _ u
        (waits-Exclusive enter_critical exit_critical c Phase.outside s _ (ap owns now) refl tt e)
        eq
  run-Exclusive c (Phase.storing t) s u now eq e =
      got (Exclusive enter_critical exit_critical) _ u
        (store-Exclusive enter_critical exit_critical c t s now e) eq
  run-Exclusive c Phase.releasing s u now eq e =
      got (Exclusive enter_critical exit_critical) _ u
        (waits-Exclusive enter_critical exit_critical c Phase.outside s _ (ap owns now) refl tt e)
        eq
  run-Exclusive c Phase.outside s u now eq e = cc eq
  run-Exclusive c (Phase.holding t) s u now eq e = cc eq

  take_step-Exclusive :
      (step : Step) (s u : Spinlock T M)
      → take_step enter_critical exit_critical step s ≡ some u
      → Exclusive enter_critical exit_critical s
      → Exclusive enter_critical exit_critical u
  unfolding take_step
  take_step-Exclusive (locks c) s u eq e =
      begin-Exclusive c Phase.spinning (s.phase c) s u refl eq (λ t. refl) (λ t. refl) e
  take_step-Exclusive (tries c) s u eq e =
      begin-Exclusive c Phase.trying (s.phase c) s u refl eq (λ t. refl) (λ t. refl) e
  take_step-Exclusive (unlocks c) s u eq e = unlock-Exclusive c (s.phase c) s u refl eq e
  take_step-Exclusive (runs c) s u eq e = run-Exclusive c (s.phase c) s u refl eq e

  -- From a free lock that no core is at, however the steps of the cores interleave: at most one core
  -- has the lock, the flag is set exactly while one has it, the token is what the holder saved,
  -- and what a core keeps in a call of lock or try_lock and while it has the lock is the interrupt
  -- state in which it entered.
  pub reached-Exclusive :
      {s u : Spinlock T M}
      → s.flag ≡ false
      → ((c : ℕ) → s.phase c ≡ Phase.outside)
      → Reaches enter_critical exit_critical s u
      → Exclusive enter_critical exit_critical u
  reached-Exclusive {s} clear rest Reaches.here = Fresh-Exclusive s clear rest
  reached-Exclusive clear rest (Reaches.next {u} {v} step r eq) =
      take_step-Exclusive step u v eq (reached-Exclusive clear rest r)
