-- ===== src/Mutex/HandOver.antt =====
-- unlock, hand_over, take_if_free and try_lock: what they leave behind.
use cyros.Common.{
  ℕ, ◌≡◌, ◌≢◌, refl, sym, ◌||◌, ◌==◌, ap, ◌∙◌, Bool, true, false, not, ◌&&◌, Option, none, some,
  List, [], ◌∷◌, arith, is_some, Option-cases, inl, inr, ==_refl,
}
use cyros.Kernel.Store.{Store, uses_ceiling}
use cyros.Mutex.{
  commit_hand_over, claim_slot, retire_at, register_held, set_owner, take_if_free, hand_over,
  claim_for, unlock, Release, ReschedulePolicy, has_id, delivered, is_never,
  apply_reschedule_policy,
}
use cyros.Scheduler.Core.{ScheduleHint}
use cyros.Mutex.Queue.{pop_waiter, pop_from, refresh_top}
use cyros.Mutex.Slots.{Consistent, Loose, Consistent-Loose, Loose-Consistent}
use cyros.Mutex.Ownership.{
  claim-Consistent, retire-Loose, retire_held_owner, set_owner-Loose, pop_from-Loose, first, rest,
  HasRoom, HandedOver,
}

pop_waiter_from :
    (k : ℕ) (s : Store) (q : List ℕ) → (s.mutex k).queue ≡ q → pop_waiter k s ≡ pop_from k q s
unfolding pop_waiter
pop_waiter_from k s q e = ap (λ r. pop_from k r s) e

-- The commit: the mutex is handed to the first waiter, which has an identity and room in its slots, or
-- set free.
commit-HandedOver :
    (k : ℕ) (s : Store) (q : List ℕ)
    → (s.mutex k).queue ≡ q
    → Loose k s
    → ((w : ℕ) → first q ≡ some w → HasRoom s w × ((s.tcb w).id ≢ 0))
    → (r : Option ℕ × Store) × (commit_hand_over k (pop_waiter k s) ≡ some r)
      × HandedOver k s r.0 r.1
unfolding commit_hand_over claim_for has_id set_owner pop_from refresh_top
commit-HandedOver k s [] e l room = (
  (none, set_owner k none s),
  ap (commit_hand_over k) (pop_waiter_from k s [] e),
  record {
    consistent = Loose-Consistent k (set_owner-Loose k none l) (ground arith);
    picked = rw e refl;
    owner = ground arith;
    queue = rw e (ground arith);
    others = λ j h. ground arith;
  },
)
commit-HandedOver k s (w ∷ ws) e l room = (
  (some w, claimed.0),
  ap (commit_hand_over k) (pop_waiter_from k s (w ∷ ws) e) ∙ rw (known, claimed.1) refl,
  record {
    consistent = claimed.2;
    picked = rw e refl;
    owner = (claimed.3 k).0 ∙ ground arith;
    queue = (claimed.3 k).1 ∙ rw e (ground arith);
    others = λ j h. (claimed.3 j).0 ∙ ground arith;
  },
)
  where
    known : ((s.tcb w).id == 0) ≡ false
    known = ground (arith, (room w refl).1)

    named : Store
    named = set_owner k (some w) (pop_from k (w ∷ ws) s).1

    claimed :
        (s' : Store) × (claim_slot w k named ≡ some s')
        × Consistent s'
        × ((j : ℕ)
            → ((s'.mutex j).owner ≡ (named.mutex j).owner)
              × ((s'.mutex j).queue ≡ (named.mutex j).queue))
    claimed =
        claim-Consistent w k (room w refl).0.0 named
          (set_owner-Loose k (some w) (pop_from-Loose k (w ∷ ws) l)) (ground arith)
          (room w refl).0.1 (room w refl).0.2

same_id : (t k slot w : ℕ) (s : Store) → ((retire_at t k slot s).tcb w).id ≡ (s.tcb w).id
unfolding retire_at
same_id t k slot w s = ground arith

HasRoom-retire : (t k slot w : ℕ) (s : Store) → HasRoom s w → HasRoom (retire_at t k slot s) w
unfolding retire_at
HasRoom-retire t k slot w s (i, h, e) = (i, h, ground arith)

abbrev pub hint_of : (ℕ → ScheduleHint) → Option ℕ → Option ScheduleHint
hint_of hint none = none
hint_of hint (some w) = some (hint w)

-- Whether a release pends a reschedule.
abbrev pub pends_for : ReschedulePolicy → Bool → Option ScheduleHint → Bool
pends_for ReschedulePolicy.never ceiling woken = false
pends_for policy ceiling none = ceiling
pends_for policy ceiling (some ScheduleHint.rescheduled) = ceiling
pends_for policy ceiling (some ScheduleHint.warranted) = true
pends_for ReschedulePolicy.automatic ceiling (some ScheduleHint.unwarranted) = ceiling
pends_for ReschedulePolicy.always ceiling (some ScheduleHint.unwarranted) = true

policy_pends :
    (policy : ReschedulePolicy) (h : ScheduleHint) (ceiling : Bool)
    → (apply_reschedule_policy policy h || (ceiling && not (is_never policy)))
      ≡ pends_for policy ceiling (some h)
unfolding apply_reschedule_policy
policy_pends ReschedulePolicy.automatic ScheduleHint.unwarranted ceiling = ground arith
policy_pends ReschedulePolicy.automatic ScheduleHint.warranted ceiling = ground arith
policy_pends ReschedulePolicy.automatic ScheduleHint.rescheduled ceiling = ground arith
policy_pends ReschedulePolicy.always ScheduleHint.unwarranted ceiling = ground arith
policy_pends ReschedulePolicy.always ScheduleHint.warranted ceiling = ground arith
policy_pends ReschedulePolicy.always ScheduleHint.rescheduled ceiling = ground arith
policy_pends ReschedulePolicy.never ScheduleHint.unwarranted ceiling = ground arith
policy_pends ReschedulePolicy.never ScheduleHint.warranted ceiling = ground arith
policy_pends ReschedulePolicy.never ScheduleHint.rescheduled ceiling = ground arith

delivered-pends :
    (policy : ReschedulePolicy) (hint : ℕ → ScheduleHint) (chosen : Option ℕ) (s : Store)
    (ceiling : Bool)
    → ((delivered policy hint (chosen, s)).pends || (ceiling && not (is_never policy)))
      ≡ pends_for policy ceiling (hint_of hint (delivered policy hint (chosen, s)).readied)
unfolding delivered
delivered-pends ReschedulePolicy.automatic hint none s ceiling = ground arith
delivered-pends ReschedulePolicy.always hint none s ceiling = ground arith
delivered-pends ReschedulePolicy.never hint none s ceiling = ground arith
delivered-pends policy hint (some w) s ceiling = policy_pends policy (hint w) ceiling

delivered-HandedOver :
    (policy : ReschedulePolicy) (hint : ℕ → ScheduleHint) (chosen : Option ℕ) (k : ℕ) (s s' : Store)
    → HandedOver k s chosen s'
    → HandedOver k s
        (delivered policy hint (chosen, s')).readied
        (delivered policy hint (chosen, s')).store
unfolding delivered
delivered-HandedOver policy hint none k s s' h = h
delivered-HandedOver policy hint (some w) k s s' h = h

-- What a hand-over from the retired store leaves of the first.
HandedOver-retire :
    (t k slot : ℕ) (s s' : Store) (chosen : Option ℕ)
    → HandedOver k (retire_at t k slot s) chosen s'
    → HandedOver k s chosen s'
unfolding retire_at
HandedOver-retire t k slot s s' chosen h = record {
  consistent = h.consistent;
  picked = h.picked ∙ ap first same;
  owner = h.owner;
  queue = h.queue ∙ ap rest same;
  others = λ j n. h.others j n ∙ ground arith;
}
  where
    same : ((retire_at t k slot s).mutex k).queue ≡ (s.mutex k).queue
    same = unfold retire_at in ground arith

-- Where owners and slots agree, the thread owns the mutex, and the first waiter, if there is one,
-- has an identity and a free held slot: unlock goes through with no assert up to the readying,
-- which is the scheduler's; the first waiter owns the mutex and is the thread to ready (or nobody,
-- and nobody owns it), the others wait on in their order, no other mutex changes hands, and owners
-- and slots agree again. Under the policy never no reschedule is pended; under the others one is
-- for a ceiling lock, and for any lock where a thread is readied and its readying has not
-- rescheduled already, under automatic only where that warrants it, and else none is.
pub unlock-HandedOver :
    (policy : ReschedulePolicy) (hint : ℕ → ScheduleHint) (t k : ℕ) (s : Store)
    → Consistent s
    → (s.mutex k).owner ≡ some t
    → ((w : ℕ) → first (s.mutex k).queue ≡ some w → HasRoom s w × ((s.tcb w).id ≢ 0))
    → (r : Release) × (unlock policy hint t k s ≡ some r)
      × HandedOver k s r.readied r.store
      × (r.pends ≡ pends_for policy (uses_ceiling (s.mutex k)) (hint_of hint r.readied))
unfolding unlock hand_over
unlock-HandedOver policy hint t k s c own room =
    let (r, e, h) = handed in
    let d = delivered policy hint r in
    (
      record d { pends = d.pends || (uses_ceiling (s.mutex k) && not (is_never policy)) },
      rw (own, ==_refl t, retire_held_owner t k s c own, e) refl,
      delivered-HandedOver policy hint r.0 k s r.1
          (HandedOver-retire t k (s.mutex k).held_slot s r.1 r.0 h),
      delivered-pends policy hint r.0 r.1 (uses_ceiling (s.mutex k)),
    )
  where
    retired : Store
    retired = retire_at t k (s.mutex k).held_slot s

    same_queue : (retired.mutex k).queue ≡ (s.mutex k).queue
    same_queue = unfold retire_at in ground arith

    handed :
        (r : Option ℕ × Store) × (commit_hand_over k (pop_waiter k retired) ≡ some r)
        × HandedOver k retired r.0 r.1
    handed =
        commit-HandedOver k retired (s.mutex k).queue same_queue (retire-Loose t k s c own) (λ w e.
          (
            HasRoom-retire t k (s.mutex k).held_slot w s (room w e).0,
            λ z. (room w e).1 (sym (same_id t k (s.mutex k).held_slot w s) ∙ z),
          ))

take_if_free_owned :
    (t k o : ℕ) (s : Store) → (s.mutex k).owner ≡ some o → take_if_free t k s ≡ some (false, s)
unfolding take_if_free
take_if_free_owned t k o s e = rw e refl

take_if_free_free :
    (t k : ℕ) (s s' : Store)
    → Consistent s
    → (s.mutex k).owner ≡ none
    → claim_slot t k (set_owner k (some t) s) ≡ some s'
    → take_if_free t k s ≡ some (true, s')
unfolding take_if_free
take_if_free_free t k s s' c e claimed = rw (e, registered, claimed) refl
  where
    registered :
        register_held t k (set_owner k (some t) s) ≡ claim_slot t k (set_owner k (some t) s)
    registered = unfold register_held set_owner in ground (arith, (c.filed k).free e)

-- take_if_free of a mutex that somebody owns answers false and changes nothing. Where owners and
-- slots agree and the thread has a free held slot, a free mutex is taken: no assert fires, the
-- thread owns it, owners and slots agree, and no other mutex changes hands.
pub take_if_free_lem :
    (t k : ℕ) (s : Store)
    → Consistent s
    → HasRoom s t
    → (r : Bool × Store) × (take_if_free t k s ≡ some r)
      × (r.0 ≡ not (is_some (s.mutex k).owner))
      × Consistent r.1
      × ((r.0 ≡ true) → (r.1.mutex k).owner ≡ some t)
      × ((r.0 ≡ false) → r.1 ≡ s)
      × ((j : ℕ) → j ≢ k → (r.1.mutex j).owner ≡ (s.mutex j).owner)
unfolding set_owner
take_if_free_lem t k s c (i, hi, vacant) = elim (Option-cases (s.mutex k).owner) [
  | inr (o, e) ↦
      ((false, s), take_if_free_owned t k o s e, rw e refl, c, λ h. cc, λ h. refl, λ j h. refl)
  | inl e ↦
      let named = set_owner k (some t) s in
      let claimed =
        claim-Consistent t k i named (set_owner-Loose k (some t) (Consistent-Loose k c e))
          (ground arith) hi vacant in
      (
        (true, claimed.0),
        take_if_free_free t k s claimed.0 c e claimed.1,
        rw e refl,
        claimed.2,
        λ h. (claimed.3 k).0 ∙ ground arith,
        λ h. cc,
        λ j h. (claimed.3 j).0 ∙ ground arith,
      )
]
