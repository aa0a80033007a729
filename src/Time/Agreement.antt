-- ===== src/Time/Agreement.antt =====
-- Both drivers keep the same timetable.
use cyros.Common.{
  ℕ, ◌≡◌, refl, ap, Bool, true, false, not, ◌&&◌, Option, none, some, arith, ◌==◌, if◌then◌else◌,
  ◌>>=◌, check, is_some,
}
use cyros.Time.Timetable.{Timetable, Driver, next_handle_id}
use cyros.Time.Tickless as Tickless
use cyros.Time.Periodic as Periodic

-- The result and the timetable that a call leaves.
abbrev pub kept {ℓ} : {A : Type ℓ} → Option (A × Driver) → Option (A × Timetable)
kept none = none
kept (some r) = some (r.0, r.1.table)

rearm_started-table : (d : Driver) → (Tickless.rearm_started d).table ≡ d.table
unfolding Tickless.rearm_started Tickless.rearm_locked
rearm_started-table d = ground arith

schedule_in-claim :
    (o : Option ℕ) (when period : ℕ) (cb : Option ℕ) (arg : ℕ) (d : Driver)
    → kept (some (Tickless.schedule_in o when period cb arg d))
      ≡ kept (some (Periodic.claim o when period cb arg d))
unfolding Tickless.schedule_in Tickless.rearmed Tickless.fill Periodic.claim
schedule_in-claim none when period cb arg d = refl
schedule_in-claim (some i) when period cb arg d =
    let (id, t) = next_handle_id d.table in
    ap (λ (u : Timetable). some (id, u)) (rearm_started-table _)

either-kept :
    {A : Type 0} (b i : Bool) (x y z : A × Driver)
    → kept (some x) ≡ kept (some y)
    → kept (check i >>= λ u. some (if b then x else z))
      ≡ kept (check i >>= λ u. some (if b then y else z))
either-kept b false x y z e = refl
either-kept true true x y z e = e
either-kept false true x y z e = refl

either-cancel :
    {A : Type 0} (b i : Bool) (x y z : A × Driver)
    → kept (some x) ≡ kept (some y)
    → kept (if b then some z else (check i >>= λ u. some x))
      ≡ kept (if b then some z else (check i >>= λ u. some y))
either-cancel true i x y z e = refl
either-cancel false true x y z e = e
either-cancel false false x y z e = refl

cancel_in-clear_slot :
    (o : Option ℕ) (d : Driver)
    → kept (some (Tickless.cancel_in o d)) ≡ kept (some (Periodic.clear_slot o d))
unfolding Tickless.cancel_in Periodic.clear_slot
cancel_in-clear_slot none d = refl
cancel_in-clear_slot (some i) d = ap (λ (u : Timetable). some (true, u)) (rearm_started-table _)

-- From the same state, a call of the tickless and of the periodic driver to schedule, to schedule
-- recurring or to cancel answers the same and leaves the same timetable.
pub schedule-agree :
    (now tp interval h : ℕ) (cb : Option ℕ) (arg : ℕ) (d : Driver)
    → (kept (Tickless.schedule_at tp cb arg d) ≡ kept (Periodic.schedule_at tp cb arg d))
      × (kept (Tickless.schedule_recurring now interval cb arg d)
          ≡ kept (Periodic.schedule_recurring now interval cb arg d))
      × (kept (Tickless.cancel h d) ≡ kept (Periodic.cancel h d))
unfolding Tickless.schedule_at Periodic.schedule_at Tickless.schedule_recurring
    Periodic.schedule_recurring Tickless.cancel Periodic.cancel Tickless.first_deadline
schedule-agree now tp interval h cb arg d = (
  either-kept (is_some cb) d.initialised _ _ (0, d) (schedule_in-claim _ tp 0 cb arg d),
  either-kept (is_some cb && not (interval == 0)) d.initialised _ _ (0, d)
      (schedule_in-claim _ _ interval cb arg d),
  either-cancel (h == 0) d.initialised _ _ (false, d) (cancel_in-clear_slot _ d),
)
