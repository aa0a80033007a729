-- ===== src/Time/Handles.antt =====
-- Scheduling and cancelling: a handle that was given out cancels its slot.
use cyros.Common.{
  ℕ, zero, suc, ◌+◌, ◌≤◌, ◌<◌, ◌≡◌, ◌≢◌, refl, ap, ◌∙◌, Bool, true, false, Option, none, some,
  arith, ◌==◌, if◌then◌else◌, update, ◌>>=◌, check, Bool-cases, inl, inr, ℕ_discrete,
}
use cyros.Time.Timetable.{
  Slot, Timetable, Driver, slot_at, free_slot, find_slot, max_scheduled_callbacks, next_handle_id,
  write_slots,
}
use cyros.Time.Tickless.{
  schedule_at, schedule_in, rearmed, fill, cancel, cancel_in, rearm_started, rearm_locked, is_free,
}

-- The search stops at the first slot that passes the test, or nowhere.
abbrev pub Finds : (Slot → Bool) → ℕ → ℕ → (ℕ → Slot) → Option ℕ → Type 0
Finds test i end slots none = (j : ℕ) → i ≤ j → j < end → test (slots j) ≡ false
Finds test i end slots (some k) =
    (i ≤ k)
    × (k < end)
    × (test (slots k) ≡ true)
    × ((j : ℕ) → i ≤ j → j < k → test (slots j) ≡ false)

later-Finds :
    (test : Slot → Bool) (i end : ℕ) (slots : ℕ → Slot) (o : Option ℕ)
    → test (slots i) ≡ false
    → Finds test (i + 1) end slots o
    → Finds test i end slots o
later-Finds test i end slots none miss f =
    λ j lo hi. elim (ℕ_discrete j i) [ yes same ↦ rw same miss | no other ↦ f j (omega arith) hi ]
later-Finds test i end slots (some k) miss (lo, hi, hit, before) = (
  omega arith,
  hi,
  hit,
  λ j l h. elim (ℕ_discrete j i) [ yes same ↦ rw same miss | no other ↦ before j (omega arith) h ],
)

pub find_slot-Finds :
    (test : Slot → Bool) (rounds i : ℕ) (slots : ℕ → Slot)
    → Finds test i (i + rounds) slots (find_slot test rounds i slots)
unfolding find_slot
find_slot-Finds test zero i slots = λ j lo hi. absurd (omega arith)
find_slot-Finds test (suc rounds) i slots = elim (Bool-cases (test (slots i))) [
  | inl hit ↦ simp hit (omega arith, omega arith, refl, λ j lo hi. absurd (omega arith))
  | inr miss ↦
      let end : i + 1 + rounds ≡ i + suc rounds = omega arith in
      simp miss (
        later-Finds test i (i + suc rounds) slots _ miss
          (rw end at (find_slot-Finds test rounds (i + 1) slots)))
]

next_handle_id-ne-zero : (t : Timetable) → (next_handle_id t).0 ≢ 0
unfolding next_handle_id
next_handle_id-ne-zero t = ground arith

-- Every free slot is blank.
abbrev pub Blank : Driver → Type 0
Blank d = (j : ℕ) → j < max_scheduled_callbacks → (slot_at d j).id ≡ 0 → slot_at d j ≡ free_slot

-- No slot carries the handle that the counter gives next.
abbrev pub Fresh : Driver → Type 0
Fresh d = (j : ℕ) → j < max_scheduled_callbacks → (slot_at d j).id ≢ (next_handle_id d.table).0

rearm_started-keeps :
    (d : Driver)
    → ((rearm_started d).table ≡ d.table) × ((rearm_started d).initialised ≡ d.initialised)
unfolding rearm_started rearm_locked
rearm_started-keeps d = (ground arith, ground arith)

filled : ℕ → ℕ → Option ℕ → ℕ → Driver → Driver
unfolding fill
filled k tp cb arg d = (fill k tp 0 cb arg d).1

filled-slot :
    (k tp : ℕ) (cb : Option ℕ) (arg : ℕ) (d : Driver) (j : ℕ)
    → slot_at (filled k tp cb arg d) j ≡ (
        if j == k
        then record { id = (next_handle_id d.table).0; when = tp; period = 0; cb = cb; arg = arg }
        else slot_at d j)
unfolding filled next_handle_id
filled-slot k tp cb arg d j = ground arith

filled_initialised :
    (k tp cb arg : ℕ) (d : Driver) → (filled k tp (some cb) arg d).initialised ≡ d.initialised
unfolding filled
filled_initialised k tp cb arg d = refl

found_again :
    (k tp : ℕ) (cb : Option ℕ) (arg : ℕ) (d : Driver) (h : ℕ)
    → h ≡ (next_handle_id d.table).0
    → k < max_scheduled_callbacks
    → Fresh d
    → find_slot (λ s. s.id == h) max_scheduled_callbacks 0 (filled k tp cb arg d).table.slots
      ≡ some k
found_again k tp cb arg d h e inside fresh =
    from _ refl (find_slot-Finds (λ s. s.id == h) max_scheduled_callbacks 0 slots)
  where
    slots : ℕ → Slot
    slots = (filled k tp cb arg d).table.slots

    from :
        (o : Option ℕ)
        → find_slot (λ s. s.id == h) max_scheduled_callbacks 0 slots ≡ o
        → Finds (λ s. s.id == h) 0 max_scheduled_callbacks slots o
        → find_slot (λ s. s.id == h) max_scheduled_callbacks 0 slots ≡ some k
    from none found f =
        absurd (ground (arith, f k (omega arith) inside, filled-slot k tp cb arg d k))
    from (some m) found (lo, hi, hit, before) = elim (ℕ_discrete m k) [
      | yes same ↦ found ∙ ap some same
      | no other ↦ absurd (ground (arith, hit, filled-slot k tp cb arg d m, fresh m hi))
    ]

-- What a call to schedule and then a call to cancel its handle leave.
pub record Undone (d d' d'' : Driver) (h : ℕ) : Type 0 where
  pub valid : h ≢ 0
  pub slots : (j : ℕ) → j < max_scheduled_callbacks → slot_at d'' j ≡ slot_at d j
  pub placed :
      (k : ℕ) × (k < max_scheduled_callbacks) × ((slot_at d k).id ≡ 0) × ((slot_at d' k).id ≡ h)

cancel_rearmed :
    (h k : ℕ) (d : Driver)
    → h ≢ 0
    → d.initialised ≡ true
    → find_slot (λ s. s.id == h) max_scheduled_callbacks 0 d.table.slots ≡ some k
    → cancel h d ≡ some (true, rearm_started (write_slots (update d.table.slots k free_slot) d))
unfolding cancel cancel_in
cancel_rearmed h k d valid on found = settled (h == 0) d.initialised _ (ground arith) on found
  where
    settled :
        (b i : Bool) (o : Option ℕ)
        → b ≡ false
        → i ≡ true
        → o ≡ some k
        → (if b then some (false, d) else (check i >>= λ u. some (cancel_in o d)))
          ≡ some (cancel_in (some k) d)
    settled true i o off on e = cc off
    settled false true o off on e = ap (λ (p : Option ℕ). some (cancel_in p d)) e
    settled false false o off on e = cc on

schedule_at_found :
    (tp cb arg k : ℕ) (d : Driver)
    → d.initialised ≡ true
    → find_slot is_free max_scheduled_callbacks 0 d.table.slots ≡ some k
    → schedule_at tp (some cb) arg d
      ≡ some ((next_handle_id d.table).0, rearm_started (filled k tp (some cb) arg d))
unfolding schedule_at schedule_in rearmed fill filled
schedule_at_found tp cb arg k d on found = settled d.initialised _ on found
  where
    settled :
        (i : Bool) (o : Option ℕ)
        → i ≡ true
        → o ≡ some k
        → (check i >>= λ u. some (schedule_in o tp 0 (some cb) arg d))
          ≡ some (schedule_in (some k) tp 0 (some cb) arg d)
    settled true o on e = ap (λ (p : Option ℕ). some (schedule_in p tp 0 (some cb) arg d)) e
    settled false o on e = cc on

cancelled_again :
    (tp cb arg k : ℕ) (d : Driver)
    → d.initialised ≡ true
    → find_slot is_free max_scheduled_callbacks 0 d.table.slots ≡ some k
    → k < max_scheduled_callbacks
    → (slot_at d k).id ≡ 0
    → Blank d
    → Fresh d
    → (h : ℕ) × (d' : Driver) × (d'' : Driver) × (schedule_at tp (some cb) arg d ≡ some (h, d'))
      × (cancel h d' ≡ some (true, d''))
      × Undone d d' d'' h
cancelled_again tp cb arg k d on found inside vacant blank fresh =
    let h = (next_handle_id d.table).0 in
    let full = filled k tp (some cb) arg d in
    let armed = rearm_started full in
    let valid = next_handle_id-ne-zero d.table in
    let table : armed.table ≡ full.table = (rearm_started-keeps full).0 in
    let again = found_again k tp (some cb) arg d h refl inside fresh in
    let emptied = write_slots (update armed.table.slots k free_slot) armed in
    (
      h,
      armed,
      rearm_started emptied,
      schedule_at_found tp cb arg k d on found,
      cancel_rearmed h k armed valid
          ((rearm_started-keeps full).1 ∙ filled_initialised k tp cb arg d ∙ on) (rw table again),
      record {
        valid = valid;
        slots = λ j lt.
            ap (λ (t : Timetable). t.slots j) (rearm_started-keeps emptied).0
            ∙ ground (
              arith,
              ap (λ (t : Timetable). t.slots j) table,
              filled-slot k tp (some cb) arg d j,
              blank j lt,
            );
        placed = (
          k,
          inside,
          vacant,
          ap (λ (t : Timetable). (t.slots k).id) table
              ∙ ground (arith, filled-slot k tp (some cb) arg d k),
        );
      },
    )

-- On a driver that has been initialised and has a free slot, whose free slots are blank and none of
-- whose slots carries the next handle: scheduling a callback once gives a valid handle, and cancelling
-- that handle answers true and leaves every slot as it was before.
pub cancel-schedule_at :
    (tp cb arg i : ℕ) (d : Driver)
    → d.initialised ≡ true
    → i < max_scheduled_callbacks
    → (slot_at d i).id ≡ 0
    → Blank d
    → Fresh d
    → (h : ℕ) × (d' : Driver) × (d'' : Driver) × (schedule_at tp (some cb) arg d ≡ some (h, d'))
      × (cancel h d' ≡ some (true, d''))
      × Undone d d' d'' h
cancel-schedule_at tp cb arg i d on inside vacant blank fresh =
    from _ refl (find_slot-Finds is_free max_scheduled_callbacks 0 d.table.slots)
  where
    from :
        (o : Option ℕ)
        → find_slot is_free max_scheduled_callbacks 0 d.table.slots ≡ o
        → Finds is_free 0 max_scheduled_callbacks d.table.slots o
        → (h : ℕ) × (d' : Driver) × (d'' : Driver) × (schedule_at tp (some cb) arg d ≡ some (h, d'))
          × (cancel h d' ≡ some (true, d''))
          × Undone d d' d'' h
    from none found f = absurd (ground (arith, f i (omega arith) inside))
    from (some k) found (lo, hi, free, before) =
        cancelled_again tp cb arg k d on found hi (ground arith) blank fresh
