-- ===== src/Time/Firing.antt =====
-- The timer interrupt: what fire_due_isr fires, and what it leaves.
use cyros.Common.{
  ℕ, zero, suc, ◌+◌, ◌-◌, ◌*◌, ◌≤◌, ◌<◌, ◌%◌, ◌^◌, ◌≡◌, ◌≢◌, refl, ap, ◌∙◌, sym, true, false,
  Option, some, List, [], ◌∷◌, ◌++◌, arith, ◌==◌, leb, if◌then◌else◌, update, Bool-cases, inl, inr,
  append_assoc, append-nil, ℕ_discrete,
}
use cyros.Time.Timetable.{
  Slot, Driver, slot_at, free_slot, advance, is_due, fired, fire_live, fire_slot, fire_each,
  fire_due_isr, max_scheduled_callbacks, write_slots,
}

-- The deadline is on the grid that `period` spans from `when`, past it.
abbrev pub OnGrid : ℕ → ℕ → ℕ → Type 0
OnGrid when period r = (k : ℕ) × (r ≡ when + period + k * period)

-- With fuel for each tick of the lag, the loop ends at the first deadline of the grid after now.
pub advance-Lands :
    (fuel now period when : ℕ)
    → 0 < period
    → when ≤ now
    → now + period < 2 ^ 64
    → now - when < fuel
    → (r : ℕ) × (advance fuel now period when ≡ some r)
      × (now < r)
      × (r ≤ now + period)
      × OnGrid when period r
unfolding advance
advance-Lands zero now period when p due small f = elim f [ ]
advance-Lands (suc fuel) now period when p due small f =
    let next : (when + period) % 2 ^ 64 ≡ when + period = omega arith in
    elim (Bool-cases (leb (when + period) now)) [
      | inl again ↦
          let (r, e, past, near, (k, g)) =
            advance-Lands fuel now period (when + period) p (ground arith) small (ground arith) in
          (r, rw (next, again) e, past, near, (suc k, g ∙ grind arith))
      | inr landed ↦
          (when + period, rw (next, landed) refl, ground arith, omega arith, (0, omega arith))
    ]

-- What the interrupt does with a slot at the time `now`.
pub record Serviced (now : ℕ) (s s' : Slot) : Type 0 where
  pub waits : is_due now s ≡ false → s' ≡ s
  pub freed : is_due now s ≡ true → s.period ≡ 0 → s' ≡ free_slot
  pub kept :
      is_due now s ≡ true
      → 0 < s.period
      → (s' ≡ record s { when = s'.when })
        × (now < s'.when)
        × (s'.when ≤ now + s.period)
        × OnGrid s.when s.period s'.when
  pub settled : is_due now s' ≡ false

fired-Serviced :
    (now : ℕ) (s : Slot)
    → is_due now s ≡ true
    → now + s.period < 2 ^ 64
    → (s' : Slot) × (fired now s ≡ some s') × Serviced now s s'
unfolding fired
fired-Serviced now s due small = elim (Bool-cases (s.period == 0)) [
  | inl once ↦ (
    free_slot,
    simp once refl,
    record {
      waits = λ e. cc;
      freed = λ e z. refl;
      kept = λ e z. absurd (ground arith);
      settled = refl;
    },
  )
  | inr again ↦
      let (r, e, past, near, grid) =
        advance-Lands (suc (now - s.when)) now s.period s.when (ground arith) (ground arith) small
          (omega arith) in
      (
        record s { when = r },
        simp (again, e) refl,
        record {
          waits = λ e. cc;
          freed = λ e z. ground arith;
          kept = λ e z. (refl, past, near, grid);
          settled = ground arith;
        },
      )
]

-- The callbacks that are due from slot `i` on, in the order of the slots.
abbrev pub due_calls : ℕ → ℕ → ℕ → (ℕ → Slot) → List (Option ℕ × ℕ)
due_calls zero i now slots = []
due_calls (suc rounds) i now slots =
    (if is_due now (slots i) then ((slots i).cb, (slots i).arg) ∷ [] else [])
    ++ due_calls rounds (i + 1) now slots

-- Callbacks that schedule and cancel nothing.
abbrev pub Quiet : (Option ℕ → ℕ → Driver → Driver) → Type 0
Quiet run =
    (cb : Option ℕ) (arg : ℕ) (d : Driver)
    → ((run cb arg d).table.slots ≡ d.table.slots) × ((run cb arg d).calls ≡ d.calls)

-- Slots that the interrupt has come past, from `i` on.
record Passed (rounds i now : ℕ) (d d' : Driver) : Type 0 where
  serviced : (j : ℕ) → i ≤ j → j < i + rounds → Serviced now (slot_at d j) (slot_at d' j)
  below : (j : ℕ) → j < i → slot_at d' j ≡ slot_at d j
  calls : d'.calls ≡ d.calls ++ due_calls rounds i now d.table.slots

due_calls-ext :
    (rounds i now : ℕ) (s s' : ℕ → Slot)
    → ((j : ℕ) → i ≤ j → s j ≡ s' j)
    → due_calls rounds i now s ≡ due_calls rounds i now s'
due_calls-ext zero i now s s' h = refl
due_calls-ext (suc rounds) i now s s' h =
    rw (h i (omega arith), due_calls-ext rounds (i + 1) now s s' (λ j k. h j (omega arith))) refl

Serviced-period : (now : ℕ) (s s' : Slot) → Serviced now s s' → s'.period ≤ s.period
Serviced-period now s s' p = elim (Bool-cases (is_due now s)) [
  | inr rests ↦ omega (arith, ap (λ (x : Slot). x.period) (p.waits rests))
  | inl due ↦ elim (Bool-cases (s.period == 0)) [
    | inl once ↦ omega (arith, ap (λ (x : Slot). x.period) (p.freed due (ground arith)))
    | inr again ↦ omega (arith, ap (λ (x : Slot). x.period) (p.kept due (ground arith)).0)
  ]
]

module _ (run : Option ℕ → ℕ → Driver → Driver) (quiet : Quiet run) where
  fire_slot-Serviced :
      (now i : ℕ) (d : Driver)
      → now + (slot_at d i).period < 2 ^ 64
      → (d' : Driver) × (fire_slot run now i d ≡ some d')
        × Serviced now (slot_at d i) (slot_at d' i)
        × ((j : ℕ) → j ≢ i → slot_at d' j ≡ slot_at d j)
        × (d'.calls
            ≡ d.calls
              ++ (if is_due now (slot_at d i)
                  then ((slot_at d i).cb, (slot_at d i).arg) ∷ []
                  else []))
  unfolding fire_slot fire_live
  fire_slot-Serviced now i d small = elim (Bool-cases (is_due now (slot_at d i))) [
    | inr rests ↦ (
      d,
      simp rests refl,
      record { waits = λ e. refl; freed = λ e. cc; kept = λ e. cc; settled = rests },
      λ j h. refl,
      simp rests (sym (append-nil d.calls)),
    )
    | inl due ↦
        let (s', e, serviced) = fired-Serviced now (slot_at d i) due small in
        let ready = record (write_slots (update d.table.slots i s') d) {
          calls = d.calls ++ ((slot_at d i).cb, (slot_at d i).arg) ∷ [];
        } in
        let still = quiet (slot_at d i).cb (slot_at d i).arg ready in
        let here : slot_at (run (slot_at d i).cb (slot_at d i).arg ready) i ≡ s' =
          ap (λ (f : ℕ → Slot). f i) still.0 ∙ ground arith in
        (
          run (slot_at d i).cb (slot_at d i).arg ready,
          simp (due, e) refl,
          rw here serviced,
          λ j h. ap (λ (f : ℕ → Slot). f j) still.0 ∙ ground arith,
          simp due still.1,
        )
  ]

  fire_each-Passed :
      (rounds i now : ℕ) (d : Driver)
      → ((j : ℕ) → now + (slot_at d j).period < 2 ^ 64)
      → (d' : Driver) × (fire_each run rounds i now d ≡ some d') × Passed rounds i now d d'
  unfolding fire_each
  fire_each-Passed zero i now d small = (
    d,
    refl,
    record {
      serviced = λ j lo hi. absurd (omega arith);
      below = λ j h. refl;
      calls = sym (append-nil d.calls);
    },
  )
  fire_each-Passed (suc rounds) i now d small =
      let (m, e, here, others, logged) = fire_slot-Serviced now i d (small i) in
      let (d', k, p) = fire_each-Passed rounds (i + 1) now m (bounded m here others) in
      (
        d',
        rw e k,
        record {
          serviced = λ j lo hi. elim (ℕ_discrete j i) [
            | yes same ↦ rw (same, p.below i (omega arith)) here
            | no other ↦ rw (← others j other) (p.serviced j (omega arith) (omega arith))
          ];
          below = λ j h. p.below j (omega arith) ∙ others j (omega arith);
          calls =
              p.calls
              ∙ rw
                  (
                    logged,
                    due_calls-ext rounds (i + 1) now m.table.slots d.table.slots
                        (λ j h. others j (omega arith)),
                  )
                  (append_assoc d.calls _ _);
        },
      )
    where
      bounded :
          (m : Driver)
          → Serviced now (slot_at d i) (slot_at m i)
          → ((j : ℕ) → j ≢ i → slot_at m j ≡ slot_at d j)
          → (j : ℕ) → now + (slot_at m j).period < 2 ^ 64
      bounded m here others j = elim (ℕ_discrete j i) [
        | yes same ↦ rw same (omega (arith, small i, Serviced-period now _ _ here))
        | no other ↦ rw (others j other) (small j)
      ]

  -- The timer interrupt, where the callbacks schedule and cancel nothing and no deadline can pass the
  -- 64 bits: its loops end. Each due one-shot slot is freed; each due recurring slot moves to the
  -- first deadline of its grid after now; the other slots stay, and none is due afterwards. Each due
  -- callback is called once, in the order of the slots.
  pub fire_due_isr-Serviced :
      (now : ℕ) (d : Driver)
      → ((j : ℕ) → now + (slot_at d j).period < 2 ^ 64)
      → (d' : Driver) × (fire_due_isr run now d ≡ some d')
        × ((j : ℕ) → j < max_scheduled_callbacks → Serviced now (slot_at d j) (slot_at d' j))
        × (d'.calls ≡ d.calls ++ due_calls max_scheduled_callbacks 0 now d.table.slots)
  unfolding fire_due_isr
  fire_due_isr-Serviced now d small =
      let (d', e, p) = fire_each-Passed max_scheduled_callbacks 0 now d small in
      (d', e, λ j h. p.serviced j (omega arith) (omega arith), p.calls)
