-- ===== src/Time/Simulation/Cancelling.antt =====
-- Scheduling a callback and taking it back (schedule_at and cancel).
use cyros.Common.{
  ℕ, ◌≡◌, ◌≢◌, refl, ap, ◌∙◌, Bool, true, false, not, ◌&&◌, some, List, [], ◌∷◌, ◌++◌, arith, ◌==◌,
  Bool-cases, inl, inr, append-nil,
}
use cyros.Time.Simulation.{
  Event, Simulation, events_of, with_events, live, next_handle_id, push_event, schedule_at,
  cancel_event, cancel,
}

abbrev answers_to : ℕ → Event → Bool
answers_to h e = e.id == h && not e.cancelled

-- No event that waits has this handle.
abbrev pub Fresh : ℕ → List Event → Type 0
Fresh h [] = Unit {0}
Fresh h (e ∷ es) = ((e.id == h && not e.cancelled) ≡ false) × Fresh h es

live-append : (es fs : List Event) → live (es ++ fs) ≡ live es ++ live fs
unfolding live
live-append [] fs = refl
live-append (e ∷ es) fs = elim (Bool-cases e.cancelled) [
  | inl off ↦ rw (off, live-append es fs) refl
  | inr on ↦ rw (on, live-append es fs) refl
]

cancel_event-append :
    (h : ℕ) (es fs : List Event)
    → Fresh h es
    → cancel_event h (es ++ fs) ≡ ((cancel_event h fs).0, es ++ (cancel_event h fs).1)
unfolding cancel_event
cancel_event-append h [] fs n = refl
cancel_event-append h (e ∷ es) fs (other, n) = rw (other, cancel_event-append h es fs n) refl

next_handle_id-nonzero : (next : ℕ) → (next_handle_id next).0 ≢ 0
unfolding next_handle_id
next_handle_id-nonzero next = ground arith

push_event-nonzero :
    (c when period cb arg : ℕ) (s : Simulation) → (push_event c when period cb arg s).0 ≢ 0
unfolding push_event
push_event-nonzero c when period cb arg s = next_handle_id-nonzero (s.per_core c).next_id

events_of-with_events :
    (c : ℕ) (es : List Event) (s : Simulation) → events_of (with_events c es s) c ≡ es
events_of-with_events c es s = ground arith

-- The event that is put at the end.
abbrev pub at_end : ℕ → (when period cb arg : ℕ) → Simulation → Event
at_end c when period cb arg s = record {
  id = (push_event c when period cb arg s).0;
  when = when;
  period = period;
  cb = cb;
  arg = arg;
  cancelled = false;
}

events_of-push_event :
    (c when period cb arg : ℕ) (s : Simulation)
    → events_of (push_event c when period cb arg s).1 c
      ≡ events_of s c ++ at_end c when period cb arg s ∷ []
unfolding push_event
events_of-push_event c when period cb arg s = ground arith

is_zero : (h : ℕ) → h ≢ 0 → (h == 0) ≡ false
is_zero h given = ground (arith, given)

cancel-cancel_event :
    (c h : ℕ) (s : Simulation) (es : List Event)
    → h ≢ 0
    → events_of s c ≡ es
    → cancel c h s ≡ ((cancel_event h es).0, with_events c (cancel_event h es).1 s)
unfolding cancel
cancel-cancel_event c h s es given e = rw (is_zero h given, e) refl

module _ (h : ℕ) (es : List Event) (x : Event) (fresh : Fresh h es) where
  cancels :
      x.id ≡ h
      → x.cancelled ≡ false
      → cancel_event h (es ++ x ∷ []) ≡ (true, es ++ record x { cancelled = true } ∷ [])
  unfolding cancel_event
  cancels same waits =
      let hit : (x.id == h) ≡ true = ground (arith, same) in
      cancel_event-append h es (x ∷ []) fresh ∙ rw (hit, waits) refl

  cancels_none : x.cancelled ≡ true → (cancel_event h (es ++ x ∷ [])).0 ≡ false
  unfolding cancel_event
  cancels_none off = rw (cancel_event-append h es (x ∷ []) fresh, off) (ground arith)

live_last :
    (es : List Event) (x : Event) → x.cancelled ≡ false → live (es ++ x ∷ []) ≡ live es ++ x ∷ []
unfolding live
live_last es x waits = live-append es (x ∷ []) ∙ rw waits refl

live_gone : (es : List Event) (x : Event) → x.cancelled ≡ true → live (es ++ x ∷ []) ≡ live es
unfolding live
live_gone es x off = live-append es (x ∷ []) ∙ rw off (append-nil (live es))

module _ (c tp cb arg : ℕ) (s : Simulation) where
  abbrev pub given : ℕ
  given = (schedule_at c tp (some cb) arg s).0

  abbrev pub scheduled : Simulation
  scheduled = (schedule_at c tp (some cb) arg s).1

  -- Where no waiting event of the core carries the handle that schedule_at gives out: the handle is
  -- not 0, the event is at the end of those that wait, cancel with the handle answers true and
  -- leaves those that waited before, and a second cancel answers false.
  pub schedule_at-cancel :
      Fresh given (events_of s c)
      → (given ≢ 0)
        × (live (events_of scheduled c) ≡ live (events_of s c) ++ at_end c tp 0 cb arg s ∷ [])
        × ((cancel c given scheduled).0 ≡ true)
        × (live (events_of (cancel c given scheduled).1 c) ≡ live (events_of s c))
        × ((cancel c given (cancel c given scheduled).1).0 ≡ false)
  unfolding schedule_at
  schedule_at-cancel fresh =
      let es = events_of s c in
      let x = at_end c tp 0 cb arg s in
      let after = push_event c tp 0 cb arg s in
      let ok = push_event-nonzero c tp 0 cb arg s in
      let gone : Event = record x { cancelled = true } in
      let e : events_of after.1 c ≡ es ++ x ∷ [] = events_of-push_event c tp 0 cb arg s in
      let one : cancel c x.id after.1 ≡ (true, with_events c (es ++ gone ∷ []) after.1) =
        cancel-cancel_event c x.id after.1 (es ++ x ∷ []) ok e
        ∙ rw (cancels x.id es x fresh refl refl) refl in
      let left : events_of (cancel c x.id after.1).1 c ≡ es ++ gone ∷ [] =
        ap (λ r. events_of r.1 c) one ∙ events_of-with_events c (es ++ gone ∷ []) after.1 in
      (
        ok,
        ap live e ∙ live_last es x refl,
        ap (λ r. r.0) one,
        ap live left ∙ live_gone es gone refl,
        ap (λ r. r.0)
              (cancel-cancel_event c x.id (cancel c x.id after.1).1 (es ++ gone ∷ []) ok left)
            ∙ cancels_none x.id es gone fresh refl,
      )
