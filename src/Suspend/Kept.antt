-- ===== src/Suspend/Kept.antt =====
-- No resume is lost, and none is taken twice.
use cyros.Common.{
  ℕ, ◌+◌, ◌-◌, ◌≤◌, ◌<◌, ◌≡◌, refl, ap, ◌∙◌, Bool, true, false, some, arith, ◌==◌, if◌then◌else◌,
  got, Bool-cases, inl, inr,
}
use cyros.Suspend.{
  Place, Suspension, Step, suspends, runs, resumes_token, wakes, strays, commit, take_token, run,
  suspend, unparked, ready, set_token, wake, take_step, Reaches,
}

abbrev pub one_if : Bool → ℕ
one_if b = if b then 1 else 0

-- Where the token is up, the thread will look again.
abbrev Seen : Place → (token prepared : Bool) (in_flight : ℕ) → Type 0
Seen Place.parked token prepared n = token ≡ true → 0 < n
Seen Place.committing token prepared n = token ≡ true → prepared ≡ true → 0 < n
Seen Place.taking token prepared n = token ≡ true
Seen Place.outside token prepared n = Unit {0}
Seen Place.preparing token prepared n = Unit {0}
Seen Place.looking token prepared n = Unit {0}
Seen Place.clearing token prepared n = Unit {0}

-- A call of suspend that has not taken its token.
abbrev unpaid : Place → ℕ
unpaid Place.outside = 0
unpaid Place.clearing = 0
unpaid Place.preparing = 1
unpaid Place.looking = 1
unpaid Place.taking = 1
unpaid Place.committing = 1
unpaid Place.parked = 1

abbrev is_inside : Place → ℕ
is_inside Place.outside = 0
is_inside Place.clearing = 1
is_inside Place.preparing = 1
is_inside Place.looking = 1
is_inside Place.taking = 1
is_inside Place.committing = 1
is_inside Place.parked = 1

unpaid-le-inside : (p : Place) → unpaid p ≤ is_inside p
unpaid-le-inside Place.outside = omega arith
unpaid-le-inside Place.clearing = omega arith
unpaid-le-inside Place.preparing = omega arith
unpaid-le-inside Place.looking = omega arith
unpaid-le-inside Place.taking = omega arith
unpaid-le-inside Place.committing = omega arith
unpaid-le-inside Place.parked = omega arith

pub record Kept (first : ℕ) (s : Suspension) : Type 0 where
  pub seen : Seen s.place s.resume_token s.prepared s.in_flight
  pub paid : s.taken + one_if s.resume_token ≤ first + s.resumes
  pub counted : s.calls ≡ s.taken + unpaid s.place

looked-Kept :
    (b : Bool) (first : ℕ) (s : Suspension)
    → s.resume_token ≡ b
    → s.place ≡ Place.looking
    → Kept first s
    → Kept first (record s { place = if b then Place.taking else Place.committing })
looked-Kept true first s up e k = record { seen = up; paid = k.paid; counted = (rw e at k.counted) }
looked-Kept false first s down e k = record {
  seen = λ up. cc (up, down);
  paid = k.paid;
  counted = (rw e at k.counted);
}

committed-Kept :
    (b : Bool) (first : ℕ) (s : Suspension)
    → s.prepared ≡ b
    → s.place ≡ Place.committing
    → Seen Place.committing s.resume_token s.prepared s.in_flight
    → Kept first s
    → Kept first (record s { place = if b then Place.parked else Place.preparing })
committed-Kept true first s still e seen k = record {
  seen = λ up. seen up still;
  paid = k.paid;
  counted = (rw e at k.counted);
}
committed-Kept false first s revoked e seen k = record {
  seen = tt;
  paid = k.paid;
  counted = (rw e at k.counted);
}

run-Kept :
    (p : Place) (first : ℕ) (s u : Suspension)
    → s.place ≡ p
    → run p s ≡ some u
    → Kept first s
    → Kept first u
unfolding run commit take_token
run-Kept Place.preparing first s u e eq k =
    got (Kept first) _ u
      (record { seen = tt; paid = k.paid; counted = omega (arith, (rw e at k.counted)) }) eq
run-Kept Place.looking first s u e eq k =
    got (Kept first) _ u (looked-Kept s.resume_token first s refl e k) eq
run-Kept Place.taking first s u e eq k =
    let up = (rw e at k.seen) in
    got (Kept first) _ u
      (record {
        seen = tt;
        paid = ground (arith, up, k.paid);
        counted = omega (arith, (rw e at k.counted));
      })
      eq
run-Kept Place.clearing first s u e eq k =
    got (Kept first) _ u
      (record { seen = tt; paid = k.paid; counted = omega (arith, (rw e at k.counted)) }) eq
run-Kept Place.committing first s u e eq k =
    got (Kept first) _ u (committed-Kept s.prepared first s refl e (rw e at k.seen) k) eq
run-Kept Place.parked first s u e eq k = cc eq
run-Kept Place.outside first s u e eq k = cc eq

suspend-Kept :
    (p : Place) (first : ℕ) (s u : Suspension)
    → s.place ≡ p
    → suspend p s ≡ some u
    → Kept first s
    → Kept first u
unfolding suspend
suspend-Kept Place.outside first s u e eq k =
    got (Kept first) _ u
      (record { seen = tt; paid = k.paid; counted = omega (arith, (rw e at k.counted)) }) eq
suspend-Kept Place.preparing first s u e eq k = cc eq
suspend-Kept Place.looking first s u e eq k = cc eq
suspend-Kept Place.taking first s u e eq k = cc eq
suspend-Kept Place.clearing first s u e eq k = cc eq
suspend-Kept Place.committing first s u e eq k = cc eq
suspend-Kept Place.parked first s u e eq k = cc eq

unparked-unpaid : (p : Place) → unpaid p ≡ unpaid (unparked p)
unfolding unparked
unparked-unpaid Place.outside = refl
unparked-unpaid Place.clearing = refl
unparked-unpaid Place.preparing = refl
unparked-unpaid Place.looking = refl
unparked-unpaid Place.taking = refl
unparked-unpaid Place.committing = refl
unparked-unpaid Place.parked = refl

-- Once readied, a thread is not prepared, so it does not park before it looks again.
ready-Seen :
    (p : Place) (token prepared : Bool) (n m : ℕ)
    → Seen p token prepared n
    → Seen (unparked p) token false m
unfolding unparked
ready-Seen Place.parked token prepared n m seen = tt
ready-Seen Place.committing token prepared n m seen = λ up still. cc still
ready-Seen Place.taking token prepared n m seen = seen
ready-Seen Place.outside token prepared n m seen = tt
ready-Seen Place.preparing token prepared n m seen = tt
ready-Seen Place.looking token prepared n m seen = tt
ready-Seen Place.clearing token prepared n m seen = tt

set_token-Seen :
    (p : Place) (token prepared : Bool) (n : ℕ)
    → Seen p token prepared n
    → Seen p true prepared (n + 1)
set_token-Seen Place.parked token prepared n seen = λ up. omega arith
set_token-Seen Place.committing token prepared n seen = λ up still. omega arith
set_token-Seen Place.taking token prepared n seen = refl
set_token-Seen Place.outside token prepared n seen = tt
set_token-Seen Place.preparing token prepared n seen = tt
set_token-Seen Place.looking token prepared n seen = tt
set_token-Seen Place.clearing token prepared n seen = tt

take_step-Kept :
    (step : Step) (first : ℕ) (s u : Suspension)
    → take_step step s ≡ some u
    → Kept first s
    → Kept first u
unfolding take_step ready set_token wake
take_step-Kept suspends first s u eq k = suspend-Kept s.place first s u refl eq k
take_step-Kept runs first s u eq k = run-Kept s.place first s u refl eq k
take_step-Kept resumes_token first s u eq k =
    got (Kept first) _ u
      (record {
        seen = set_token-Seen s.place s.resume_token s.prepared s.in_flight k.seen;
        paid = ground (arith, k.paid);
        counted = k.counted;
      })
      eq
take_step-Kept wakes first s u eq k = elim (Bool-cases (s.in_flight == 0)) [
  | inl idle ↦ cc (rw idle at eq)
  | inr busy ↦
      got (Kept first) _ u
        (record {
          seen = ready-Seen s.place s.resume_token s.prepared s.in_flight (s.in_flight - 1) k.seen;
          paid = k.paid;
          counted = k.counted ∙ ap (λ n. s.taken + n) (unparked-unpaid s.place);
        })
        (rw busy at eq)
]
take_step-Kept strays first s u eq k =
    got (Kept first) _ u
      (record {
        seen = ready-Seen s.place s.resume_token s.prepared s.in_flight s.in_flight k.seen;
        paid = k.paid;
        counted = k.counted ∙ ap (λ n. s.taken + n) (unparked-unpaid s.place);
      })
      eq

-- A thread that is not in suspend, and nothing counted.
pub record Fresh (s : Suspension) : Type 0 where
  pub outside : s.place ≡ Place.outside
  pub nothing : (s.resumes ≡ 0) × (s.taken ≡ 0) × (s.calls ≡ 0)

reached-Kept : {s u : Suspension} → Fresh s → Reaches s u → Kept (one_if s.resume_token) u
reached-Kept {s} f Reaches.here = record {
  seen = rw f.outside tt;
  paid = omega (arith, f.nothing);
  counted = rw f.outside (omega (arith, f.nothing));
}
reached-Kept {s} f (Reaches.next {u} {v} step r eq) =
    take_step-Kept step (one_if s.resume_token) u v eq (reached-Kept f r)

-- However the steps of suspend, of resumes and of late wakes interleave: a thread is parked with the
-- token up only while the wake of a resume is on its way to it.
pub parked-without_token :
    {s u : Suspension}
    → Fresh s
    → Reaches s u
    → u.place ≡ Place.parked
    → u.in_flight ≡ 0
    → u.resume_token ≡ false
parked-without_token {s} {u} f r at_park none_left = elim (Bool-cases u.resume_token) [
  | inl up ↦ let k = reached-Kept f r in absurd (omega (arith, (rw at_park at k.seen) up))
  | inr down ↦ down
]

-- The calls of suspend that have returned.
abbrev pub returned : Suspension → ℕ
returned s = s.calls - is_inside s.place

-- However the steps interleave, a suspend that returns has taken a token of its own: there are never
-- more calls that have returned than resumes, with one for a token that was up at the start, and
-- less one for a token that is still up.
pub returned-le-resumes :
    {s u : Suspension}
    → Fresh s
    → Reaches s u
    → returned u + one_if u.resume_token ≤ one_if s.resume_token + u.resumes
returned-le-resumes {s} {u} f r =
    let k = reached-Kept f r in omega (arith, k.paid, k.counted, unpaid-le-inside u.place)
