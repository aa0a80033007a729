-- ===== src/Scheduler/Choice.antt =====
-- pick_next: the pick is the most urgent ready thread of the core, and leaves the structures in order.
use cyros.Common.{
  ℕ, ◌<◌, ◌≤◌, ◌≡◌, inl, inr, refl, ap, true, false, Option, none, some, List, [], ◌∷◌, arith, ◌==◌,
  ltb, count, is_empty, Bool-cases, ==_iff,
}
use cyros.Common.Bits.{flip_bit, test_bit}
use cyros.Kernel.Urgency.{urgency}
use cyros.Kernel.Urgency.Inheritance.{urgency-base}
use cyros.Scheduler.Matrix.{best_priority}
use cyros.Scheduler.Core.{Core, tcb_of, pop_best_thread}
use cyros.Scheduler.Picking.{
  pick_against, pick_with_holders, pick_next, pick_among, take_holder, break_tie,
}
use cyros.Scheduler.Filing.{Filed}
use cyros.Scheduler.Pick.{
  Kept, pop_best_thread-Kept, Best, best_holder-Best, Chosen, pop_best_thread-Pops,
}
use cyros.Scheduler.Sides.{
  Top, best_priority-Top, Pops-Chosen, take_holder-Chosen, listed_of_count, count_of_listed,
}

-- The rotor is in no structure.
turned-Filed : {c : Core} (rotor : ℕ) → Filed c → Filed (record c { tie_rotor = rotor })
turned-Filed rotor f = record {
  small = f.small;
  marked = f.marked;
  levels = f.levels;
  holders = f.holders;
  ready = f.ready;
  once = f.once;
  idle_out = f.idle_out;
  range = f.range;
}

turned-Chosen :
    (c : Core) (rotor : ℕ) (o : Option ℕ) (c' : Core)
    → Chosen (record c { tie_rotor = rotor }) o c'
    → Chosen c o c'
turned-Chosen c rotor none c' k = k
turned-Chosen c rotor (some t) c' (b, out) =
    (record { ready = b.ready; over_enqueued = b.over_enqueued; over_listed = b.over_listed }, out)

abbrev Picks : Core → Option (Option ℕ × Core) → Type 0
Picks c o = (r : Option ℕ × Core) × (o ≡ some r) × Chosen c r.0 r.1 × Filed r.1 × Kept c r.1

module _ (c : Core) (f : Filed c) (h v : ℕ) (on : (tcb_of c h).listed ≡ true)
    (same : v ≡ urgency c.store h)
    (least : (u : ℕ) → (tcb_of c u).listed ≡ true → v ≤ urgency c.store u) where
  pop-Picks :
      (b : ℕ)
      → b ≤ v
      → ((w : ℕ) × ((tcb_of c w).enqueued ≡ true) × ((tcb_of c w).base_priority ≡ b))
      → Picks c (some (pop_best_thread c))
  pop-Picks b le (w, w_on, e) =
      let k =
        Pops-Chosen c (pop_best_thread c) (pop_best_thread-Pops c f)
          (inl (w, w_on, λ u u_on. omega (arith, least u u_on))) in
      (pop_best_thread c, refl, k.0, k.1, pop_best_thread-Kept c)

  take-Picks :
      ((u : ℕ) → (tcb_of c u).enqueued ≡ true → v ≤ (tcb_of c u).base_priority)
      → Picks c (take_holder h c)
  take-Picks over =
      take_holder-Chosen c h f on (λ u k. omega (arith, least u k)) (λ u k. omega (arith, over u k))

turned-Picks :
    (c : Core) (rotor : ℕ) (o : Option (Option ℕ × Core))
    → Picks (record c { tie_rotor = rotor }) o
    → Picks c o
turned-Picks c rotor o (r, e, k, f, kept) = (
  r,
  e,
  turned-Chosen c rotor r.0 r.1 k,
  f,
  record { core_id = kept.core_id; idle = kept.idle; states = kept.states; cores = kept.cores },
)

break_tie-Picks :
    (c : Core) (f : Filed c) (h v b : ℕ)
    → b ≡ v
    → (tcb_of c h).listed ≡ true
    → v ≡ urgency c.store h
    → ((u : ℕ) → (tcb_of c u).listed ≡ true → v ≤ urgency c.store u)
    → Top c (some b)
    → Picks c (break_tie b h c)
unfolding break_tie
break_tie-Picks c f h v b e on same least (held, below) =
    let rotor = flip_bit b c.tie_rotor in
    let turned = record c { tie_rotor = rotor } in
    elim (Bool-cases (test_bit b rotor)) [
      | inl theirs ↦ rw theirs (
          turned-Picks c rotor _ (
            take-Picks turned (turned-Filed rotor f) h v on same least
              (λ u k. omega (arith, below u k))))
      | inr ours ↦ rw ours (
          turned-Picks c rotor _
            (pop-Picks turned (turned-Filed rotor f) h v on same least b (omega arith) held))
    ]

pick_against-Picks :
    (c : Core) (f : Filed c) (h v : ℕ) (o : Option ℕ)
    → (tcb_of c h).listed ≡ true
    → v ≡ urgency c.store h
    → ((u : ℕ) → (tcb_of c u).listed ≡ true → v ≤ urgency c.store u)
    → Top c o
    → Picks c (pick_against h v o c)
unfolding pick_against
pick_against-Picks c f h v none on same least empty =
    take-Picks c f h v on same least (λ u k. cc (empty u))
pick_against-Picks c f h v (some b) on same least (held, below) = elim (Bool-cases (ltb b v)) [
  | inl better ↦ rw better (pop-Picks c f h v on same least b (ground arith) held)
  | inr not_better ↦ elim (Bool-cases (b == v)) [
    | inl tie ↦
        rw (not_better, tie)
          (break_tie-Picks c f h v b ((==_iff b v).0 tie) on same least (held, below))
    | inr worse ↦
        rw (not_better, worse) (take-Picks c f h v on same least (λ u k. ground (arith, below u k)))
  ]
]

count_empty : (h : ℕ) (hs : List ℕ) → is_empty hs ≡ true → count h hs ≡ 0
unfolding count
count_empty h [] e = refl
count_empty h (x ∷ hs) e = cc

-- The urgency of a listed holder is in the range of the priorities.
in_range :
    {c : Core} (f : Filed c) (v : ℕ) (hs : List ℕ)
    → hs ≡ c.holders
    → is_empty hs ≡ false
    → ((h : ℕ) → 0 < count h hs → v ≤ urgency c.store h)
    → v < 0xff
unfolding count
in_range f v [] e held least = cc
in_range {c} f v (x ∷ hs) e held least =
    let once : 0 < count x (x ∷ hs) = ground arith in
    let on = listed_of_count f x (rw (← e) once) in
    let pinned = (f.ready x (ground arith)).1 in
    omega (arith, least x once, (urgency-base c.store x).0, f.range x pinned, f.small)

pick_among-Picks :
    (c : Core) (f : Filed c) (r : Option ℕ × ℕ)
    → Best c.store none 0xff c.holders r
    → is_empty c.holders ≡ false
    → Picks c (pick_among r c)
unfolding pick_among
pick_among-Picks c f (none, v) b held = elim b.found [
  | inl e ↦ absurd (omega (arith, ap (λ r. r.1) e, in_range f v c.holders refl held b.least))
  | inr (k, p, e, same) ↦ cc e
]
pick_among-Picks c f (some h, v) b held = elim b.found [
  | inl e ↦ cc (ap (λ r. r.0) e)
  | inr (k, p, e, same) ↦
      let first : h ≡ k = cc in
      pick_against-Picks c f h v (best_priority c.matrix) (listed_of_count f h (rw first p))
        (rw first same) (λ u on. b.least u (count_of_listed f u on)) (best_priority-Top c f)
]

-- On a core whose ready structures are in order, pick_next goes through with no assert. It picks
-- nobody exactly where no thread is ready; else the pick is a ready thread, as urgent by the
-- inheritance fold as every listed holder and as the base priority of every enqueued thread, and it
-- is in neither structure then. The structures stay in order, and no thread's state or core changes.
pub pick_next-Chosen :
    (c : Core)
    → Filed c
    → (r : Option ℕ × Core) × (pick_next c ≡ some r) × Chosen c r.0 r.1 × Filed r.1 × Kept c r.1
unfolding pick_next pick_with_holders
pick_next-Chosen c f = elim (Bool-cases (is_empty c.holders)) [
  | inl empty ↦
      let k =
        Pops-Chosen c (pop_best_thread c) (pop_best_thread-Pops c f)
          (inr (λ h. ground (arith, f.holders h, count_empty h c.holders))) in
      (pop_best_thread c, rw empty refl, k.0, k.1, pop_best_thread-Kept c)
  | inr held ↦ rw held (pick_among-Picks c f _ (best_holder-Best c.store none 0xff c.holders) held)
]
