-- ===== src/Handoff/OneToken.antt =====
-- What an acquire of the handoff semaphore holds.
use cyros.Common.{
  ℕ, ◌+◌, ◌-◌, ◌<◌, ◌≡◌, refl, Bool, true, false, not, some, arith, ◌==◌, ltb, if◌then◌else◌, got,
  inl, inr, ◌⊎◌,
}
use cyros.Handoff.{
  Place, Acquire, Step, acquires, runs, hands_over, wakes, strays, others, try_acquire, try_satisfy,
  disarm, settle, run, acquire, hand_over, unparked, ready, wake, take_step, Reaches,
}

abbrev one_if : Bool → ℕ
one_if b = if b then 1 else 0

-- What a place says of queued, chosen_by_wake, took_counted, prepared, in_flight and held.
abbrev At : Place → (queued chosen took prepared : Bool) (in_flight held : ℕ) → Type 0
At Place.resting q c t p n h = q ≡ false
At Place.trying q c t p n h = (q ≡ false) × (c ≡ false) × (t ≡ false) × (h ≡ 0)
At Place.arming q c t p n h = (q ≡ false) × (c ≡ false) × (t ≡ false) × (h ≡ 0)
At Place.polling q c t p n h =
    (c ≡ false) × (t ≡ false) × (h ≡ one_if (not q)) × (q ≡ false → p ≡ true → 0 < n)
At Place.committing q c t p n h =
    (c ≡ false) × (t ≡ false) × (h ≡ one_if (not q)) × (q ≡ false → p ≡ true → 0 < n)
At Place.parked q c t p n h = (c ≡ false) × (t ≡ false) × (h ≡ one_if (not q)) × (q ≡ false → 0 < n)
At (Place.disarming true) q c t p n h = (c ≡ false) × (t ≡ true) × (h ≡ 1 + one_if (not q))
At (Place.disarming false) q c t p n h = (c ≡ false) × (t ≡ false) × (h ≡ one_if (not q))
At Place.repolling q c t p n h = (q ≡ false) × (t ≡ false) × (h ≡ one_if c)
At Place.settling q c t p n h = (q ≡ false) × (0 < h) × (h ≡ one_if t + one_if c)
At Place.returned q c t p n h = (q ≡ false) × (h ≡ 1)

abbrev Kept : Acquire → Type 0
Kept s = At s.place s.queued s.chosen_by_wake s.took_counted s.prepared s.in_flight s.held

polled-Kept :
    (b : Bool) (s : Acquire)
    → ltb 0 s.counter ≡ b
    → At Place.polling s.queued s.chosen_by_wake s.took_counted s.prepared s.in_flight s.held
    → (u : Acquire) → run Place.polling s ≡ some u
    → Kept u
unfolding run try_satisfy
polled-Kept true s e (c, t, h, w) u eq = got Kept _ u (rw (c, e) (refl, refl, ground (arith, h))) eq
polled-Kept false s e (c, t, h, w) u eq = got Kept _ u (rw (c, e) (refl, t, h, w)) eq

repolled-Kept :
    (c b : Bool) (s : Acquire)
    → s.chosen_by_wake ≡ c
    → ltb 0 s.counter ≡ b
    → At Place.repolling s.queued c s.took_counted s.prepared s.in_flight s.held
    → (u : Acquire) → run Place.repolling s ≡ some u
    → Kept u
unfolding run try_satisfy
repolled-Kept true b s ce e (q, t, h) u eq =
    got Kept _ u (rw ce (q, ground (arith, h), ground (arith, h, t))) eq
repolled-Kept false true s ce e (q, t, h) u eq =
    got Kept _ u (rw (ce, e) (q, ground (arith, h), ground (arith, h))) eq
repolled-Kept false false s ce e (q, t, h) u eq = got Kept _ u (rw (ce, e) (q, refl, t, h)) eq

disarmed-Kept :
    (q sat : Bool) (s : Acquire)
    → s.queued ≡ q
    → At (Place.disarming sat) q s.chosen_by_wake s.took_counted s.prepared s.in_flight s.held
    → Kept (disarm sat s)
unfolding disarm
disarmed-Kept true true s qe (c, t, h) = rw qe (refl, ground (arith, h), rw (t, c) h)
disarmed-Kept false true s qe (c, t, h) = rw qe (refl, ground (arith, h), rw t h)
disarmed-Kept true false s qe (c, t, h) = rw qe (refl, t, rw c h)
disarmed-Kept false false s qe (c, t, h) = rw qe (refl, t, h)

settled-Kept :
    (c t : Bool) (s : Acquire)
    → s.chosen_by_wake ≡ c
    → s.took_counted ≡ t
    → At Place.settling s.queued c t s.prepared s.in_flight s.held
    → Kept (settle s)
unfolding settle
settled-Kept c t s ce te (q, pos, h) = rw (ce, te) (q, ground (arith, pos, h))

committed-Kept :
    (b : Bool) (s : Acquire)
    → s.prepared ≡ b
    → At Place.committing s.queued s.chosen_by_wake s.took_counted s.prepared s.in_flight s.held
    → Kept (record s { place = if b then Place.parked else Place.disarming false })
committed-Kept true s e (c, t, h, w) = (c, t, h, λ gone. w gone e)
committed-Kept false s e (c, t, h, w) = (c, t, h)

tried-Kept :
    (b : Bool) (s : Acquire)
    → ltb 0 s.counter ≡ b
    → At Place.trying s.queued s.chosen_by_wake s.took_counted s.prepared s.in_flight s.held
    → (u : Acquire) → run Place.trying s ≡ some u
    → Kept u
unfolding run try_acquire
tried-Kept true s e (q, c, t, h) u eq = got Kept _ u (rw e (q, ground (arith, h))) eq
tried-Kept false s e (q, c, t, h) u eq = got Kept _ u (rw e (q, c, t, h)) eq

known_here :
    {p : Place} (s : Acquire)
    → s.place ≡ p
    → Kept s
    → At p s.queued s.chosen_by_wake s.took_counted s.prepared s.in_flight s.held
known_here s e k = (rw e at k)

run-Kept : (p : Place) (s u : Acquire) → s.place ≡ p → run p s ≡ some u → Kept s → Kept u
unfolding run
run-Kept Place.resting s u e eq k = cc
run-Kept Place.trying s u e eq k = tried-Kept (ltb 0 s.counter) s refl (known_here s e k) u eq
run-Kept Place.arming s u e eq k =
    let (q, c, t, h) = known_here s e k in got Kept _ u (c, t, h, λ gone p. cc gone) eq
run-Kept Place.polling s u e eq k = polled-Kept (ltb 0 s.counter) s refl (known_here s e k) u eq
run-Kept Place.committing s u e eq k =
    got Kept _ u (committed-Kept s.prepared s refl (known_here s e k)) eq
run-Kept Place.parked s u e eq k = cc
run-Kept (Place.disarming sat) s u e eq k =
    got Kept _ u (disarmed-Kept s.queued sat s refl (known_here s e k)) eq
run-Kept Place.repolling s u e eq k =
    repolled-Kept s.chosen_by_wake (ltb 0 s.counter) s refl refl (known_here s e k) u eq
run-Kept Place.settling s u e eq k =
    got Kept _ u (settled-Kept s.chosen_by_wake s.took_counted s refl refl (known_here s e k)) eq
run-Kept Place.returned s u e eq k = cc

acquire-Kept : (p : Place) (s u : Acquire) → s.place ≡ p → acquire p s ≡ some u → Kept s → Kept u
unfolding acquire
acquire-Kept Place.resting s u e eq k = got Kept _ u (known_here s e k, refl, refl, refl) eq
acquire-Kept Place.returned s u e eq k = got Kept _ u ((known_here s e k).0, refl, refl, refl) eq
acquire-Kept Place.trying s u e eq k = cc
acquire-Kept Place.arming s u e eq k = cc
acquire-Kept Place.polling s u e eq k = cc
acquire-Kept Place.committing s u e eq k = cc
acquire-Kept Place.parked s u e eq k = cc
acquire-Kept (Place.disarming sat) s u e eq k = cc
acquire-Kept Place.repolling s u e eq k = cc
acquire-Kept Place.settling s u e eq k = cc

handed-Kept :
    (c t r : Bool) (n h : ℕ) (p : Place) → At p true c t r n h → At p false c t r (n + 1) (h + 1)
handed-Kept c t r n h Place.resting k = cc
handed-Kept c t r n h Place.trying k = cc (k.0)
handed-Kept c t r n h Place.arming k = cc (k.0)
handed-Kept c t r n h Place.polling (ce, te, he, w) =
    (ce, te, omega (arith, he), λ gone up. omega arith)
handed-Kept c t r n h Place.committing (ce, te, he, w) =
    (ce, te, omega (arith, he), λ gone up. omega arith)
handed-Kept c t r n h Place.parked (ce, te, he, w) =
    (ce, te, omega (arith, he), λ gone. omega arith)
handed-Kept c t r n h (Place.disarming true) (ce, te, he) = (ce, te, omega (arith, he))
handed-Kept c t r n h (Place.disarming false) (ce, te, he) = (ce, te, omega (arith, he))
handed-Kept c t r n h Place.repolling k = cc (k.0)
handed-Kept c t r n h Place.settling k = cc (k.0)
handed-Kept c t r n h Place.returned k = cc (k.0)

readied-Kept :
    (q c t r : Bool) (n m h : ℕ) (p : Place) → At p q c t r n h → At (unparked p) q c t false m h
unfolding unparked
readied-Kept q c t r n m h Place.resting k = k
readied-Kept q c t r n m h Place.trying k = k
readied-Kept q c t r n m h Place.arming k = k
readied-Kept q c t r n m h Place.polling (ce, te, he, w) = (ce, te, he, λ gone up. cc up)
readied-Kept q c t r n m h Place.committing (ce, te, he, w) = (ce, te, he, λ gone up. cc up)
readied-Kept q c t r n m h Place.parked (ce, te, he, w) = (ce, te, he)
readied-Kept q c t r n m h (Place.disarming true) k = k
readied-Kept q c t r n m h (Place.disarming false) k = k
readied-Kept q c t r n m h Place.repolling k = k
readied-Kept q c t r n m h Place.settling k = k
readied-Kept q c t r n m h Place.returned k = k

hand_over-Kept : (b : Bool) (s u : Acquire) → s.queued ≡ b → hand_over s ≡ some u → Kept s → Kept u
unfolding hand_over
hand_over-Kept true s u e eq k =
    got Kept _ u
      (handed-Kept s.chosen_by_wake s.took_counted s.prepared s.in_flight s.held s.place
        (rw e at k))
      (rw e at eq)
hand_over-Kept false s u e eq k = cc (rw e at eq)

ready-Kept : (n : ℕ) (s : Acquire) → Kept s → Kept (ready (record s { in_flight = n }))
unfolding ready
ready-Kept n s k =
    readied-Kept s.queued s.chosen_by_wake s.took_counted s.prepared s.in_flight n s.held s.place k

wake-Kept : (b : Bool) (s u : Acquire) → (s.in_flight == 0) ≡ b → wake s ≡ some u → Kept s → Kept u
unfolding wake
wake-Kept true s u e eq k = cc (rw e at eq)
wake-Kept false s u e eq k = got Kept _ u (ready-Kept (s.in_flight - 1) s k) (rw e at eq)

take_step-Kept : (step : Step) (s u : Acquire) → take_step step s ≡ some u → Kept s → Kept u
unfolding take_step
take_step-Kept acquires s u eq k = acquire-Kept s.place s u refl eq k
take_step-Kept runs s u eq k = run-Kept s.place s u refl eq k
take_step-Kept hands_over s u eq k = hand_over-Kept s.queued s u refl eq k
take_step-Kept wakes s u eq k = wake-Kept (s.in_flight == 0) s u refl eq k
take_step-Kept strays s u eq k = got Kept _ u (ready-Kept s.in_flight s k) eq
take_step-Kept (others n) s u eq k = got Kept _ u k eq

-- No acquire has begun.
pub record Fresh (s : Acquire) : Type 0 where
  pub at_rest : s.place ≡ Place.resting
  pub alone : s.queued ≡ false

Fresh-Kept : (s : Acquire) → Fresh s → Kept s
Fresh-Kept s f = rw (f.at_rest) (f.alone)

reached-Kept : {s u : Acquire} → Fresh s → Reaches s u → Kept u
reached-Kept {s} f Reaches.here = Fresh-Kept s f
reached-Kept f (Reaches.next {u} {v} step r eq) = take_step-Kept step u v eq (reached-Kept f r)

parked_holds :
    (q : Bool) (s : Acquire)
    → s.queued ≡ q
    → At Place.parked s.queued s.chosen_by_wake s.took_counted s.prepared s.in_flight s.held
    → ((s.queued ≡ true) × (s.held ≡ 0)) ⊎ ((0 < s.in_flight) × (s.held ≡ 1))
parked_holds true s e (c, t, h, w) = inl (e, ground (arith, h, e))
parked_holds false s e (c, t, h, w) = inr (w e, ground (arith, h, e))

-- However the steps of an acquire, hand-overs, wakes and what others do to the counter interleave: an
-- acquire that has returned has exactly one token, and one that is parked has none and is queued, or
-- has one whose wake is on its way.
pub returned-one_token :
    {s u : Acquire}
    → Fresh s
    → Reaches s u
    → (u.place ≡ Place.returned → u.held ≡ 1)
      × (u.place ≡ Place.parked
          → ((u.queued ≡ true) × (u.held ≡ 0)) ⊎ ((0 < u.in_flight) × (u.held ≡ 1)))
returned-one_token {s} {u} f r =
    let k = reached-Kept f r in
    (λ e. (known_here u e k).1, λ e. parked_holds u.queued u refl (known_here u e k))
