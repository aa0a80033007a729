-- ===== src/EventFlags/Conservation.antt =====
-- Every bit that comes on is cleared or consumed at most once, and an attempt's answer satisfies it.
use cyros.Common.{
  ℕ, ◌+◌, ◌<◌, ◌≡◌, ◌≢◌, refl, ap, ◌∙◌, Bool, false, true, not, ◌&&◌, ◌||◌, some, arith, ◌==◌,
  if◌then◌else◌, update, got, subst, if_each, Bool-cases, inl, inr,
}
use cyros.Common.Bits.{test_bit}
use cyros.Common.Words.{and32, without32, test_bit-bitwise}
use cyros.EventFlags.{
  FlagsMatch, FlagsExit, Request, matches, satisfied_by, Attempt, EventFlags, Step, sets, clears,
  begins, runs, ends, set_bits, clear, begin_attempt, with_hit, compare_exchange, take_hit, look,
  run, end_attempt, consumes, consumed_by, answered, take_step, Reaches,
}

-- Of bits that were on and the mask: some of them, or all.
abbrev pub Satisfies : FlagsMatch → (matched mask : ℕ) → Type 0
Satisfies FlagsMatch.any matched mask = matched ≢ 0
Satisfies FlagsMatch.all matched mask = matched ≡ mask

-- What an attempt keeps: its mask is not empty, and an answer's bits are some of the mask, not none,
-- and all of it where all are asked.
abbrev pub Answered : Attempt → Type 0
Answered Attempt.resting = Unit {0}
Answered Attempt.unsatisfied = Unit {0}
Answered (Attempt.looking r current) = r.mask ≢ 0
Answered (Attempt.satisfied r) =
    Satisfies r.matching r.matched r.mask
    × (r.matched ≢ 0)
    × ((b : ℕ) → b < 32 → test_bit b r.matched ≡ true → test_bit b r.mask ≡ true)

abbrev pub on : ℕ → ℕ → ℕ
on b word = if test_bit b word then 1 else 0

pub record Conserved (first : ℕ) (s : EventFlags) : Type 0 where
  pub each_bit : (b : ℕ) → b < 32 → on b first + s.risen b ≡ on b s.bits + s.fallen b + s.consumed b
  pub answers : (t : ℕ) → Answered (s.attempt t)

set_bits-Conserved :
    (first mask : ℕ) (s : EventFlags) → Conserved first s → Conserved first (set_bits mask s)
unfolding set_bits
set_bits-Conserved first mask s k = record {
  each_bit =
      λ b lt. ground (arith, k.each_bit b lt, test_bit-bitwise (λ x y. x || y) 32 b s.bits mask lt);
  answers = k.answers;
}

clear-Conserved :
    (first mask : ℕ) (s : EventFlags) → Conserved first s → Conserved first (clear mask s)
unfolding clear
clear-Conserved first mask s k = record {
  each_bit = λ b lt.
      ground (arith, k.each_bit b lt, test_bit-bitwise (λ x y. x && not y) 32 b s.bits mask lt);
  answers = k.answers;
}

update_same : (f : ℕ → Attempt) (t : ℕ) (a : Attempt) → update f t a t ≡ a
update_same f t a = ground arith

update-Answered :
    (f : ℕ → Attempt) (t : ℕ) (a : Attempt) (u : ℕ)
    → Answered a
    → Answered (f u)
    → Answered (update f t a u)
update-Answered f t a u new old = if_each Answered (u == t) a (f u) (λ e. new) (λ e. old)

-- A move of one thread's attempt.
move-Conserved :
    (first t : ℕ) (a : Attempt) (s : EventFlags)
    → Answered a
    → Conserved first s
    → Conserved first (record s { attempt = update s.attempt t a })
move-Conserved first t a s answered k = record {
  each_bit = k.each_bit;
  answers = λ u. update-Answered s.attempt t a u answered (k.answers u);
}

matches-nonzero : (m : FlagsMatch) (hit mask : ℕ) → matches m hit mask ≡ true → mask ≢ 0 → hit ≢ 0
unfolding matches
matches-nonzero FlagsMatch.any hit mask e nz = ground arith
matches-nonzero FlagsMatch.all hit mask e nz = ground arith

matches-Satisfies :
    (m : FlagsMatch) (hit mask : ℕ) → matches m hit mask ≡ true → Satisfies m hit mask
unfolding matches
matches-Satisfies FlagsMatch.any hit mask e = ground arith
matches-Satisfies FlagsMatch.all hit mask e = ground arith

hit-Answered :
    (r : Request) (current : ℕ)
    → r.mask ≢ 0
    → satisfied_by r current ≡ true
    → Answered (Attempt.satisfied (with_hit r current))
unfolding satisfied_by
hit-Answered r current nz e = (
  matches-Satisfies r.matching (and32 current r.mask) r.mask e,
  matches-nonzero r.matching (and32 current r.mask) r.mask e nz,
  λ b lt on. ground (arith, on, test_bit-bitwise (λ x y. x && y) 32 b current r.mask lt),
)

-- An attempt that has consumed nothing.
answered-Conserved :
    (first t : ℕ) (a : Attempt) (s : EventFlags)
    → Answered a
    → ((b : ℕ) → consumed_by a b ≡ false)
    → Conserved first s
    → Conserved first (answered t (record s { attempt = update s.attempt t a }))
unfolding answered
answered-Conserved first t a s known none_taken k = record {
  each_bit = λ b lt.
      let now : consumed_by (update s.attempt t a t) b ≡ false =
        ap (λ x. consumed_by x b) (update_same s.attempt t a) ∙ none_taken b in
      rw now (omega (arith, k.each_bit b lt));
  answers = λ u. update-Answered s.attempt t a u known (k.answers u);
}

-- The exchange that succeeds takes off the flags the bits that its answer consumes.
exchanged-Conserved :
    (first t : ℕ) (r : Request) (current : ℕ) (s : EventFlags)
    → s.bits ≡ current
    → r.exit ≡ FlagsExit.consume
    → r.mask ≢ 0
    → satisfied_by r current ≡ true
    → Conserved first s
    → Conserved first (
        answered t (record s {
          bits = without32 current (and32 current r.mask);
          attempt = update s.attempt t (Attempt.satisfied (with_hit r current));
        }))
unfolding answered
exchanged-Conserved first t r current s same exits nz e k = record {
  each_bit = λ b lt.
      let now : consumed_by (update s.attempt t (Attempt.satisfied (with_hit r current)) t) b
          ≡ test_bit b (and32 current r.mask) =
        ap (λ x. consumed_by x b) (update_same s.attempt t (Attempt.satisfied (with_hit r current)))
        ∙ ap (λ x. consumes x (and32 current r.mask) b) exits in
      rw now (
        ground (
          arith,
          k.each_bit b lt,
          same,
          test_bit-bitwise (λ x y. x && y) 32 b current r.mask lt,
          test_bit-bitwise (λ x y. x && not y) 32 b current (and32 current r.mask) lt,
        ));
  answers = λ u.
      update-Answered s.attempt t (Attempt.satisfied (with_hit r current)) u
        (hit-Answered r current nz e) (k.answers u);
}

compare_exchange-Conserved :
    (first t : ℕ) (r : Request) (current : ℕ) (spurious : Bool) (s : EventFlags)
    → r.exit ≡ FlagsExit.consume
    → r.mask ≢ 0
    → satisfied_by r current ≡ true
    → Conserved first s
    → Conserved first (answered t (compare_exchange t r current spurious s))
unfolding compare_exchange
compare_exchange-Conserved first t r current spurious s exits nz e k =
    if_each (λ x. Conserved first (answered t x)) (spurious || not (s.bits == current)) _ _
      (λ again. answered-Conserved first t (Attempt.looking r s.bits) s nz (λ b. refl) k)
      (λ swapped. exchanged-Conserved first t r current s (ground arith) exits nz e k)

take_hit-Conserved :
    (exit : FlagsExit) (first t : ℕ) (r : Request) (current : ℕ) (spurious : Bool) (s : EventFlags)
    → r.exit ≡ exit
    → r.mask ≢ 0
    → satisfied_by r current ≡ true
    → Conserved first s
    → Conserved first (answered t (take_hit exit t r current spurious s))
unfolding take_hit
take_hit-Conserved FlagsExit.keep first t r current spurious s exits nz e k =
    answered-Conserved first t (Attempt.satisfied (with_hit r current)) s
      (hit-Answered r current nz e) (λ b. rw exits refl) k
take_hit-Conserved FlagsExit.consume first t r current spurious s exits nz e k =
    compare_exchange-Conserved first t r current spurious s exits nz e k

look-Conserved :
    (first t : ℕ) (r : Request) (current : ℕ) (spurious : Bool) (s : EventFlags)
    → r.mask ≢ 0
    → Conserved first s
    → Conserved first (answered t (look t r current spurious s))
unfolding look
look-Conserved first t r current spurious s nz k =
    if_each (λ x. Conserved first (answered t x)) (satisfied_by r current) _ _
      (λ e. take_hit-Conserved r.exit first t r current spurious s refl nz e k)
      (λ e. answered-Conserved first t Attempt.unsatisfied s tt (λ b. refl) k)

run-Conserved :
    (first t : ℕ) (spurious : Bool) (a : Attempt) (s u : EventFlags)
    → s.attempt t ≡ a
    → run t spurious a s ≡ some u
    → Conserved first s
    → Conserved first u
unfolding run
run-Conserved first t spurious (Attempt.looking r current) s u now eq k =
    got (Conserved first) _ u
      (look-Conserved first t r current spurious s (subst Answered now (k.answers t)) k) eq
run-Conserved first t spurious Attempt.resting s u now eq k = cc eq
run-Conserved first t spurious (Attempt.satisfied r) s u now eq k = cc eq
run-Conserved first t spurious Attempt.unsatisfied s u now eq k = cc eq

begin_attempt-Conserved :
    (first t : ℕ) (r : Request) (a : Attempt) (s u : EventFlags)
    → begin_attempt t r a s ≡ some u
    → Conserved first s
    → Conserved first u
unfolding begin_attempt
begin_attempt-Conserved first t r Attempt.resting s u eq k = elim (Bool-cases (r.mask == 0)) [
  | inl empty ↦ absurd (ground (arith, eq))
  | inr full ↦
      let nz : r.mask ≢ 0 = ground arith in
      got (Conserved first) _ u (move-Conserved first t (Attempt.looking r s.bits) s nz k)
        (rw full at eq)
]
begin_attempt-Conserved first t r (Attempt.looking q current) s u eq k = cc eq
begin_attempt-Conserved first t r (Attempt.satisfied q) s u eq k = cc eq
begin_attempt-Conserved first t r Attempt.unsatisfied s u eq k = cc eq

end_attempt-Conserved :
    (first t : ℕ) (a : Attempt) (s u : EventFlags)
    → end_attempt t a s ≡ some u
    → Conserved first s
    → Conserved first u
unfolding end_attempt
end_attempt-Conserved first t (Attempt.satisfied r) s u eq k =
    got (Conserved first) _ u (move-Conserved first t Attempt.resting s tt k) eq
end_attempt-Conserved first t Attempt.unsatisfied s u eq k =
    got (Conserved first) _ u (move-Conserved first t Attempt.resting s tt k) eq
end_attempt-Conserved first t Attempt.resting s u eq k = cc eq
end_attempt-Conserved first t (Attempt.looking r current) s u eq k = cc eq

take_step-Conserved :
    (first : ℕ) (step : Step) (s u : EventFlags)
    → take_step step s ≡ some u
    → Conserved first s
    → Conserved first u
unfolding take_step
take_step-Conserved first (sets mask) s u eq k =
    got (Conserved first) _ u (set_bits-Conserved first mask s k) eq
take_step-Conserved first (clears mask) s u eq k =
    got (Conserved first) _ u (clear-Conserved first mask s k) eq
take_step-Conserved first (begins t r) s u eq k =
    begin_attempt-Conserved first t r (s.attempt t) s u eq k
take_step-Conserved first (runs t spurious) s u eq k =
    run-Conserved first t spurious (s.attempt t) s u refl eq k
take_step-Conserved first (ends t) s u eq k = end_attempt-Conserved first t (s.attempt t) s u eq k

-- Flags that no thread is at, and nothing counted.
pub record Fresh (s : EventFlags) : Type 0 where
  pub nobody : (t : ℕ) → s.attempt t ≡ Attempt.resting
  pub nothing : (b : ℕ) → (s.risen b ≡ 0) × (s.fallen b ≡ 0) × (s.consumed b ≡ 0)

Fresh-Conserved : (s : EventFlags) → Fresh s → Conserved s.bits s
Fresh-Conserved s f = record {
  each_bit = λ b lt. omega (arith, f.nothing b);
  answers = λ t. rw (f.nobody t) tt;
}

-- However sets, clears and the rounds of attempts interleave, and whichever exchanges fail: of
-- each of the 32 bits, the times it was on at first or came on are the times it was cleared, those
-- a consuming attempt was satisfied with it, and one more where it is on; so that no two attempts
-- consume one set of a bit. The bits with which an attempt is satisfied are bits of its mask, not
-- none, and the whole mask where all are asked.
pub reached-Conserved : {s u : EventFlags} → Fresh s → Reaches s u → Conserved s.bits u
reached-Conserved {s} f Reaches.here = Fresh-Conserved s f
reached-Conserved {s} f (Reaches.next {u} {v} step r eq) =
    take_step-Conserved s.bits step u v eq (reached-Conserved f r)
