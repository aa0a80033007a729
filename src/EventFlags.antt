-- ===== src/EventFlags.antt =====
-- event_flags (src/userlib/sync/event_flags.cpp): 32 flags that threads wait on by mask, under sets,
-- clears and attempts in any order. Each access of the flags is a step of its own.
pub mod Conservation
mod Tests
use cyros.Common.{
  ℕ, suc, ◌+◌, ◌≡◌, Bool, true, false, not, ◌&&◌, ◌||◌, Option, none, some, List, ◌==◌,
  if◌then◌else◌, update, length, ◌>>=◌,
}
use cyros.Common.Bits.{test_bit}
use cyros.Common.Words.{and32, or32, without32}

pub data FlagsMatch : Type 0 where
  any : FlagsMatch
  all : FlagsMatch

pub data FlagsExit : Type 0 where
  keep : FlagsExit
  consume : FlagsExit

pub record Request : Type 0 where
  pub mask : ℕ
  pub matching : FlagsMatch
  pub exit : FlagsExit
  pub matched : ℕ

unfoldable pub matches : FlagsMatch → (hit mask : ℕ) → Bool
matches FlagsMatch.any hit mask = not (hit == 0)
matches FlagsMatch.all hit mask = hit == mask

unfoldable pub satisfied_by : Request → (flags : ℕ) → Bool
unfolding matches
satisfied_by r flags = matches r.matching (and32 flags r.mask) r.mask

-- A thread's attempt: at the test of the flags it last saw, or ended.
pub data Attempt : Type 0 where
  resting : Attempt
  looking : Request → (current : ℕ) → Attempt
  satisfied : Request → Attempt
  unsatisfied : Attempt

-- Beside the flags and the attempts: how often each bit has come on, been cleared, and been among the
-- bits with which a consuming attempt was satisfied.
pub record EventFlags : Type 0 where
  pub bits : ℕ
  pub attempt : ℕ → Attempt
  pub risen : ℕ → ℕ
  pub fallen : ℕ → ℕ
  pub consumed : ℕ → ℕ

pub data Step : Type 0 where
  sets : ℕ → Step
  clears : ℕ → Step
  begins : ℕ → Request → Step
  runs : ℕ → Bool → Step
  ends : ℕ → Step

-- One more for each bit that the test accepts.
abbrev pub tally : (ℕ → Bool) → (ℕ → ℕ) → ℕ → ℕ
tally hits total b = (if hits b then 1 else 0) + total b

-- set, up to the wake.
unfoldable pub set_bits : ℕ → EventFlags → EventFlags
set_bits mask s = record s {
  bits = or32 s.bits mask;
  risen = tally (λ b. test_bit b mask && not (test_bit b s.bits)) s.risen;
}

unfoldable pub clear : ℕ → EventFlags → EventFlags
clear mask s = record s {
  bits = without32 s.bits mask;
  fallen = tally (λ b. test_bit b mask && test_bit b s.bits) s.fallen;
}

-- The load of attempt, behind the requirement of wait and try_wait.
unfoldable pub begin_attempt : ℕ → Request → Attempt → EventFlags → Option EventFlags
begin_attempt t r Attempt.resting s =
    if r.mask == 0
    then none
    else some (record s { attempt = update s.attempt t (Attempt.looking r s.bits) })
begin_attempt t r (Attempt.looking q current) s = none
begin_attempt t r (Attempt.satisfied q) s = none
begin_attempt t r Attempt.unsatisfied s = none

abbrev pub with_hit : Request → ℕ → Request
with_hit r current = record r { matched = and32 current r.mask }

-- The exchange; a spurious failure looks again, too.
unfoldable pub compare_exchange :
    ℕ → Request → (current : ℕ) (spurious : Bool) → EventFlags → EventFlags
compare_exchange t r current spurious s =
    if spurious || not (s.bits == current)
    then record s { attempt = update s.attempt t (Attempt.looking r s.bits) }
    else record s {
      bits = without32 current (and32 current r.mask);
      attempt = update s.attempt t (Attempt.satisfied (with_hit r current));
    }

unfoldable pub take_hit :
    FlagsExit → ℕ → Request → (current : ℕ) (spurious : Bool) → EventFlags → EventFlags
unfolding compare_exchange
take_hit FlagsExit.keep t r current spurious s = record s {
  attempt = update s.attempt t (Attempt.satisfied (with_hit r current));
}
take_hit FlagsExit.consume t r current spurious s = compare_exchange t r current spurious s

-- The bits that an attempt's answer has consumed.
abbrev pub consumes : FlagsExit → ℕ → ℕ → Bool
consumes FlagsExit.keep word b = false
consumes FlagsExit.consume word b = test_bit b word

abbrev pub consumed_by : Attempt → ℕ → Bool
consumed_by Attempt.resting b = false
consumed_by Attempt.unsatisfied b = false
consumed_by (Attempt.looking r current) b = false
consumed_by (Attempt.satisfied r) b = consumes r.exit r.matched b

-- The history, after a round of the thread's attempt: what its answer says, whatever the flags are.
unfoldable pub answered : ℕ → EventFlags → EventFlags
answered t s = record s { consumed = tally (consumed_by (s.attempt t)) s.consumed }

-- A round of attempt's loop.
unfoldable pub look : ℕ → Request → (current : ℕ) (spurious : Bool) → EventFlags → EventFlags
unfolding satisfied_by take_hit
look t r current spurious s =
    if satisfied_by r current
    then take_hit r.exit t r current spurious s
    else record s { attempt = update s.attempt t Attempt.unsatisfied }

unfoldable pub run : ℕ → Bool → Attempt → EventFlags → Option EventFlags
unfolding look answered
run t spurious (Attempt.looking r current) s = some (answered t (look t r current spurious s))
run t spurious Attempt.resting s = none
run t spurious (Attempt.satisfied r) s = none
run t spurious Attempt.unsatisfied s = none

-- The attempt's answer is given.
unfoldable pub end_attempt : ℕ → Attempt → EventFlags → Option EventFlags
end_attempt t (Attempt.satisfied r) s =
    some (record s { attempt = update s.attempt t Attempt.resting })
end_attempt t Attempt.unsatisfied s =
    some (record s { attempt = update s.attempt t Attempt.resting })
end_attempt t Attempt.resting s = none
end_attempt t (Attempt.looking r current) s = none

unfoldable pub take_step : Step → EventFlags → Option EventFlags
unfolding set_bits clear begin_attempt run end_attempt
take_step (sets mask) s = some (set_bits mask s)
take_step (clears mask) s = some (clear mask s)
take_step (begins t r) s = begin_attempt t r (s.attempt t) s
take_step (runs t spurious) s = run t spurious (s.attempt t) s
take_step (ends t) s = end_attempt t (s.attempt t) s

pub data Reaches (s : EventFlags) : EventFlags → Type 0 where
  here : Reaches s s
  next : {u v : EventFlags} (step : Step) → Reaches s u → take_step step u ≡ some v → Reaches s v
