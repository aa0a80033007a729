-- ===== src/Spinlock.antt =====
-- spinlock (src/kernel/spinlock.cpp and src/kernel/public_headers/spinlock.hpp) under several cores,
-- each access of the flag and of the token a step of its own.
pub mod Moves
pub mod Exclusion
pub mod Restoring
mod Tests
use cyros.Common.{ℕ, ◌≡◌, Bool, true, false, Option, none, some, ◌==◌, if◌then◌else◌, update}

-- What a core does next. A core inside a call, or with the lock, keeps what it saved on entering.
pub data Phase (T : Type 0) : Type 0 where
  outside : Phase T
  spinning : T → Phase T
  trying : T → Phase T
  refused : T → Phase T
  storing : T → Phase T
  holding : T → Phase T
  releasing : Phase T

-- `interrupts` is each core's interrupt state; `entered` is what it was when the core last entered.
pub record Spinlock (T M : Type 0) : Type 0 where
  pub flag : Bool
  pub token : T
  pub phase : ℕ → Phase T
  pub interrupts : ℕ → M
  pub entered : ℕ → M

-- A core calls lock, try_lock or unlock, or makes the next step of its call.
pub data Step : Type 0 where
  locks : ℕ → Step
  tries : ℕ → Step
  unlocks : ℕ → Step
  runs : ℕ → Step

-- enter_critical and exit_critical are the port's.
module _ {T M : Type 0} (enter_critical : M → T × M) (exit_critical : T → M → M) where
  abbrev pub moved : ℕ → Phase T → Spinlock T M → Spinlock T M
  moved c p s = record s { phase = update s.phase c p }

  unfoldable pub enter : ℕ → (T → Phase T) → Spinlock T M → Spinlock T M
  enter c next s =
      let (saved, masked) = enter_critical (s.interrupts c) in
      record s {
        phase = update s.phase c (next saved);
        interrupts = update s.interrupts c masked;
        entered = update s.entered c (s.interrupts c);
      }

  unfoldable pub leave : ℕ → T → Spinlock T M → Spinlock T M
  leave c saved s = record s {
    phase = update s.phase c Phase.outside;
    interrupts = update s.interrupts c (exit_critical saved (s.interrupts c));
  }

  -- The flag, where it was not taken; else the phase `or_else`.
  unfoldable pub take : ℕ → T → Phase T → Spinlock T M → Spinlock T M
  take c saved or_else s =
      if s.flag
      then moved c or_else s
      else record s { flag = true; phase = update s.phase c (Phase.storing saved) }

  unfoldable pub store : ℕ → T → Spinlock T M → Spinlock T M
  store c saved s = record s { token = saved; phase = update s.phase c (Phase.holding saved) }

  unfoldable pub drop : ℕ → Spinlock T M → Spinlock T M
  drop c s = record s { flag = false; phase = update s.phase c Phase.releasing }

  unfoldable pub begin : ℕ → (T → Phase T) → Phase T → Spinlock T M → Option (Spinlock T M)
  unfolding enter
  begin c next Phase.outside s = some (enter c next s)
  begin c next (Phase.spinning t) s = none
  begin c next (Phase.trying t) s = none
  begin c next (Phase.refused t) s = none
  begin c next (Phase.storing t) s = none
  begin c next (Phase.holding t) s = none
  begin c next Phase.releasing s = none

  unfoldable pub unlock : ℕ → Phase T → Spinlock T M → Option (Spinlock T M)
  unfolding drop
  unlock c (Phase.holding t) s = some (drop c s)
  unlock c Phase.outside s = none
  unlock c (Phase.spinning t) s = none
  unlock c (Phase.trying t) s = none
  unlock c (Phase.refused t) s = none
  unlock c (Phase.storing t) s = none
  unlock c Phase.releasing s = none

  unfoldable pub run : ℕ → Phase T → Spinlock T M → Option (Spinlock T M)
  unfolding take store leave
  run c (Phase.spinning t) s = some (take c t (Phase.spinning t) s)
  run c (Phase.trying t) s = some (take c t (Phase.refused t) s)
  run c (Phase.refused t) s = some (leave c t s)
  run c (Phase.storing t) s = some (store c t s)
  run c Phase.releasing s = some (leave c s.token s)
  run c Phase.outside s = none
  run c (Phase.holding t) s = none

  unfoldable pub take_step : Step → Spinlock T M → Option (Spinlock T M)
  unfolding begin unlock run
  take_step (locks c) s = begin c Phase.spinning (s.phase c) s
  take_step (tries c) s = begin c Phase.trying (s.phase c) s
  take_step (unlocks c) s = unlock c (s.phase c) s
  take_step (runs c) s = run c (s.phase c) s

  pub data Reaches (s : Spinlock T M) : Spinlock T M → Type 0 where
    here : Reaches s s
    next :
        {u v : Spinlock T M} (step : Step) → Reaches s u → take_step step u ≡ some v → Reaches s v
