-- ===== src/Spinlock/Tests.antt =====
-- A port whose token is the saved mask: 0 lets interrupts in, 1 keeps them out.
use cyros.Common.{ℕ, zero, suc, ◌≡◌, refl, Option, none, some}
use cyros.Spinlock.{
  Phase, Spinlock, locks, tries, runs, enter, leave, take, store, drop, begin, unlock, run,
  take_step, Reaches,
}
use cyros.Spinlock.Moves.{Exclusive}
use cyros.Spinlock.Exclusion.{reached-Exclusive}
use cyros.Spinlock.Restoring.{free_lock, unlock-restores_other}

abbrev save : ℕ → ℕ × ℕ
save m = (m, 1)

abbrev restore : ℕ → ℕ → ℕ
restore token m = token

abbrev masks : ℕ → ℕ
masks zero = 0
masks (suc c) = 1

abbrev at_start : Spinlock ℕ ℕ
at_start = free_lock save restore 5 masks

-- The state after a step that is possible.
abbrev after : Option (Spinlock ℕ ℕ) → Spinlock ℕ ℕ
after none = at_start
after (some s) = s

abbrev entered : Spinlock ℕ ℕ
entered = after (take_step save restore (locks 1) at_start)

abbrev taken : Spinlock ℕ ℕ
taken = after (take_step save restore (runs 1) entered)

abbrev contended : Spinlock ℕ ℕ
contended = after (take_step save restore (tries 0) taken)

abbrev stored : Spinlock ℕ ℕ
stored = after (take_step save restore (runs 1) contended)

abbrev refused : Spinlock ℕ ℕ
refused = after (take_step save restore (runs 0) stored)

path : Reaches save restore at_start refused
unfolding take_step begin unlock run enter leave take store drop
path =
    Reaches.next (runs 0)
      (Reaches.next (runs 1)
        (Reaches.next (tries 0)
          (Reaches.next (runs 1) (Reaches.next (locks 1) Reaches.here refl) refl) refl)
        refl)
      refl

reached-Exclusive_example : Exclusive save restore refused
reached-Exclusive_example = reached-Exclusive save restore refl (λ c. refl) path

unlock-restores_other_example :
    (u : Spinlock ℕ ℕ) × Reaches save restore at_start u
    × (u.phase 0 ≡ Phase.outside)
    × (u.entered 0 ≡ 0)
    × (u.interrupts 0 ≡ 1)
unlock-restores_other_example = unlock-restores_other save restore 5 masks
