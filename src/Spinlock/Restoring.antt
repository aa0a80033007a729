-- ===== src/Spinlock/Restoring.antt =====
-- unlock drops the flag before it reads the token that it restores.
use cyros.Common.{ℕ, ◌≡◌, refl, false}
use cyros.Spinlock.{
  Phase, Spinlock, locks, unlocks, runs, enter, leave, take, store, drop, begin, unlock, run,
  take_step, Reaches,
}

module _ {T M : Type 0} (enter_critical : M → T × M) (exit_critical : T → M → M) where
  -- A free lock, and no core at it.
  abbrev pub free_lock : T → (ℕ → M) → Spinlock T M
  free_lock token interrupts = record {
    flag = false;
    token = token;
    phase = λ c. Phase.outside;
    interrupts = interrupts;
    entered = interrupts;
  }

  -- Whatever the interrupt states of two cores, there is an interleaving of lock and unlock on them
  -- in which the first core leaves its unlock with the state that the second one saved on entering,
  -- and not with its own.
  pub unlock-restores_other :
      (token : T) (interrupts : ℕ → M)
      → (u : Spinlock T M) × Reaches enter_critical exit_critical (free_lock token interrupts) u
        × (u.phase 0 ≡ Phase.outside)
        × (u.entered 0 ≡ interrupts 0)
        × (u.interrupts 0
            ≡ exit_critical (enter_critical (interrupts 1)).0 (enter_critical (interrupts 0)).1)
  unfolding take_step begin unlock run enter leave take store drop
  unlock-restores_other token interrupts = (
    _,
    Reaches.next (runs 0)
        (Reaches.next (runs 1)
          (Reaches.next (runs 1)
            (Reaches.next (locks 1)
              (Reaches.next (unlocks 0)
                (Reaches.next (runs 0)
                  (Reaches.next (runs 0) (Reaches.next (locks 0) Reaches.here refl) refl) refl)
                refl)
              refl)
            refl)
          refl)
        refl,
    refl,
    refl,
    refl,
  )
