-- ===== src/Kernel/Registry.antt =====
-- pin_thread_to_core (src/kernel/kernel.cpp) and scheduler::pin_thread (src/kernel/scheduler.cpp): the
-- core of a new thread.
use cyros.Common.{
  ℕ, zero, suc, ◌+◌, ◌-◌, ◌%◌, ◌^◌, Bool, ◌&&◌, Option, none, some, ltb, if◌then◌else◌, update,
  ◌>>=◌, ◌>>◌, check,
}
use cyros.Common.Bits.{test_bit}
use cyros.Kernel.Thread.{Tcb}

abbrev pub no_load : ℕ
no_load = 2 ^ 32 - 1

-- `core_affinity::allows`
abbrev pub allows : ℕ → ℕ → Bool
allows mask core = test_bit core mask

-- The loop of pin_thread_to_core from `core` on, with the best core and its load so far.
unfoldable pub least_loaded : ℕ → ℕ → ℕ → (ℕ → ℕ) → Option ℕ → ℕ → Option ℕ
least_loaded zero core mask loads best best_load = best
least_loaded (suc rounds) core mask loads best best_load =
    let better = allows mask core && ltb (loads core) best_load in
    least_loaded rounds (core + 1) mask loads (if better then some core else best)
      (if better then loads core else best_load)

-- scheduler::pin_thread, with the assert that the port has the core: the thread, and the counters of
-- the cores' pinned threads, which are uint32_t.
unfoldable pub pin_thread : (port_cores core : ℕ) → Tcb → (loads : ℕ → ℕ) → Option (Tcb × (ℕ → ℕ))
pin_thread port_cores core tcb loads = do
  check (ltb core port_cores)
  some (record tcb { pinned_core = core }, update loads core ((loads core + 1) % 2 ^ 32))

-- `none`: the requirement that the affinity allows a core, or pin_thread's assert.
unfoldable pub pin_thread_to_core :
    (port_cores cores mask : ℕ) → Tcb → (loads : ℕ → ℕ) → Option (Tcb × (ℕ → ℕ))
unfolding least_loaded pin_thread
pin_thread_to_core port_cores cores mask tcb loads = do
  core ← least_loaded cores 0 mask loads none no_load
  pin_thread port_cores core tcb loads
