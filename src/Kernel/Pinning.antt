-- ===== src/Kernel/Pinning.antt =====
-- The core that a new thread is pinned to.
use cyros.Common.{
  ℕ, zero, suc, ◌+◌, ◌≤◌, ◌<◌, ◌≡◌, inl, inr, refl, true, false, ◌&&◌, Option, none, some, arith,
  ◌==◌, ltb, if◌then◌else◌, Bool-cases, subst, ◌>>=◌,
}
use cyros.Kernel.Thread.{Tcb}
use cyros.Kernel.Registry.{no_load, allows, least_loaded, pin_thread, pin_thread_to_core}

module _ (mask : ℕ) (loads : ℕ → ℕ) where
  -- Of the cores below `end`: the core is the lowest of those least loaded that the mask allows, and
  -- there is none where it allows none.
  abbrev pub Least : ℕ → Option ℕ → Type 0
  Least end none = (c : ℕ) → c < end → allows mask c ≡ false
  Least end (some core) =
      (core < end)
      × (allows mask core ≡ true)
      × ((c : ℕ) → c < end → allows mask c ≡ true → loads core ≤ loads c)
      × ((c : ℕ) → c < core → allows mask c ≡ true → loads core < loads c)

  abbrev load_of : Option ℕ → ℕ
  load_of none = no_load
  load_of (some core) = loads core

  step-Least :
      (i : ℕ) (best : Option ℕ)
      → loads i < no_load
      → Least i best
      → Least (i + 1) (if allows mask i && ltb (loads i) (load_of best) then some i else best)
  step-Least i none small l = elim (Bool-cases (allows mask i)) [
    | inl e ↦
        let better : ltb (loads i) no_load ≡ true = ground arith in
        rw (e, better)
          (omega arith, e, λ c lt a. ground (arith, l c), λ c lt a. ground (arith, l c))
    | inr e ↦ rw e (λ c lt. ground (arith, l c))
  ]
  step-Least i (some b) small (inside, a, least, first) =
      elim (Bool-cases (allows mask i && ltb (loads i) (loads b))) [
        | inl e ↦ rw e (
          omega arith,
          ground arith,
          λ c lt a. ground (arith, least c),
          λ c lt a. ground (arith, least c),
        )
        | inr e ↦ rw e (omega arith, a, λ c lt a. ground (arith, least c), first)
      ]

  pub least_loaded-Least :
      (rounds i : ℕ) (best : Option ℕ)
      → ((c : ℕ) → loads c < no_load)
      → Least i best
      → Least (i + rounds) (least_loaded rounds i mask loads best (load_of best))
  unfolding least_loaded
  least_loaded-Least zero i best small l = subst (λ (n : ℕ). Least n best) (omega arith) l
  least_loaded-Least (suc rounds) i best small l =
      elim (Bool-cases (allows mask i && ltb (loads i) (load_of best))) [
        | inl e ↦ rw e (
            subst (λ (n : ℕ). Least n (least_loaded rounds (i + 1) mask loads (some i) (loads i)))
              (omega arith)
              (least_loaded-Least rounds (i + 1) (some i) small
                (rw e at (step-Least i best (small i) l))))
        | inr e ↦ rw e (
            subst (λ (n : ℕ). Least n (least_loaded rounds (i + 1) mask loads best (load_of best)))
              (omega arith)
              (least_loaded-Least rounds (i + 1) best small
                (rw e at (step-Least i best (small i) l))))
      ]

-- What the pinning answers and keeps.
abbrev pub Pinned : (cores mask : ℕ) → Tcb → (ℕ → ℕ) → Option (Tcb × (ℕ → ℕ)) → Type 0
Pinned cores mask tcb loads none = Least mask loads cores none
Pinned cores mask tcb loads (some (tcb', loads')) =
    Least mask loads cores (some tcb'.pinned_core)
    × (tcb' ≡ record tcb { pinned_core = tcb'.pinned_core })
    × ((c : ℕ) → loads' c ≡ loads c + (if c == tcb'.pinned_core then 1 else 0))

-- Where the port has the cores that are configured and no core's counter is at the end of its 32
-- bits: pin_thread_to_core goes through exactly where the affinity allows a core, and no assert of
-- pin_thread fires. It pins the thread to the least loaded core that is allowed, the lowest of
-- those on a tie; that core counts one thread more, and no other does.
pub pin_thread_to_core-Pinned :
    (port_cores cores mask : ℕ) (tcb : Tcb) (loads : ℕ → ℕ)
    → cores ≤ port_cores
    → ((c : ℕ) → loads c < no_load)
    → Pinned cores mask tcb loads (pin_thread_to_core port_cores cores mask tcb loads)
unfolding pin_thread_to_core pin_thread
pin_thread_to_core-Pinned port_cores cores mask tcb loads has small =
    from (least_loaded cores 0 mask loads none no_load) (
      subst (λ (n : ℕ). Least mask loads n (least_loaded cores 0 mask loads none no_load))
        (omega arith)
        (least_loaded-Least mask loads cores 0 none small (λ c lt. absurd (omega arith))))
  where
    from :
        (o : Option ℕ)
        → Least mask loads cores o
        → Pinned cores mask tcb loads (o >>= λ core. pin_thread port_cores core tcb loads)
    from none l = l
    from (some core) l =
        let inside : ltb core port_cores ≡ true = ground (arith, l.0) in
        unfold pin_thread in rw inside (l, refl, λ c. ground (arith, small c))
