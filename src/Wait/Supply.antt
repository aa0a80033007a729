-- ===== src/Wait/Supply.antt =====
-- What every step of the waits on a semaphore keeps: while a thread sleeps, each token has somebody
-- on the way to it, or a wake.
use cyros.Common.{
  ℕ, ◌+◌, ◌-◌, ◌≤◌, ◌<◌, ◌≡◌, ◌≢◌, Bool, true, false, ◌&&◌, arith, ltb, if◌then◌else◌, count,
}
use cyros.Wait.Engine.{Waits, Phase}
use cyros.Wait.Semaphore.{is_apart}
use cyros.Wait.Count.{total, total-change}

-- Between the arm and the disarm of a pass.
abbrev pub in_pass : Phase → Bool
in_pass Phase.armed = true
in_pass Phase.satisfied = true
in_pass Phase.refused = true
in_pass Phase.cancelled = true
in_pass Phase.parked = true
in_pass Phase.resumed = true
in_pass _ = false

abbrev pub is_parked : Phase → Bool
is_parked Phase.parked = true
is_parked _ = false

-- Blocked, or about to block with no further look at the semaphore.
abbrev pub is_asleep : Phase → Bool
is_asleep Phase.refused = true
is_asleep Phase.parked = true
is_asleep _ = false

-- The wakes that a thread outside a pass is to use or to pass on.
abbrev pub extra : Phase → ℕ
extra Phase.passing = 1
extra (Phase.retrying true) = 1
extra _ = 0

-- In a pass: the wake that took its node.
abbrev pub stake : ℕ → Phase → ℕ
stake nodes p = if in_pass p then 1 - nodes else extra p

abbrev pub pending : Waits ℕ → ℕ → ℕ
pending s t = stake (count t s.queue) (s.phase t)

abbrev pub sleeps : Waits ℕ → ℕ → Bool
sleeps s t = is_asleep (s.phase t) && ltb 0 (count t s.queue)

module _ (threads : ℕ) where
  -- `wakes` are those that releases will make.
  pub record Kept (wakes : ℕ) (s : Waits ℕ) : Type 0 where
    pub queued : (t : ℕ) → count t s.queue ≤ (if in_pass (s.phase t) then 1 else 0)
    pub known : (t : ℕ) → is_apart (s.phase t) ≡ false → t < threads
    pub told :
        (t : ℕ)
        → in_pass (s.phase t) ≡ true
        → count t s.queue ≡ 0
        → s.prepared t ≡ true
        → 0 < count t s.delivering
    pub still : (t : ℕ) → is_parked (s.phase t) ≡ true → s.prepared t ≡ true
    pub unbound : (t : ℕ) → s.bound t ≡ false
    pub supply : (t : ℕ) → sleeps s t ≡ true → s.resource ≤ wakes + total threads (pending s)

  -- A step of one thread that takes no more than it brings.
  pub supply-Kept :
      (wakes more t : ℕ) (s s' : Waits ℕ)
      → Kept wakes s
      → t < threads
      → ((u : ℕ) → u ≢ t → pending s u ≡ pending s' u)
      → ((u : ℕ) → sleeps s' u ≡ true → sleeps s u ≡ true)
      → s'.resource + pending s t + wakes ≤ s.resource + pending s' t + more
      → (u : ℕ) → sleeps s' u ≡ true
      → s'.resource ≤ more + total threads (pending s')
  supply-Kept wakes more t s s' k lt same woke le u asleep = omega (
    arith,
    total-change threads t (pending s) (pending s') lt same,
    k.supply u (woke u asleep),
    le,
  )
