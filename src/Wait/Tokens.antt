-- ===== src/Wait/Tokens.antt =====
-- The tokens of a semaphore: each is taken once.
use cyros.Common.{ℕ, ◌+◌, ◌-◌, ◌<◌, ◌≡◌, Bool, true, false, if◌then◌else◌}
use cyros.Wait.Engine.{Waits, Phase}
use cyros.Wait.Semaphore.{Semaphore, Step, try_acquire, Reaches}

-- The wait was satisfied.
abbrev pub is_won : Phase → Bool
is_won Phase.satisfied = true
is_won Phase.passing = true
is_won (Phase.returned b) = b
is_won _ = false

abbrev pub number : Bool → ℕ
number b = if b then 1 else 0

-- The tokens that a step's calls of try_acquire and acquire are told they have, from `s` to `s'`.
abbrev pub won : Step → Semaphore → Semaphore → ℕ
won (Step.acquires t) s s' = number (is_won (s'.waits.phase t))
won (Step.runs t) s s' = number (is_won (s'.waits.phase t)) - number (is_won (s.waits.phase t))
won Step.barges s s' = number (try_acquire s.waits.resource).0
won _ s s' = 0

abbrev pub put : Step → ℕ
put (Step.adds n) = n
put _ = 0

-- From a state to the next.
abbrev Conserves : ℕ → ℕ → Waits ℕ → Waits ℕ → Type 0
Conserves t brought s s' =
    s'.resource + (number (is_won (s'.phase t)) - number (is_won (s.phase t)))
    ≡ s.resource + brought

module _ (threads : ℕ) (priority : ℕ → ℕ) where
  -- A release's tokens fit the counter.
  abbrev pub FitsStep : Step → Semaphore → Type 0
  FitsStep (Step.adds n) s = s.waits.resource + n < s.limit
  FitsStep _ s = Unit {0}

  abbrev Taken : Step → Semaphore → Semaphore → Type 0
  Taken step s s' = s'.waits.resource + won step s s' ≡ s.waits.resource + put step

  -- The tokens put in, and the tokens won, on the way to a state.
  abbrev pub all_put : {s u : Semaphore} → Reaches threads priority s u → ℕ
  all_put Reaches.here = 0
  all_put (Reaches.next step r e) = all_put r + put step

  abbrev pub all_won : {s u : Semaphore} → Reaches threads priority s u → ℕ
  all_won Reaches.here = 0
  all_won (Reaches.next {u} {v} step r e) = all_won r + won step u v

  -- No release on the way wraps the counter.
  abbrev pub Unwrapped : {s u : Semaphore} → Reaches threads priority s u → Type 0
  Unwrapped Reaches.here = Unit {0}
  Unwrapped (Reaches.next {u} step r e) = Unwrapped r × FitsStep step u
