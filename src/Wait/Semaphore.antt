-- ===== src/Wait/Semaphore.antt =====
-- semaphore (src/userlib/sync/semaphore.cpp), with the waits of its threads.
use cyros.Common.{
  ℕ, ◌≡◌, ◌+◌, ◌-◌, ◌%◌, Bool, true, false, Option, some, if◌then◌else◌, ltb, is_empty, ◌>>=◌, ◌>>◌,
  check, leb, count, update,
}
use cyros.Wait.Engine.{Waits, Phase, returned, arriving, wake_one, deliver, raise, run}

unfoldable pub try_acquire : ℕ → Bool × ℕ
try_acquire counter = if ltb 0 counter then (true, counter - 1) else (false, counter)

abbrev pub try_satisfy : ℕ → ℕ → Bool × ℕ
unfolding try_acquire
try_satisfy t counter = try_acquire counter

-- `testing` are the tokens of the releases that have added them and not asked yet whether anybody
-- waits; `owed` the wakes that releases have still to make; `limit` is two to the width of
-- std::size_t, where the counter wraps.
pub record Semaphore : Type 0 where
  pub waits : Waits ℕ
  pub testing : ℕ
  pub owed : ℕ
  pub limit : ℕ

-- release, in three steps: the tokens, the test, and each wake.
unfoldable pub add_tokens : ℕ → Semaphore → Semaphore
add_tokens n s = record s {
  waits = record s.waits { resource = (s.waits.resource + n) % s.limit };
  testing = s.testing + n;
}

unfoldable pub test_waiters : ℕ → Semaphore → Semaphore
test_waiters n s = record s {
  testing = s.testing - n;
  owed = if is_empty s.waits.queue then s.owed else s.owed + n;
}

unfoldable pub make_wake : Semaphore → Semaphore
unfolding wake_one
make_wake s = record s { owed = s.owed - 1; waits = wake_one s.waits }

abbrev pub is_apart : Phase → Bool
is_apart Phase.outside = true
is_apart (Phase.returned b) = true
is_apart _ = false

-- acquire: a free token is taken with no wait.
unfoldable pub acquire : ℕ → Waits ℕ → Waits ℕ
unfolding try_acquire
acquire t s =
    let (ok, counter) = try_acquire s.resource in
    record s {
      resource = counter;
      phase = update s.phase t (if ok then returned true else arriving);
    }

-- The steps that the threads, the interrupts and the other cores make, in any order.
pub data Step : Type 0 where
  acquires : ℕ → Step
  runs : ℕ → Step
  barges : Step
  adds : ℕ → Step
  tests : ℕ → Step
  wakes : Step
  delivers : ℕ → Step
  raises : ℕ → Step

abbrev pub on_waits : Semaphore → Waits ℕ → Semaphore
on_waits s w = record s { waits = w }

-- A step where it can be made, of `threads` threads.
module _ (threads : ℕ) (priority : ℕ → ℕ) where
  unfoldable pub take_step : Step → Semaphore → Option Semaphore
  unfolding acquire run try_acquire add_tokens test_waiters make_wake deliver raise
  take_step (acquires t) s = do
    check (ltb t threads)
    check (is_apart (s.waits.phase t))
    some (on_waits s (acquire t s.waits))
  take_step (runs t) s = do w ← run priority try_satisfy t s.waits; some (on_waits s w)
  take_step barges s =
      some (on_waits s (record s.waits { resource = (try_acquire s.waits.resource).1 }))
  take_step (adds n) s = some (add_tokens n s)
  take_step (tests n) s = do check (leb n s.testing); some (test_waiters n s)
  take_step wakes s = do check (ltb 0 s.owed); some (make_wake s)
  take_step (delivers t) s = do
    check (ltb 0 (count t s.waits.delivering))
    some (on_waits s (deliver t s.waits))
  take_step (raises t) s = some (on_waits s (raise t s.waits))

  pub data Reaches (s : Semaphore) : Semaphore → Type 0 where
    here : Reaches s s
    next : {u v : Semaphore} (step : Step) → Reaches s u → take_step step u ≡ some v → Reaches s v
