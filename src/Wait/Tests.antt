-- ===== src/Wait/Tests.antt =====
-- A thread that blocks, is woken by a release, loses the token to another taker, and blocks again.
use cyros.Common.{ℕ, ◌^◌, ◌≡◌, refl, false, [], arith, count, erase}
use cyros.WaitQueue.{link, unlink}
use cyros.Wait.Engine.{
  Phase, arm, poll, repoll, disarm, commit_to_block, run, run_from, wake_one, wake_first, ready,
  deliver,
}
use cyros.Wait.Semaphore.{
  Semaphore, Step, Reaches, take_step, acquire, try_acquire, add_tokens, test_waiters, make_wake,
  on_waits, try_satisfy,
}
use cyros.Wait.NoLostWakeup.{Fresh, Quiet, blocked-at-zero}

abbrev at_start : Semaphore
at_start = record {
  waits = record {
    resource = 0;
    queue = [];
    phase = λ t. Phase.outside;
    prepared = λ t. false;
    raised = λ t. false;
    bound = λ t. false;
    marked = λ t. false;
    delivering = [];
  };
  testing = 0;
  owed = 0;
  limit = 2 ^ 32;
}

abbrev base_priority : ℕ → ℕ
base_priority t = t

abbrev arriving : Semaphore
arriving = on_waits at_start (acquire 0 at_start.waits)

abbrev armed : Semaphore
armed = on_waits arriving (arm base_priority try_satisfy 0 arriving.waits)

abbrev refused : Semaphore
refused = on_waits armed (poll base_priority try_satisfy 0 armed.waits)

abbrev blocked : Semaphore
blocked = on_waits refused (commit_to_block 0 refused.waits)

abbrev released : Semaphore
released = add_tokens 1 blocked

abbrev tested : Semaphore
tested = test_waiters 1 released

abbrev woken : Semaphore
woken = make_wake tested

abbrev readied : Semaphore
readied = on_waits woken (deliver 0 woken.waits)

abbrev robbed : Semaphore
robbed =
    on_waits readied (record readied.waits { resource = (try_acquire readied.waits.resource).1 })

abbrev disarmed : Semaphore
disarmed = on_waits robbed (disarm 0 robbed.waits)

abbrev retried : Semaphore
retried = on_waits disarmed (repoll base_priority try_satisfy 0 disarmed.waits)

abbrev armed_again : Semaphore
armed_again = on_waits retried (arm base_priority try_satisfy 0 retried.waits)

abbrev refused_again : Semaphore
refused_again = on_waits armed_again (poll base_priority try_satisfy 0 armed_again.waits)

abbrev blocked_again : Semaphore
blocked_again = on_waits refused_again (commit_to_block 0 refused_again.waits)

at_start-Fresh : Fresh 2 base_priority at_start
at_start-Fresh = record { apart = λ t. refl; nobody = refl; no_record = λ t. refl }

path : Reaches 2 base_priority at_start blocked_again
unfolding take_step run run_from arm poll repoll disarm commit_to_block acquire try_acquire
    add_tokens test_waiters make_wake wake_one wake_first deliver ready link unlink count erase
path =
    Reaches.next (Step.runs 0)
      (Reaches.next (Step.runs 0)
        (Reaches.next (Step.runs 0)
          (Reaches.next (Step.runs 0)
            (Reaches.next (Step.runs 0)
              (Reaches.next Step.barges
                (Reaches.next (Step.delivers 0)
                  (Reaches.next Step.wakes
                    (Reaches.next (Step.tests 1)
                      (Reaches.next (Step.adds 1)
                        (Reaches.next (Step.runs 0)
                          (Reaches.next (Step.runs 0)
                            (Reaches.next (Step.runs 0)
                              (Reaches.next (Step.acquires 0) Reaches.here refl) refl)
                            refl)
                          refl)
                        refl)
                      refl)
                    refl)
                  refl)
                refl)
              refl)
            refl)
          refl)
        refl)
      refl

blocked_again-Quiet : Quiet 2 base_priority blocked_again
unfolding arm poll repoll disarm commit_to_block acquire try_acquire add_tokens test_waiters
    make_wake wake_one wake_first deliver ready link unlink count erase
blocked_again-Quiet = record {
  tested = refl;
  made = refl;
  delivered = refl;
  resting = λ t. ground arith;
}

still_blocked : blocked_again.waits.phase 0 ≡ Phase.parked
unfolding arm poll repoll disarm commit_to_block acquire try_acquire add_tokens test_waiters
    make_wake wake_one wake_first deliver ready link unlink count erase
still_blocked = refl

blocked-at-zero_example : blocked_again.waits.resource ≡ 0
blocked-at-zero_example =
    blocked-at-zero 2 base_priority 0 at_start-Fresh path blocked_again-Quiet still_blocked
