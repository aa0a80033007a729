-- ===== src/Mutex/Tests.antt =====
-- A mutex that thread 1 holds and threads 2 and 3 wait on.
use cyros.Common.{
  List, ℕ, ◌≡◌, ◌≢◌, refl, ◌∙◌, Bool, true, false, some, got, [], ◌∷◌, arith, ◌==◌, if◌then◌else◌,
  count,
}
use cyros.Common.Bits.{test_bit, change_bit, test_bit-change, test_bit-zero}
use cyros.Kernel.Thread.{Tcb, ThreadState}
use cyros.Kernel.Store.{Store, Mutex, no_ceiling}
use cyros.Kernel.Tests.{thread_with, holder_with, free_mutex}
use cyros.Mutex.{take_if_free, unlock, Release, ReschedulePolicy}
use cyros.Scheduler.Core.{ScheduleHint}
use cyros.Mutex.Slots.{Consistent}
use cyros.Mutex.Ownership.{HasRoom, HandedOver, first}
use cyros.Mutex.HandOver.{pends_for, hint_of, unlock-HandedOver, take_if_free_lem}
use cyros.Mutex.Cache.{Cache, QueueCall, arms, disarms, takes_first, make_calls, make_calls-Cache}

abbrev tcbs : ℕ → Tcb
tcbs t =
    if t == 1 then holder_with ThreadState.running 1 20 7 else thread_with ThreadState.blocked t t

abbrev held : Mutex
held = record {
  owner = some 1;
  ceiling_priority = no_ceiling;
  held_slot = 0;
  queue = 2 ∷ 3 ∷ [];
  top_priority = 2;
  may_have_bridges = false;
}

abbrev contended : Store
contended = record { tcb = tcbs; mutex = λ k. if k == 7 then held else free_mutex }

one_bit : (i : ℕ) → test_bit i 1 ≡ (i == 0)
unfolding change_bit
one_bit i = test_bit-change (λ b. true) 0 i 0 ∙ ground (arith, test_bit-zero i)

contended-Consistent : Consistent contended
contended-Consistent = record {
  masked = λ t i. ground (arith, one_bit i, test_bit-zero i);
  filed = λ j. record { owned = λ t o. ground arith; free = λ o. ground arith };
  slots = λ t i j h f. ground arith;
}

room : (t : ℕ) → HasRoom contended t
room t = (1, omega arith, ground arith)

contended-Cache : Cache contended 7
unfolding count
contended-Cache = record {
  sorted = (omega arith, tt);
  top = refl;
  hint = λ w waits other holds. ground arith;
}

abbrev warrants : ℕ → ScheduleHint
warrants t = ScheduleHint.warranted

first_known : (w : ℕ) → first held.queue ≡ some w → (contended.tcb w).id ≢ 0
first_known w e = got (λ x. (contended.tcb x).id ≢ 0) 2 w (λ z. absurd (omega (arith, z))) e

unlock-HandedOver_example :
    (r : Release) × (unlock ReschedulePolicy.automatic warrants 1 7 contended ≡ some r)
    × HandedOver 7 contended r.readied r.store
    × (r.pends ≡ pends_for ReschedulePolicy.automatic false (hint_of warrants r.readied))
unlock-HandedOver_example =
    unlock-HandedOver ReschedulePolicy.automatic warrants 1 7 contended contended-Consistent refl
      (λ w e. (room w, first_known w e))

take_if_free_lem_example :
    (r : Bool × Store) × (take_if_free 2 9 contended ≡ some r)
    × (r.0 ≡ true)
    × Consistent r.1
    × ((r.0 ≡ true) → (r.1.mutex 9).owner ≡ some 2)
    × ((r.0 ≡ false) → r.1 ≡ contended)
    × ((j : ℕ) → j ≢ 9 → (r.1.mutex j).owner ≡ (contended.mutex j).owner)
take_if_free_lem_example = take_if_free_lem 2 9 contended contended-Consistent (room 2)

abbrev queue_calls : List QueueCall
queue_calls = arms 4 ∷ disarms 3 ∷ takes_first ∷ disarms 3 ∷ []

make_calls-Cache_example : Cache (make_calls 7 queue_calls contended) 7
make_calls-Cache_example = make_calls-Cache 7 queue_calls contended contended-Cache
