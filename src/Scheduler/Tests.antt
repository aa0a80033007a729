-- ===== src/Scheduler/Tests.antt =====
-- A core with threads 1 and 2 in its matrix, a holder on its list, and thread 4 running.
use cyros.Common.{ℕ, ◌≡◌, refl, ◌∙◌, true, Option, some, [], ◌∷◌, arith, ◌==◌, if◌then◌else◌, count}
use cyros.Common.Bits.{test_bit, change_bit, test_bit-change, test_bit-zero}
use cyros.Kernel.Thread.{Tcb, ThreadState}
use cyros.Kernel.Tests.{thread_with, holder_with, free_mutex}
use cyros.Scheduler.Matrix.{Matrix, pop_best}
use cyros.Scheduler.Matrix.Laws.{Marked, Takes, pop_best-Takes}
use cyros.Scheduler.Core.{Core, admit, make_ready, ScheduleHint}
use cyros.Scheduler.Picking.{pick_next}
use cyros.Scheduler.Switch.{run_next, decide}
use cyros.Scheduler.Leaving.{DepartureReason}
use cyros.Scheduler.Deciding.{Live, decide-Live}
use cyros.Scheduler.Running.{Runs, run_next-Runs}
use cyros.Scheduler.Filing.{Filed}
use cyros.Scheduler.Pick.{Kept, Chosen}
use cyros.Scheduler.Choice.{pick_next-Chosen}
use cyros.Scheduler.Departure.{Admitted, admit-Admitted}
use cyros.Scheduler.Wake.{Woken, make_ready-Woken}

abbrev tcbs : ℕ → Tcb
tcbs t =
    if t == 1
    then record (thread_with ThreadState.ready 1 1) { enqueued = true }
    else if t == 3
    then record (holder_with ThreadState.ready 3 2 7) { listed = true }
    else if t == 4
    then thread_with ThreadState.running 4 3
    else if t == 0
    then thread_with ThreadState.ready 0 7
    else thread_with ThreadState.blocked t 4

abbrev matrix : Matrix
matrix = record { levels = λ p. if p == 1 then 1 ∷ [] else []; bitmap = 2 }

abbrev core : Core
core = record {
  store = record { tcb = tcbs; mutex = λ k. free_mutex };
  core_id = 0;
  max_priorities = 8;
  current = some 4;
  idle = 0;
  matrix = matrix;
  intake = [];
  holders = 3 ∷ [];
  tie_rotor = 0;
  active_threads = 4;
  posted = [];
  calls = [];
}

second_bit : (i : ℕ) → test_bit i 2 ≡ (i == 1)
unfolding change_bit
second_bit i = test_bit-change (λ b. true) 1 i 0 ∙ ground (arith, test_bit-zero i)

matrix-Marked : Marked matrix
matrix-Marked = record { word = omega arith; bits = λ p. ground (arith, second_bit p) }

core-Filed : Filed core
unfolding count
core-Filed = record {
  small = omega arith;
  marked = matrix-Marked;
  levels = λ t p. ground arith;
  holders = λ t. ground arith;
  ready = λ t on. ground arith;
  once = λ t. ground arith;
  idle_out = refl;
  range = λ t pin. ground arith;
}

pop_best-Takes_example : Takes matrix (pop_best matrix)
pop_best-Takes_example = pop_best-Takes {m = matrix} matrix-Marked

pick_next-Chosen_example :
    (r : Option ℕ × Core) × (pick_next core ≡ some r)
    × Chosen core r.0 r.1
    × Filed r.1
    × Kept core r.1
pick_next-Chosen_example = pick_next-Chosen core core-Filed

admit-Admitted_example : (c : Core) × (admit true 4 core ≡ some c) × Admitted true 4 core c
admit-Admitted_example = admit-Admitted true 4 core core-Filed (refl, refl) refl

make_ready-Woken_example :
    (r : ScheduleHint × Core) × (make_ready 5 core ≡ some r) × Woken 5 core r.1
make_ready-Woken_example = make_ready-Woken core 5 core-Filed refl

run_next-Runs_example : (r : ℕ × Core) × (run_next core ≡ some r) × Runs core r.0 r.1
run_next-Runs_example = run_next-Runs core core-Filed refl refl

core-Live : Live 4 core
core-Live = record {
  filed = core-Filed;
  current = refl;
  running = refl;
  pin = refl;
  alone = λ u other here. ground arith;
  idle_pin = refl;
  idle_ready = λ other. refl;
}

decide-Live_example :
    (r : ℕ × Core) × (decide DepartureReason.preempted core ≡ some (4, r.0, r.1)) × Live r.0 r.1
decide-Live_example = decide-Live DepartureReason.preempted 4 core core-Live refl tt
