-- ===== src/Kernel/Tests.antt =====
-- The theorems on `schedule` at a machine of a few processes.
use thunderos.Prelude.{◌==◌, ◌≡◌, ◌≢◌, refl, some, [], ◌∷◌, arith, false, if◌then◌else◌}
use thunderos.Kmalloc.Tests.{fresh, kmalloc_entry-fresh}
use thunderos.Scheduler.{full_time_slice}
use thunderos.Scheduler.Invariant.{IsValid, contents}
use thunderos.Scheduler.Tests.{three, three-IsValid, contents-three}
use thunderos.Kernel.{Kernel, ProcState, ready, running, sleeping, schedule, kernel_kmalloc}
use thunderos.Kernel.Schedule.{Switched, schedule_round_robin, schedule_loses_ready}

-- Process 1 runs, in the state `st`; 4, 2 and 4 wait; the time slice is used up.
abbrev pub machine : ProcState → Kernel
machine st = record {
  heap = fresh;
  sched = record three { current_time_slice = 1 };
  state = λ j. if j == 1 then st else ready;
  current = some 1;
  panicked = false;
}

pub machine-IsValid : (st : ProcState) → IsValid (machine st).sched
machine-IsValid st = record {
  size = three-IsValid.size;
  head_in = three-IsValid.head_in;
  count_in = three-IsValid.count_in;
  tail_at = three-IsValid.tail_at;
}

pub memory : (k : Kernel) → (kernel_kmalloc (record k { heap = fresh }) 16).0 ≢ 0
unfolding kernel_kmalloc
memory k = omega (arith, kmalloc_entry-fresh)

schedule_round_robin_example :
    Switched
      (machine running)
      1
      4
      ready
      (some 2 ∷ some 4 ∷ some 1 ∷ [])
      (schedule (machine running))
    × ((schedule (machine running)).sched.current_time_slice ≡ full_time_slice)
schedule_round_robin_example =
    schedule_round_robin (machine running) 1 4 (some 2 ∷ some 4 ∷ []) (machine-IsValid running) refl
      contents-three refl (omega arith) (omega arith)

-- Process 4 is the current one and has been made ready.
abbrev woken_early : Kernel
woken_early = record (machine sleeping) { current = some 4 }

schedule_loses_ready_example :
    ((schedule woken_early).current ≡ some 4)
    × ((schedule (schedule woken_early)).current ≡ some 2)
    × ((schedule (schedule woken_early)).state 4 ≡ ready)
    × (contents (schedule (schedule woken_early)).sched ≡ some 4 ∷ [])
schedule_loses_ready_example =
    schedule_loses_ready woken_early 4 2 (some 4 ∷ []) (machine-IsValid sleeping) refl refl
      contents-three (omega arith)
