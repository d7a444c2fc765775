-- ===== src/Kernel.antt =====
-- Processes and the CPU: the states of include/kernel/process.h, `process_wakeup` of
-- kernel/core/process.c, and `context_switch`, `schedule` and `scheduler_yield` of
-- kernel/core/scheduler.c. The kernel state holds what these share. The switch of registers, stacks
-- and page tables is not modelled: `schedule` is followed up to the point where the CPU is handed
-- over, and what the caller finds when it resumes is the caller's matter (see WaitQueue).
pub mod Schedule
pub mod Memory
pub mod Tests
use thunderos.Prelude.{
  ℕ, ◌-◌, Option, none, some, Bool, true, false, ◌==◌, ◌&&◌, ◌||◌, not, if◌then◌else◌,
}
use thunderos.Kmalloc.{Heap, kmalloc, kfree}
use thunderos.Scheduler.{Scheduler, full_time_slice, scheduler_enqueue, scheduler_pick_next}

-- `proc_state_t`.
pub data ProcState : Type 0 where
  unused embryo ready running sleeping stopped zombie : ProcState

abbrev pub is_running : ProcState → Bool
is_running running = true
is_running _ = false

abbrev pub is_sleeping : ProcState → Bool
is_sleeping sleeping = true
is_sleeping _ = false

abbrev pub is_stopped : ProcState → Bool
is_stopped stopped = true
is_stopped _ = false

pub record Kernel : Type 0 where
  pub heap : Heap
  pub sched : Scheduler
  pub state : ℕ → ProcState
  pub current : Option ℕ
  pub panicked : Bool

-- The kernel's use of the heap: `kmalloc` as a pointer, 0 for NULL, and `kfree`, whose panic stops
-- the kernel and is recorded.
pub kernel_kmalloc : Kernel → ℕ → ℕ × Kernel
kernel_kmalloc k size = let (ptr, _, heap) = kmalloc k.heap size in (ptr, record k { heap = heap })

pub kernel_kfree : Kernel → ℕ → Kernel
kernel_kfree k ptr = elim (kfree k.heap ptr) [
  | none ↦ record k { panicked = true }
  | some heap ↦ record k { heap = heap }
]

abbrev pub set_state : (ℕ → ProcState) → ℕ → ProcState → ℕ → ProcState
set_state f proc st j = if proc == j then st else f j

-- `proc->state = PROC_READY; scheduler_enqueue(proc);`
abbrev pub make_ready : Kernel → ℕ → Kernel
make_ready k proc = record k {
  sched = scheduler_enqueue k.sched (some proc);
  state = set_state k.state proc ready;
}

-- `process_wakeup`.
unfoldable pub process_wakeup : Kernel → Option ℕ → Kernel
process_wakeup k none = k
process_wakeup k (some proc) =
    if is_sleeping (k.state proc) || is_stopped (k.state proc) then make_ready k proc else k

-- The states and the current process as `context_switch` leaves them.
abbrev context_switch : Kernel → Option ℕ → ℕ → Kernel
context_switch k none new = record k { state = set_state k.state new running; current = some new }
context_switch k (some old) new = record k {
  state =
      set_state (if is_running (k.state old) then set_state k.state old ready else k.state) new
        running;
  current = some new;
}

-- Whether the current process is running.
abbrev current_runs : Kernel → Bool
current_runs k = elim k.current [ none ↦ false | some proc ↦ is_running (k.state proc) ]

-- The part of `schedule` after a process has been picked: `next` is it, NULL if none.
pub switch_to : Kernel → Option ℕ → Kernel
switch_to k none = if current_runs k then k else record k { current = none }
switch_to k (some next) = elim k.current [
  | none ↦ context_switch k none next
  | some proc ↦
      if proc == next
      then k
      else if is_running (k.state proc)
      then context_switch (record k { sched = scheduler_enqueue k.sched (some proc) }) (some proc)
          next
      else context_switch k (some proc) next
]

abbrev pick : Kernel → Kernel
unfolding switch_to
pick k =
    let (next, sched) = scheduler_pick_next k.sched in switch_to (record k { sched = sched }) next

-- `schedule`, up to the switch. The time slice counts down; a process that runs is preempted only
-- when it reaches 0, and gets a new one then.
pub schedule : Kernel → Kernel
unfolding pick
schedule k =
    let left = k.sched.current_time_slice - 1 in
    let k' = record k { sched = record (k.sched) { current_time_slice = left } } in
    if not (current_runs k)
    then pick k'
    else if left == 0
    then pick (record k { sched = record (k.sched) { current_time_slice = full_time_slice } })
    else k'

-- `scheduler_yield`.
pub scheduler_yield : Kernel → Kernel
unfolding schedule
scheduler_yield k = schedule (record k { sched = record (k.sched) { current_time_slice = 0 } })
