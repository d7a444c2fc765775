-- ===== src/Scheduler.antt =====
-- kernel/core/scheduler.c: the circular ready queue and its three operations. A process is named by
-- a number, a `struct process *` is an optional name, NULL being `none`. The lock `sched_lock` is
-- held over each operation, so that each is one step; `schedule` is in Kernel.
pub mod Invariant
pub mod Fifo
pub mod Shift
pub mod Refine
pub mod Tests
use thunderos.Prelude.{
  ℕ, zero, suc, ◌+◌, ◌-◌, ◌*◌, ◌/◌, ◌%◌, Option, none, some, List, Bool, true, false, ◌==◌, leb,
  if◌then◌else◌, get_or, set, replicate,
}

-- READY_QUEUE_SIZE, which is MAX_PROCS.
abbrev pub ready_queue_size : ℕ
ready_queue_size = 64

-- TIME_SLICE: MICROSECONDS_PER_SECOND / TIMER_INTERVAL_US.
abbrev pub full_time_slice : ℕ
full_time_slice = 1000000 / 100000

pub record Scheduler : Type 0 where
  pub ready_queue : List (Option ℕ)
  pub queue_head : ℕ
  pub queue_tail : ℕ
  pub queue_count : ℕ
  pub current_time_slice : ℕ

-- The static array starts as NULLs; `scheduler_init` sets the rest.
pub scheduler_init : List (Option ℕ) → Scheduler
scheduler_init ready_queue = record {
  ready_queue = ready_queue;
  queue_head = 0;
  queue_tail = 0;
  queue_count = 0;
  current_time_slice = full_time_slice;
}

-- `ready_queue[idx] == proc`.
abbrev pub same_proc : Option ℕ → ℕ → Bool
same_proc none proc = false
same_proc (some q) proc = q == proc

-- `scheduler_enqueue`: a full queue is left as it is.
pub scheduler_enqueue : Scheduler → Option ℕ → Scheduler
scheduler_enqueue s none = s
scheduler_enqueue s (some proc) = if leb ready_queue_size s.queue_count then s else record s {
  ready_queue = set s.ready_queue s.queue_tail (some proc);
  queue_tail = (s.queue_tail + 1) % ready_queue_size;
  queue_count = s.queue_count + 1;
}

-- The inner loop of `scheduler_dequeue`, with the rounds left and `j`.
pub shift : List (Option ℕ) → ℕ → ℕ → ℕ → List (Option ℕ)
shift ready_queue head zero j = ready_queue
shift ready_queue head (suc rounds) j =
    let curr = (head + j) % ready_queue_size in
    let next = (head + j + 1) % ready_queue_size in
    shift (set ready_queue curr (get_or ready_queue next none)) head rounds (j + 1)

-- The outer loop, with the rounds left and `i`; `break` is the end of the branch.
dequeue_from : Scheduler → ℕ → ℕ → ℕ → Scheduler
unfolding shift
dequeue_from s proc zero i = s
dequeue_from s proc (suc rounds) i =
    let rest = dequeue_from s proc rounds (i + 1) in
    if same_proc (get_or s.ready_queue ((s.queue_head + i) % ready_queue_size) none) proc
    then record s {
      ready_queue = shift s.ready_queue s.queue_head (s.queue_count - 1 - i) i;
      queue_tail = (s.queue_tail + ready_queue_size - 1) % ready_queue_size;
      queue_count = s.queue_count - 1;
    }
    else rest

pub scheduler_dequeue : Scheduler → Option ℕ → Scheduler
unfolding dequeue_from
scheduler_dequeue s none = s
scheduler_dequeue s (some proc) = dequeue_from s proc s.queue_count 0

-- `scheduler_pick_next`: the process, NULL on an empty queue, and the queue without it.
pub scheduler_pick_next : Scheduler → Option ℕ × Scheduler
scheduler_pick_next s = if s.queue_count == 0 then (none, s) else (
  get_or s.ready_queue s.queue_head none,
  record s { queue_head = (s.queue_head + 1) % ready_queue_size; queue_count = s.queue_count - 1 },
)
