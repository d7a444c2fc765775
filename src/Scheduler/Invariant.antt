-- ===== src/Scheduler/Invariant.antt =====
-- The invariant of the ready queue.
use thunderos.Prelude.{
  ℕ, ◌+◌, ◌%◌, ◌≤◌, ◌<◌, ◌≡◌, refl, Option, none, some, List, arith, length, length-set, window,
}
use thunderos.Scheduler.{
  Scheduler, ready_queue_size, scheduler_init, scheduler_enqueue, scheduler_pick_next,
}

pub record IsValid (s : Scheduler) : Type 0 where
  pub size : length s.ready_queue ≡ ready_queue_size
  pub head_in : s.queue_head < ready_queue_size
  pub count_in : s.queue_count ≤ ready_queue_size
  pub tail_at : s.queue_tail ≡ (s.queue_head + s.queue_count) % ready_queue_size

-- The waiting processes, the next one first.
abbrev pub contents : Scheduler → List (Option ℕ)
contents s = window none ready_queue_size s.ready_queue s.queue_head s.queue_count

pub scheduler_init-IsValid :
    (q : List (Option ℕ)) → length q ≡ ready_queue_size → IsValid (scheduler_init q)
unfolding scheduler_init
scheduler_init-IsValid q e = record {
  size = e;
  head_in = omega arith;
  count_in = omega arith;
  tail_at = refl;
}

pub scheduler_enqueue-IsValid :
    (s : Scheduler) (proc : Option ℕ) → IsValid s → IsValid (scheduler_enqueue s proc)
unfolding scheduler_enqueue
scheduler_enqueue-IsValid s none v = v
scheduler_enqueue-IsValid s (some proc) v =
    ground (arith, length-set s.ready_queue s.queue_tail (some proc))

pub scheduler_pick_next-IsValid : (s : Scheduler) → IsValid s → IsValid (scheduler_pick_next s).1
unfolding scheduler_pick_next
scheduler_pick_next-IsValid s v = ground arith

-- The queue operations leave the time slice alone.
pub slice-scheduler_enqueue :
    (s : Scheduler) (proc : Option ℕ)
    → (scheduler_enqueue s proc).current_time_slice ≡ s.current_time_slice
unfolding scheduler_enqueue
slice-scheduler_enqueue s none = refl
slice-scheduler_enqueue s (some proc) = ground arith

pub slice-scheduler_pick_next :
    (s : Scheduler) → (scheduler_pick_next s).1.current_time_slice ≡ s.current_time_slice
unfolding scheduler_pick_next
slice-scheduler_pick_next s = ground arith
