-- ===== src/Scheduler/Tests.antt =====
-- The theorems on the ready queue at queues of a few processes.
use thunderos.Prelude.{ℕ, ◌≡◌, refl, Option, none, some, [], ◌∷◌, replicate, length-replicate}
use thunderos.Scheduler.{
  Scheduler, ready_queue_size, scheduler_init, scheduler_enqueue, scheduler_dequeue,
}
use thunderos.Scheduler.Fifo
use thunderos.Scheduler.Invariant.{
  IsValid, contents, scheduler_init-IsValid, scheduler_enqueue-IsValid,
}
use thunderos.Scheduler.Refine.{scheduler_dequeue_refines}

abbrev pub idle : Scheduler
idle = scheduler_init (replicate ready_queue_size none)

pub idle-IsValid : IsValid idle
idle-IsValid = scheduler_init-IsValid _ (length-replicate {A = Option ℕ} ready_queue_size none)

-- Processes 4, 2 and 4 wait.
abbrev pub three : Scheduler
three = scheduler_enqueue (scheduler_enqueue (scheduler_enqueue idle (some 4)) (some 2)) (some 4)

pub three-IsValid : IsValid three
three-IsValid =
    scheduler_enqueue-IsValid _ (some 4)
      (scheduler_enqueue-IsValid _ (some 2) (scheduler_enqueue-IsValid _ (some 4) idle-IsValid))

pub contents-three : contents three ≡ some 4 ∷ some 2 ∷ some 4 ∷ []
unfolding scheduler_init scheduler_enqueue
contents-three = refl

dequeue-three : contents (scheduler_dequeue three (some 2)) ≡ some 4 ∷ some 4 ∷ []
unfolding scheduler_init scheduler_enqueue scheduler_dequeue
dequeue-three = refl

scheduler_dequeue_refines_example :
    IsValid (scheduler_dequeue three (some 2))
    × (contents (scheduler_dequeue three (some 2)) ≡ Fifo.dequeue (contents three) 2)
scheduler_dequeue_refines_example = scheduler_dequeue_refines three 2 three-IsValid
