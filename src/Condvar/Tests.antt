-- ===== src/Condvar/Tests.antt =====
-- The theorems on condition variables at a machine of a few processes.
use thunderos.Prelude.{◌≡◌, ◌≢◌, ◌∙◌, refl, sym, subst, ap, none, some, [], ◌∷◌, true, arith}
use thunderos.Prelude.Wait.{asleep}
use thunderos.Kmalloc.Tests.{fresh}
use thunderos.Scheduler.Fifo
use thunderos.Scheduler.Invariant.{IsValid, contents}
use thunderos.Scheduler.Tests.{contents-three}
use thunderos.Kernel.Tests.{machine-IsValid, memory}
use thunderos.Kernel.{Kernel, running, kernel_kmalloc}
use thunderos.WaitQueue.{WaitQueue, wait_queue_wake}
use thunderos.WaitQueue.Tests.{pair, two_asleep, pair-AreBlocks}
use thunderos.WaitQueue.Wake.{Woke, wait_queue_wake-Woke, wait_queue_wake-none}
use thunderos.Mutex.{release_mutex}
use thunderos.Condvar.{State, unlock_and_wake, cond_signal, cond_wait}
use thunderos.Condvar.Sleep.{Sleeps, cond_wait-Sleeps}

abbrev nobody : WaitQueue
nobody = record { entries = []; count = 0 }

-- Process 1 runs and holds the mutex, for which processes 6 and 7 wait.
abbrev held : State
held = record {
  condvar = record { waiters = nobody };
  mutex = record { locked = true; owner_pid = some 1; waiters = pair };
  kernel = two_asleep;
}

-- A signal before process 1 sleeps, and other processes give their memory back.
abbrev signalled : State → State
signalled s =
    let (cv, k) = cond_signal s.condvar s.kernel in
    record s { condvar = cv; kernel = record k { heap = fresh } }

woke :
    Woke pair.entries 0 two_asleep
      ((wait_queue_wake pair two_asleep).0, (wait_queue_wake pair two_asleep).2)
woke = (wait_queue_wake-Woke pair two_asleep (machine-IsValid running) refl pair-AreBlocks).0

signalled-kernel :
    (signalled (unlock_and_wake held)).kernel
    ≡ record (wait_queue_wake pair two_asleep).2 { heap = fresh }
unfolding cond_signal unlock_and_wake release_mutex
signalled-kernel =
    ap (λ (k : Kernel). record k { heap = fresh })
      (wait_queue_wake-none 0 (wait_queue_wake pair two_asleep).2)

queue_after :
    Fifo.dequeue (contents (wait_queue_wake pair two_asleep).2.sched) 1
    ≡ some 4 ∷ some 2 ∷ some 4 ∷ some 6 ∷ some 7 ∷ []
unfolding Fifo.dequeue Fifo.enqueue_all Fifo.enqueue
queue_after = rw (woke.queued, contents-three) refl

memory_after : (kernel_kmalloc (signalled (unlock_and_wake held)).kernel 16).0 ≢ 0
memory_after =
    subst (λ k. (kernel_kmalloc k 16).0 ≢ 0) (sym signalled-kernel)
      (memory (wait_queue_wake pair two_asleep).2)

cond_wait-Sleeps_example :
    (t : State) × (cond_wait signalled none [] held ≡ asleep t)
    × Sleeps held (signalled (unlock_and_wake held)) t 1 4 (some 2 ∷ some 4 ∷ some 6 ∷ some 7 ∷ [])
cond_wait-Sleeps_example =
    cond_wait-Sleeps held signalled [] 1 4 (some 2 ∷ some 4 ∷ some 6 ∷ some 7 ∷ [])
      (machine-IsValid running) refl pair-AreBlocks
      (subst (λ k. IsValid k.sched) (sym signalled-kernel) woke.valid)
      (ap (λ k. k.current) signalled-kernel ∙ woke.same_current) memory_after
      (ap (λ k. Fifo.dequeue (contents k.sched) 1) signalled-kernel ∙ queue_after) (omega arith)
