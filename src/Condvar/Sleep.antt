-- ===== src/Condvar/Sleep.antt =====
-- Whom `cond_signal` and `cond_broadcast` wake, and what `cond_wait` does before it sleeps.
use thunderos.Prelude.{ℕ, ◌≡◌, ◌≢◌, refl, Option, none, some, List, [], ◌∷◌, ◌++◌, false}
use thunderos.Prelude.Wait.{asleep}
use thunderos.Scheduler.Fifo
use thunderos.Scheduler.Invariant.{IsValid, contents}
use thunderos.Kernel.{Kernel, sleeping, kernel_kmalloc}
use thunderos.Kernel.Schedule.{Switched}
use thunderos.WaitQueue.{Entry, entry_size, wait_queue_wake}
use thunderos.WaitQueue.Sleep.{wait_queue_sleep-Switched}
use thunderos.WaitQueue.Wake.{Woke, AreBlocks, wait_queue_wake-Woke}
use thunderos.Mutex.{release_mutex}
use thunderos.Mutex
use thunderos.Condvar.{Condvar, State, cond_signal, cond_broadcast, cond_wait, unlock_and_wake}

-- Both calls, with a valid ready queue, no panic before, and entries that are blocks of the heap, empty
-- the queue of the condition variable, make exactly the processes ready that wait in it and sleep, in
-- the order in which they wait, and change no other state: `cond_signal` wakes every waiter, as
-- `cond_broadcast` does.
pub cond_signal-Woke :
    (cv : Condvar) (k : Kernel)
    → IsValid k.sched
    → k.panicked ≡ false
    → AreBlocks cv.waiters.entries k.heap
    → let n = (wait_queue_wake cv.waiters k).0 in
      let (cv', k') = cond_signal cv k in
      Woke cv.waiters.entries 0 k (n, k')
      × (cv'.waiters.entries ≡ [])
      × (cond_broadcast cv k ≡ (cv', k'))
unfolding cond_signal cond_broadcast
cond_signal-Woke cv k v calm b =
    let (woke, empty, _) = wait_queue_wake-Woke cv.waiters k v calm b in (woke, empty, refl)

-- The mutex is free and its waiters are woken; `p` sleeps on the condition variable, `q` runs.
pub record Sleeps (s u t : State) (p q : ℕ) (rest : List (Option ℕ)) : Type 0 where
  pub unlocked : (unlock_and_wake s).mutex.locked ≡ false
  pub no_owner : (unlock_and_wake s).mutex.owner_pid ≡ none
  pub no_waiters : (unlock_and_wake s).mutex.waiters.entries ≡ []
  pub woke :
      Woke s.mutex.waiters.entries 0 s.kernel
        ((wait_queue_wake s.mutex.waiters s.kernel).0, (unlock_and_wake s).kernel)
  pub same_mutex : t.mutex ≡ u.mutex
  pub entry : Entry
  pub entry_proc : entry.proc ≡ p
  pub waits : t.condvar.waiters.entries ≡ u.condvar.waiters.entries ++ (entry ∷ [])
  pub switched : Switched u.kernel p q sleeping rest t.kernel

-- `cond_wait`, called with a valid ready queue, no panic before, and waiters of the mutex whose
-- entries are blocks of the heap, first unlocks the mutex, empties its queue, and wakes its
-- waiters. Then, whatever happens before it calls `wait_queue_sleep`, a signal of this condition
-- variable included: if after that `p` is the current process, the ready queue is valid, there is
-- memory for a queue entry, and `q` is first among the other processes that wait for the CPU, then
-- `p` becomes the last in the queue of the condition variable and sleeps, and `q` runs; the mutex
-- stays as it was before that.
pub cond_wait-Sleeps :
    (s : State) (gap : State → State) (later : List Mutex.Meanwhile)
    → (p q : ℕ) (rest : List (Option ℕ)) → IsValid s.kernel.sched
    → s.kernel.panicked ≡ false
    → AreBlocks s.mutex.waiters.entries s.kernel.heap
    → IsValid (gap (unlock_and_wake s)).kernel.sched
    → (gap (unlock_and_wake s)).kernel.current ≡ some p
    → (kernel_kmalloc (gap (unlock_and_wake s)).kernel entry_size).0 ≢ 0
    → Fifo.dequeue (contents (gap (unlock_and_wake s)).kernel.sched) p ≡ some q ∷ rest
    → p ≢ q
    → (t : State) × (cond_wait gap none later s ≡ asleep t)
      × Sleeps s (gap (unlock_and_wake s)) t p q rest
unfolding cond_wait unlock_and_wake release_mutex
cond_wait-Sleeps s gap later p q rest v calm b valid c memory e ne =
    let (woke, empty, _) = wait_queue_wake-Woke s.mutex.waiters s.kernel v calm b in
    let u = gap (unlock_and_wake s) in
    let (_, entries, t) =
      wait_queue_sleep-Switched u.condvar.waiters u.kernel p q rest valid c memory e ne in
    (
      _,
      refl,
      record {
        unlocked = refl;
        no_owner = refl;
        no_waiters = empty;
        woke = woke;
        same_mutex = refl;
        entry = record { proc = p; address = (kernel_kmalloc u.kernel entry_size).0 };
        entry_proc = refl;
        waits = entries;
        switched = t;
      },
    )
