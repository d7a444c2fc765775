-- ===== src/Condvar.antt =====
-- kernel/core/condvar.c: condition variables over wait queues and mutexes. The pointers are those of
-- the kernel's own objects, never NULL, so the NULL checks are left out.
pub mod Sleep
pub mod Tests
use thunderos.Prelude.{Option, none, some, List}
use thunderos.Prelude.Wait.{Waited, passed, asleep}
use thunderos.Kernel.{Kernel}
use thunderos.WaitQueue.{WaitQueue, wait_queue_init, wait_queue_sleep, wait_queue_wake}
use thunderos.Mutex.{Mutex, release_mutex, mutex_lock}
use thunderos.Mutex

pub record Condvar : Type 0 where
  pub waiters : WaitQueue

pub cond_init : Condvar
cond_init = record { waiters = wait_queue_init }

pub record State : Type 0 where
  pub condvar : Condvar
  pub mutex : Mutex
  pub kernel : Kernel

-- `wait_queue_wake(&mutex->waiters)`.
abbrev pub wake_mutex : State → State
wake_mutex s =
    let (_, wq, k) = wait_queue_wake (s.mutex).waiters s.kernel in
    record s { mutex = record (s.mutex) { waiters = wq }; kernel = k }

-- `wait_queue_sleep(&cv->waiters)`.
abbrev pub sleep_on_condvar : State → State
sleep_on_condvar s =
    let (_, wq, k) = wait_queue_sleep (s.condvar).waiters s.kernel in
    record s { condvar = record { waiters = wq }; kernel = k }

-- `cond_wait` up to `interrupt_restore`: the mutex is unlocked and its waiters are woken.
pub unlock_and_wake : State → State
unfolding release_mutex
unlock_and_wake s = wake_mutex (record s { mutex = release_mutex s.mutex })

-- `cond_wait`. The parameters are what the rest of the system does: `gap` between
-- `interrupt_restore` and the call of `wait_queue_sleep`, where interrupts are enabled; `others` until
-- the caller wakes up, `none` if it never does; `later` during each sleep in `mutex_lock` that it
-- wakes up from.
pub cond_wait :
    (State → State) → Option (State → State) → List Mutex.Meanwhile → State → Waited State
cond_wait gap none later s = asleep (sleep_on_condvar (gap (unlock_and_wake s)))
cond_wait gap (some others) later s =
    let t = others (sleep_on_condvar (gap (unlock_and_wake s))) in
    elim (mutex_lock later t.mutex t.kernel) [
      | passed (m, k) ↦ passed (record t { mutex = m; kernel = k })
      | asleep (m, k) ↦ asleep (record t { mutex = m; kernel = k })
    ]

pub cond_signal : Condvar → Kernel → Condvar × Kernel
cond_signal cv k = let (_, wq, k') = wait_queue_wake cv.waiters k in (record { waiters = wq }, k')

pub cond_broadcast : Condvar → Kernel → Condvar × Kernel
cond_broadcast cv k =
    let (_, wq, k') = wait_queue_wake cv.waiters k in (record { waiters = wq }, k')

-- A no-op.
pub cond_destroy : Condvar → Condvar
cond_destroy cv = cv
