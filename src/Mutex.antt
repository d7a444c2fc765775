-- ===== src/Mutex.antt =====
-- kernel/core/mutex.c: mutexes and counting semaphores. What runs with interrupts disabled is one
-- step. The pointers that the kernel passes are those of objects of its own, never NULL, so the NULL
-- checks are left out. A semaphore's `int` is its 32-bit pattern.
pub mod Lock
pub mod System
pub mod Exclusion
pub mod Counting
pub mod Tests
use thunderos.Prelude.{
  ℕ, ◌+◌, ◌-◌, ◌%◌, ◌^◌, Option, none, some, List, [], ◌∷◌, Bool, true, false, ◌==◌, ◌||◌, leb,
  if◌then◌else◌,
}
use thunderos.Prelude.Wait.{Waited, passed, asleep, wait_while}
use thunderos.Errno.{Reply, ok, err, ebusy, eagain}
use thunderos.Kernel.{Kernel}
use thunderos.WaitQueue.{
  WaitQueue, inc32, dec32, wait_queue_init, wait_queue_sleep, wait_queue_wake_one,
}

-- MUTEX_LOCKED is `true`; the owner -1 is `none`.
pub record Mutex : Type 0 where
  pub locked : Bool
  pub owner_pid : Option ℕ
  pub waiters : WaitQueue

unfoldable pub mutex_init : Mutex
mutex_init = record { locked = false; owner_pid = none; waiters = wait_queue_init }

-- The mutex taken: without a current process the owner stays.
unfoldable pub take_mutex : Mutex → Option ℕ → Mutex
take_mutex m none = record m { locked = true }
take_mutex m (some pid) = record m { locked = true; owner_pid = some pid }

-- `wait_queue_sleep(&mutex->waiters)`.
unfoldable pub sleep_on_mutex : Mutex → Kernel → Mutex × Kernel
sleep_on_mutex m k =
    let (_, wq, k') = wait_queue_sleep m.waiters k in (record m { waiters = wq }, k')

-- What the rest of the system does while the caller sleeps.
abbrev pub Meanwhile : Type 0
Meanwhile = Mutex × Kernel → Mutex × Kernel

abbrev pub is_locked : Mutex × Kernel → Bool
is_locked s = s.0.locked

abbrev pub sleep_waiter : Meanwhile
sleep_waiter s = sleep_on_mutex s.0 s.1

-- `mutex_lock`: the mutex and the kernel when it returns, or when the caller sleeps for ever.
pub mutex_lock : List Meanwhile → Mutex → Kernel → Waited (Mutex × Kernel)
unfolding take_mutex sleep_on_mutex wait_while
mutex_lock others m k = elim (wait_while is_locked sleep_waiter others (m, k)) [
  | passed (m', k') ↦ passed (take_mutex m' k'.current, k')
  | asleep s ↦ asleep s
]

pub mutex_trylock : Mutex → Kernel → Reply × Mutex
unfolding take_mutex
mutex_trylock m k = if m.locked then (err ebusy, m) else (ok 0, take_mutex m k.current)

-- The first part of `mutex_unlock`, with interrupts disabled.
unfoldable pub release_mutex : Mutex → Mutex
release_mutex m = record m { locked = false; owner_pid = none }

-- The second part: `wait_queue_wake_one(&mutex->waiters)`.
unfoldable pub wake_one_waiter : Mutex → Kernel → Mutex × Kernel
wake_one_waiter m k =
    let (_, wq, k') = wait_queue_wake_one m.waiters k in (record m { waiters = wq }, k')

pub mutex_unlock : Mutex → Kernel → Mutex × Kernel
unfolding release_mutex wake_one_waiter
mutex_unlock m k = wake_one_waiter (release_mutex m) k

pub mutex_is_locked : Mutex → Bool
mutex_is_locked m = m.locked

pub record Semaphore : Type 0 where
  pub count : ℕ
  pub waiters : WaitQueue

pub semaphore_init : ℕ → Semaphore
semaphore_init initial_count = record { count = initial_count; waiters = wait_queue_init }

-- `sem->count <= 0`, of a signed number.
abbrev pub is_used_up : ℕ → Bool
is_used_up count = count == 0 || leb (2 ^ 31) count

unfoldable pub sleep_on_semaphore : Semaphore → Kernel → Semaphore × Kernel
sleep_on_semaphore s k =
    let (_, wq, k') = wait_queue_sleep s.waiters k in (record s { waiters = wq }, k')

abbrev pub has_none : Semaphore × Kernel → Bool
has_none s = is_used_up (s.0).count

abbrev pub sleep_waiting : Semaphore × Kernel → Semaphore × Kernel
sleep_waiting s = sleep_on_semaphore s.0 s.1

pub semaphore_wait :
    List (Semaphore × Kernel → Semaphore × Kernel)
    → Semaphore
    → Kernel
    → Waited (Semaphore × Kernel)
unfolding sleep_on_semaphore wait_while
semaphore_wait others s k = elim (wait_while has_none sleep_waiting others (s, k)) [
  | passed (s', k') ↦ passed (record s' { count = dec32 s'.count }, k')
  | asleep s ↦ asleep s
]

pub semaphore_trywait : Semaphore → Reply × Semaphore
semaphore_trywait s =
    if is_used_up s.count then (err eagain, s) else (ok 0, record s { count = dec32 s.count })

pub semaphore_signal : Semaphore → Kernel → Semaphore × Kernel
semaphore_signal s k =
    let (_, wq, k') = wait_queue_wake_one s.waiters k in
    (record { count = inc32 s.count; waiters = wq }, k')

pub semaphore_get_count : Semaphore → ℕ
semaphore_get_count s = s.count
