-- ===== src/Mutex/Lock.antt =====
-- How `mutex_lock` and `semaphore_wait` end.
use thunderos.Prelude.{ℕ, ◌≡◌, refl, Option, none, some, List, true, false}
use thunderos.Prelude.Wait.{
  Waited, passed, asleep, wait_while, Turn, Ends, free, taken, wait_while-Ends,
}
use thunderos.Kernel.{Kernel}
use thunderos.Mutex.{Mutex, Meanwhile, take_mutex, is_locked, sleep_waiter, mutex_lock}

-- It has taken the mutex at a turn of its loop at which that was unlocked, for the process that is the
-- current one then; or it sleeps since a turn at which it was locked.
pub data Locks (others : List Meanwhile) (s : Mutex × Kernel)
    : Waited (Mutex × Kernel) → Type 0 where
  locks :
      (m m' : Mutex) (k : Kernel)
      → Turn sleep_waiter others s (m, k)
      → m.locked ≡ false
      → m'.locked ≡ true
      → m'.owner_pid ≡ (elim k.current [ none ↦ m.owner_pid | some pid ↦ some pid ])
      → m'.waiters ≡ m.waiters
      → Locks others s (passed (m', k))
  sleeps :
      (m : Mutex) (k : Kernel)
      → Turn sleep_waiter others s (m, k)
      → m.locked ≡ true
      → Locks others s (asleep (sleep_waiter (m, k)))

module _ (m : Mutex) where
  locked-take_mutex : (o : Option ℕ) → (take_mutex m o).locked ≡ true
  unfolding take_mutex
  locked-take_mutex none = refl
  locked-take_mutex (some pid) = refl

  owner_pid-take_mutex :
      (o : Option ℕ)
      → (take_mutex m o).owner_pid ≡ (elim o [ none ↦ m.owner_pid | some pid ↦ some pid ])
  unfolding take_mutex
  owner_pid-take_mutex none = refl
  owner_pid-take_mutex (some pid) = refl

  waiters-take_mutex : (o : Option ℕ) → (take_mutex m o).waiters ≡ m.waiters
  unfolding take_mutex
  waiters-take_mutex none = refl
  waiters-take_mutex (some pid) = refl

-- `mutex_lock`, whatever happens while it sleeps: it returns only after a turn at which the mutex was
-- unlocked, with the mutex locked for the current process; or it waits, asleep if there is memory for a
-- queue entry, since a turn at which the mutex was locked.
pub mutex_lock-Locks :
    (others : List Meanwhile) (m : Mutex) (k : Kernel) → Locks others (m, k) (mutex_lock others m k)
unfolding mutex_lock
mutex_lock-Locks others m k =
    by_end (wait_while is_locked sleep_waiter others (m, k))
      (wait_while-Ends is_locked sleep_waiter others (m, k))
  where
    by_end :
        (w : Waited (Mutex × Kernel))
        → Ends is_locked sleep_waiter others (m, k) w
        → Locks others
            (m, k)
            (elim w [
              | passed (m', k') ↦ passed (take_mutex m' k'.current, k')
              | asleep s ↦ asleep s
            ])
    by_end (passed (m', k')) (free t turn h) =
        locks m' _ k' turn h (locked-take_mutex m' k'.current) (owner_pid-take_mutex m' k'.current)
          (waiters-take_mutex m' k'.current)
    by_end (asleep s) (taken t turn h) = sleeps t.0 t.1 turn h
