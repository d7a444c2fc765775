-- ===== src/Mutex/System.antt =====
-- Processes that use one mutex, interleaved in any order with one another and with the rest of the
-- kernel. A step is a stretch of kernel/core/mutex.c between two points at which interrupts may be
-- enabled: the pass of the loop of `mutex_lock` and the call of `wait_queue_sleep` are two steps, the
-- two parts of `mutex_unlock` are two steps. Only a process that holds the mutex unlocks it, as
-- include/kernel/mutex.h asks; `mutex_unlock` itself does not check the owner. The steps allow more
-- than the code does: an invariant of them holds of the code, but that a state can be reached by them
-- does not tell that the code reaches it.
use thunderos.Prelude.{ℕ, ◌≡◌, some, Bool, true, false, ◌==◌, if◌then◌else◌}
use thunderos.Kernel.{Kernel}
use thunderos.Mutex.{
  Mutex, mutex_init, mutex_trylock, take_mutex, sleep_on_mutex, release_mutex, wake_one_waiter,
}

-- Where a process stands: outside; at the test of the loop of `mutex_lock`; past it, having found the
-- mutex locked, before `wait_queue_sleep`; holding the mutex; between the two parts of `mutex_unlock`.
pub data Pc : Type 0 where
  outside testing found_locked inside leaving : Pc

abbrev pub is_inside : Pc → Bool
is_inside inside = true
is_inside _ = false

pub record System : Type 0 where
  pub mutex : Mutex
  pub kernel : Kernel
  pub pc : ℕ → Pc

abbrev pub move : (ℕ → Pc) → ℕ → Pc → ℕ → Pc
move pc i p j = if i == j then p else pc j

-- The process that moves is the current one. `others` is all that leaves the mutex alone: interrupts,
-- the scheduler, signals, other processes. It may put any kernel in the place of this one.
pub data Step (s : System) : System → Type 0 where
  call :
      (i : ℕ)
      → s.kernel.current ≡ some i
      → s.pc i ≡ outside
      → Step s (record s { pc = move s.pc i testing })
  acquire :
      (i : ℕ)
      → s.kernel.current ≡ some i
      → s.pc i ≡ testing
      → s.mutex.locked ≡ false
      → Step s (record s { mutex = take_mutex s.mutex s.kernel.current; pc = move s.pc i inside })
  miss :
      (i : ℕ)
      → s.kernel.current ≡ some i
      → s.pc i ≡ testing
      → s.mutex.locked ≡ true
      → Step s (record s { pc = move s.pc i found_locked })
  sleep :
      (i : ℕ)
      → s.kernel.current ≡ some i
      → s.pc i ≡ found_locked
      → Step s (record {
        mutex = (sleep_on_mutex s.mutex s.kernel).0;
        kernel = (sleep_on_mutex s.mutex s.kernel).1;
        pc = move s.pc i testing;
      })
  try :
      (i : ℕ)
      → s.kernel.current ≡ some i
      → s.pc i ≡ outside
      → Step s (record s {
        mutex = (mutex_trylock s.mutex s.kernel).1;
        pc = move s.pc i (if s.mutex.locked then outside else inside);
      })
  release :
      (i : ℕ)
      → s.kernel.current ≡ some i
      → s.pc i ≡ inside
      → Step s (record s { mutex = release_mutex s.mutex; pc = move s.pc i leaving })
  wake :
      (i : ℕ)
      → s.kernel.current ≡ some i
      → s.pc i ≡ leaving
      → Step s (record {
        mutex = (wake_one_waiter s.mutex s.kernel).0;
        kernel = (wake_one_waiter s.mutex s.kernel).1;
        pc = move s.pc i outside;
      })
  others : (k : Kernel) → Step s (record s { kernel = k })

-- The mutex as `mutex_init` leaves it, and every process outside.
abbrev pub start : Kernel → System
start k = record { mutex = mutex_init; kernel = k; pc = λ _. outside }

pub data Reach (k : Kernel) : System → Type 0 where
  here : Reach k (start k)
  later : {s t : System} → Reach k s → Step s t → Reach k t
