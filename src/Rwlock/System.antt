-- ===== src/Rwlock/System.antt =====
-- `n` processes that use one reader-writer lock, interleaved in any order with one another and with
-- the rest of the kernel. A step is a stretch of kernel/core/rwlock.c between two points at which
-- interrupts may be enabled. A process unlocks only what it holds; the unlock calls do not check
-- it. The steps allow more than the code does: an invariant of them holds of the code, but that a
-- state can be reached by them does not tell that the code reaches it.
use thunderos.Prelude.{ℕ, ◌<◌, ◌≡◌, Bool, true, false, ◌==◌, if◌then◌else◌}
use thunderos.Kernel.{Kernel}
use thunderos.Rwlock.{
  Rwlock, rwlock_init, read_blocked, write_blocked, sleep_reader, sleep_writer, wake_readers,
  wake_writer, enter_read, enter_write, announce_write, leave_read, writer_next,
  rwlock_read_trylock, rwlock_write_trylock,
}

-- Where a process stands: outside; at the test of a loop, or past it and about to sleep; in its
-- section; or in an unlock, about to wake the readers, to look for a writer, or to wake a writer.
pub data Pc : Type 0 where
  outside want_read missed_read reading want_write missed_write writing : Pc
  waking_readers looking waking_writer : Pc

abbrev pub is_reading : Pc → Bool
is_reading reading = true
is_reading _ = false

abbrev pub is_writing : Pc → Bool
is_writing writing = true
is_writing _ = false

-- In the loop of `rwlock_write_lock`.
abbrev pub waits_to_write : Pc → Bool
waits_to_write want_write = true
waits_to_write missed_write = true
waits_to_write _ = false

pub record System : Type 0 where
  pub rw : Rwlock
  pub kernel : Kernel
  pub pc : ℕ → Pc

abbrev pub move : (ℕ → Pc) → ℕ → Pc → ℕ → Pc
move pc i p j = if i == j then p else pc j

-- A stretch of code of one process, that stands at the first place and then at the second.
pub data Section (rw : Rwlock) (k : Kernel) : Pc → Rwlock → Kernel → Pc → Type 0 where
  call_read : Section rw k outside rw k want_read
  enter : read_blocked rw ≡ false → Section rw k want_read (enter_read rw) k reading
  miss : read_blocked rw ≡ true → Section rw k want_read rw k missed_read
  sleep : Section rw k missed_read (sleep_reader (rw, k)).0 (sleep_reader (rw, k)).1 want_read
  try_read :
      Section rw k outside
        (rwlock_read_trylock rw).1
        k
        (if read_blocked rw then outside else reading)
  leave :
      Section rw k reading
        (leave_read rw)
        k
        (if writer_next (leave_read rw) then waking_writer else outside)
  call_write : Section rw k outside (announce_write rw) k want_write
  enter_exclusive : write_blocked rw ≡ false → Section rw k want_write (enter_write rw) k writing
  miss_exclusive : write_blocked rw ≡ true → Section rw k want_write rw k missed_write
  sleep_exclusive :
      Section rw k missed_write (sleep_writer (rw, k)).0 (sleep_writer (rw, k)).1 want_write
  try_write :
      Section rw k outside
        (rwlock_write_trylock rw).1
        k
        (if write_blocked rw then outside else writing)
  leave_exclusive : Section rw k writing (record rw { writer = false }) k waking_readers
  wake_all : Section rw k waking_readers (wake_readers rw k).0 (wake_readers rw k).1 looking
  look : Section rw k looking rw k (if writer_next rw then waking_writer else outside)
  wake : Section rw k waking_writer (wake_writer rw k).0 (wake_writer rw k).1 outside

-- `others` is all that leaves the lock alone: interrupts, the scheduler, signals, other processes.
pub data Step (n : ℕ) (s : System) : System → Type 0 where
  step :
      (i : ℕ) {rw : Rwlock} {k : Kernel} {p q : Pc}
      → i < n
      → s.pc i ≡ p
      → Section s.rw s.kernel p rw k q
      → Step n s (record { rw = rw; kernel = k; pc = move s.pc i q })
  others : (k : Kernel) → Step n s (record s { kernel = k })

abbrev pub start : Kernel → System
start k = record { rw = rwlock_init; kernel = k; pc = λ _. outside }

pub data Reach (n : ℕ) (k : Kernel) : System → Type 0 where
  here : Reach n k (start k)
  later : {s t : System} → Reach n k s → Step n s t → Reach n k t
