-- ===== src/Rwlock.antt =====
-- kernel/core/rwlock.c: reader-writer locks with two wait queues. What runs with interrupts disabled
-- is one step. The pointers are those of the kernel's own objects, never NULL, so the NULL checks are
-- left out. An `int` that counts is its 32-bit pattern.
pub mod System
pub mod Invariant
pub mod Exclusion
pub mod Tests
use thunderos.Prelude.{
  ℕ, ◌+◌, ◌-◌, ◌%◌, ◌^◌, Option, none, some, List, [], ◌∷◌, Bool, true, false, ◌==◌, ltb, ◌&&◌,
  ◌||◌, if◌then◌else◌,
}
use thunderos.Prelude.Wait.{Waited, passed, asleep, wait_while}
use thunderos.Errno.{Reply, ok, err, ebusy}
use thunderos.Kernel.{Kernel}
use thunderos.WaitQueue.{
  WaitQueue, inc32, dec32, wait_queue_init, wait_queue_sleep, wait_queue_wake, wait_queue_wake_one,
}

pub record Rwlock : Type 0 where
  pub readers : ℕ
  pub writer : Bool
  pub writers_waiting : ℕ
  pub reader_queue : WaitQueue
  pub writer_queue : WaitQueue

pub rwlock_init : Rwlock
rwlock_init = record {
  readers = 0;
  writer = false;
  writers_waiting = 0;
  reader_queue = wait_queue_init;
  writer_queue = wait_queue_init;
}

-- `n > 0`, of a signed number.
abbrev pub is_positive : ℕ → Bool
is_positive n = ltb 0 n && ltb n (2 ^ 31)

abbrev pub read_blocked : Rwlock → Bool
read_blocked rw = rw.writer || is_positive rw.writers_waiting

abbrev pub write_blocked : Rwlock → Bool
write_blocked rw = is_positive rw.readers || rw.writer

-- The wait queue calls on the queues of the lock.
unfoldable pub sleep_reader : Rwlock × Kernel → Rwlock × Kernel
sleep_reader (rw, k) =
    let (_, wq, k') = wait_queue_sleep rw.reader_queue k in (record rw { reader_queue = wq }, k')

unfoldable pub sleep_writer : Rwlock × Kernel → Rwlock × Kernel
sleep_writer (rw, k) =
    let (_, wq, k') = wait_queue_sleep rw.writer_queue k in (record rw { writer_queue = wq }, k')

unfoldable pub wake_readers : Rwlock → Kernel → Rwlock × Kernel
wake_readers rw k =
    let (_, wq, k') = wait_queue_wake rw.reader_queue k in (record rw { reader_queue = wq }, k')

unfoldable pub wake_writer : Rwlock → Kernel → Rwlock × Kernel
wake_writer rw k =
    let (_, wq, k') = wait_queue_wake_one rw.writer_queue k in (record rw { writer_queue = wq }, k')

-- `rw->readers++`, and the two lines that end `rwlock_write_lock`.
abbrev pub enter_read : Rwlock → Rwlock
enter_read rw = record rw { readers = inc32 rw.readers }

abbrev pub enter_write : Rwlock → Rwlock
enter_write rw = record rw { writer = true; writers_waiting = dec32 rw.writers_waiting }

abbrev pub announce_write : Rwlock → Rwlock
announce_write rw = record rw { writers_waiting = inc32 rw.writers_waiting }

-- A list has what the rest of the system does during each sleep that the caller wakes up from.
abbrev pub Meanwhile : Type 0
Meanwhile = Rwlock × Kernel → Rwlock × Kernel

pub rwlock_read_lock : List Meanwhile → Rwlock → Kernel → Waited (Rwlock × Kernel)
unfolding sleep_reader wait_while
rwlock_read_lock others rw k =
    elim (wait_while (λ (s : Rwlock × Kernel). read_blocked s.0) sleep_reader others (rw, k)) [
      | passed (rw', k') ↦ passed (enter_read rw', k')
      | asleep s ↦ asleep s
    ]

pub rwlock_read_trylock : Rwlock → Reply × Rwlock
rwlock_read_trylock rw = if read_blocked rw then (err ebusy, rw) else (ok 0, enter_read rw)

-- The first part of `rwlock_read_unlock`, and whether a writer is woken then.
abbrev pub leave_read : Rwlock → Rwlock
leave_read rw = if is_positive rw.readers then record rw { readers = dec32 rw.readers } else rw

abbrev pub writer_next : Rwlock → Bool
writer_next rw = rw.readers == 0 && is_positive rw.writers_waiting

pub rwlock_read_unlock : Rwlock → Kernel → Rwlock × Kernel
unfolding wake_writer
rwlock_read_unlock rw k =
    let rw' = leave_read rw in if writer_next rw' then wake_writer rw' k else (rw', k)

pub rwlock_write_lock : List Meanwhile → Rwlock → Kernel → Waited (Rwlock × Kernel)
unfolding sleep_writer wait_while
rwlock_write_lock others rw k =
    elim (wait_while (λ (s : Rwlock × Kernel). write_blocked s.0) sleep_writer others
      (announce_write rw, k)) [
        | passed (rw', k') ↦ passed (enter_write rw', k')
        | asleep s ↦ asleep s
      ]

pub rwlock_write_trylock : Rwlock → Reply × Rwlock
rwlock_write_trylock rw =
    if write_blocked rw then (err ebusy, rw) else (ok 0, record rw { writer = true })

pub rwlock_write_unlock : Rwlock → Kernel → Rwlock × Kernel
unfolding wake_readers wake_writer
rwlock_write_unlock rw k =
    let (rw', k') = wake_readers (record rw { writer = false }) k in
    if writer_next rw' then wake_writer rw' k' else (rw', k')

pub rwlock_reader_count : Rwlock → ℕ
rwlock_reader_count rw = rw.readers

pub rwlock_is_write_locked : Rwlock → Bool
rwlock_is_write_locked rw = rw.writer
