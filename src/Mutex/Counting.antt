-- ===== src/Mutex/Counting.antt =====
-- Semaphores count: what is taken from one and what is left make what was put in.
use thunderos.Prelude.{ℕ, ◌+◌, ◌^◌, ◌<◌, ◌≡◌, List, [], ◌∷◌, arith, length}
use thunderos.Errno.{Reply, ok, err}
use thunderos.Kernel.{Kernel}
use thunderos.Mutex.{Semaphore, semaphore_trywait, semaphore_signal}

pub data Op : Type 0 where
  trywait signal : Op

abbrev pub succeeded : Reply → ℕ
succeeded (ok _) = 1
succeeded (err _) = 0

-- A sequence of calls: how often `semaphore_trywait` succeeds, and the semaphore at the end.
pub run : List Op → Semaphore → Kernel → ℕ × Semaphore
run [] s k = (0, s)
run (trywait ∷ ops) s k =
    let (reply, s') = semaphore_trywait s in let (n, t) = run ops s' k in (succeeded reply + n, t)
run (signal ∷ ops) s k = let (s', k') = semaphore_signal s k in run ops s' k'

abbrev pub signals : List Op → ℕ
signals [] = 0
signals (trywait ∷ ops) = signals ops
signals (signal ∷ ops) = signals ops + 1

trywait_step :
    (s : Semaphore)
    → s.count < 2 ^ 31
    → ((semaphore_trywait s).1.count + succeeded (semaphore_trywait s).0 ≡ s.count)
unfolding semaphore_trywait
trywait_step s h = ground arith

signal_step :
    (s : Semaphore) (k : Kernel)
    → s.count + 1 < 2 ^ 31
    → (semaphore_signal s k).0.count ≡ s.count + 1
unfolding semaphore_signal
signal_step s k h = ground arith

-- Over any sequence of `semaphore_trywait` and `semaphore_signal` on a semaphore whose count is not
-- negative and stays below 2^31, the count at the end and the number of successful waits make up the
-- count at the start and the number of signals; so no more waits succeed than that.
pub semaphore_conserves :
    (ops : List Op) (s : Semaphore) (k : Kernel)
    → s.count + length ops < 2 ^ 31
    → (run ops s k).1.count + (run ops s k).0 ≡ s.count + signals ops
unfolding run
semaphore_conserves [] s k h = omega arith
semaphore_conserves (trywait ∷ ops) s k h = omega (
  arith,
  trywait_step s (omega arith),
  semaphore_conserves ops (semaphore_trywait s).1 k (omega (arith, trywait_step s (omega arith))),
)
semaphore_conserves (signal ∷ ops) s k h = omega (
  arith,
  signal_step s k (omega arith),
  semaphore_conserves ops (semaphore_signal s k).0 (semaphore_signal s k).1
      (omega (arith, signal_step s k (omega arith))),
)
