-- ===== src/Mutex/Tests.antt =====
-- The theorems on mutexes at a machine with four processes.
use thunderos.Prelude.{refl, some, []}
use thunderos.Kernel.{Kernel, running}
use thunderos.Kernel.Tests.{machine}
use thunderos.Mutex.{mutex_init, take_mutex, mutex_lock}
use thunderos.Mutex.Lock.{Locks, mutex_lock-Locks}
use thunderos.Mutex.System.{outside, testing, inside, move, call, acquire, here, later}
use thunderos.Mutex.Exclusion.{IsExclusive, mutex_exclusion}

abbrev one : Kernel
one = machine running

mutex_lock-Locks_example : Locks [] (mutex_init, one) (mutex_lock [] mutex_init one)
mutex_lock-Locks_example = mutex_lock-Locks [] mutex_init one

mutex_exclusion_example : IsExclusive (record {
  mutex = take_mutex mutex_init (some 1);
  kernel = one;
  pc = move (move (λ _. outside) 1 testing) 1 inside;
})
unfolding mutex_init
mutex_exclusion_example =
    mutex_exclusion {k = one} (later (later here (call 1 refl refl)) (acquire 1 refl refl refl))
