-- ===== src/Syscall/Tests.antt =====
-- The theorems on handles at tables of which the first two slots are in use.
use thunderos.Prelude.{ℕ, ◌<◌, ◌≡◌, refl, some, [], false, true, arith, ltb}
use thunderos.Errno.{ok, err, einval}
use thunderos.WaitQueue.Tests.{pair, two_asleep}
use thunderos.Mutex.{Mutex}
use thunderos.Condvar.{cond_init}
use thunderos.Rwlock.{rwlock_init}
use thunderos.Syscall.{Table, UserLocks, sys_mutex_create, sys_mutex_unlock, sys_mutex_destroy}
use thunderos.Syscall.Handles.{sys_mutex_destroy_strands}

-- A mutex that process 1 holds and for which two processes sleep.
abbrev contended : Mutex
contended = record { locked = true; owner_pid = some 1; waiters = pair }

abbrev two_used : {A : Type 0} → A → Table A
two_used a = record { in_use = λ i. ltb i 2; slot = λ i. a }

abbrev locks : UserLocks
locks = record {
  kernel = two_asleep;
  mutexes = two_used contended;
  condvars = two_used cond_init;
  rwlocks = two_used rwlock_init;
}

one_below : (j : ℕ) → j < 1 → locks.mutexes.in_use j ≡ true
one_below j lt = ground arith

sys_mutex_destroy_strands_example :
    let (destroyed, t) = sys_mutex_destroy locks 1 in
    let (unlocked, u) = sys_mutex_unlock t 1 in
    let (created_again, v) = sys_mutex_create u in
    (destroyed ≡ ok 0)
    × (unlocked ≡ err einval)
    × (u ≡ t)
    × (created_again ≡ ok 1)
    × ((v.mutexes.slot 1).locked ≡ false)
    × ((v.mutexes.slot 1).waiters.entries ≡ [])
    × (v.kernel ≡ locks.kernel)
sys_mutex_destroy_strands_example = sys_mutex_destroy_strands locks 1 (omega arith) refl one_below
