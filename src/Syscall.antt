-- ===== src/Syscall.antt =====
-- kernel/core/syscall.c: the system calls on user mutexes, condition variables and reader-writer
-- locks. Each kind has a table of 64 objects of the kernel and a flag for each whether it is in use; a
-- handle is an index. The handles are not negative: the calls refuse a negative one as they refuse one
-- that is too large. The value -1 with its error code is `err`.
pub mod Handles
pub mod Tests
use thunderos.Prelude.{
  ℕ, zero, suc, ◌+◌, Option, none, some, List, Bool, true, false, ◌==◌, leb, not, ◌||◌,
  if◌then◌else◌,
}
use thunderos.Prelude.Wait.{passed, asleep}
use thunderos.Prelude.First.{first_from}
use thunderos.Errno.{Reply, ok, err, einval, enomem}
use thunderos.Kernel.{Kernel}
use thunderos.Mutex
use thunderos.Mutex.{Mutex, mutex_init, mutex_lock, mutex_trylock, mutex_unlock}
use thunderos.Condvar.{
  Condvar, State, cond_init, cond_wait, cond_signal, cond_broadcast, cond_destroy,
}
use thunderos.Rwlock
use thunderos.Rwlock.{
  Rwlock, rwlock_init, rwlock_read_lock, rwlock_read_unlock, rwlock_write_lock, rwlock_write_unlock,
}

-- MAX_USER_MUTEXES, MAX_USER_CONDVARS and MAX_USER_RWLOCKS.
abbrev pub max_user_objects : ℕ
max_user_objects = 64

-- `user_mutexes` with `mutex_in_use`, and the same for the other two kinds.
pub record Table (A : Type 0) : Type 0 where
  pub in_use : ℕ → Bool
  pub slot : ℕ → A

pub record UserLocks : Type 0 where
  pub kernel : Kernel
  pub mutexes : Table Mutex
  pub condvars : Table Condvar
  pub rwlocks : Table Rwlock

abbrev pub store {ℓ} : {A : Type ℓ} → (ℕ → A) → ℕ → A → ℕ → A
store f i a j = if i == j then a else f j

abbrev pub put : {A : Type 0} → Table A → ℕ → A → Table A
put t i a = record t { slot = store t.slot i a }

abbrev pub drop_handle : {A : Type 0} → Table A → ℕ → Table A
drop_handle t i = record t { in_use = store t.in_use i false }

-- The three calls that create an object, with what its `init` function makes of the slot.
unfoldable pub create : {A : Type 0} → A → Table A → Reply × Table A
create fresh t = elim (first_from (λ i. not (t.in_use i)) max_user_objects 0) [
  | none ↦ (err enomem, t)
  | some i ↦ (ok i, record { in_use = store t.in_use i true; slot = store t.slot i fresh })
]

-- `id < 0 || id >= MAX || !in_use[id]`.
abbrev pub bad_handle : {A : Type 0} → Table A → ℕ → Bool
bad_handle t id = leb max_user_objects id || not (t.in_use id)

-- How a call that may block ends: it returns, or it sleeps for ever. `elsewhere` is what the rest of
-- the system does to the tables until it returns, apart from the objects of the call.
pub data Blocking : Type 0 where
  returned : Reply → UserLocks → Blocking
  waiting : UserLocks → Blocking

abbrev pub put_mutex : UserLocks → ℕ → Mutex × Kernel → UserLocks
put_mutex s id r = record s { mutexes = put s.mutexes id r.0; kernel = r.1 }

abbrev pub put_rwlock : UserLocks → ℕ → Rwlock × Kernel → UserLocks
put_rwlock s id r = record s { rwlocks = put s.rwlocks id r.0; kernel = r.1 }

abbrev pub put_condvar : UserLocks → ℕ → Condvar × Kernel → UserLocks
put_condvar s id r = record s { condvars = put s.condvars id r.0; kernel = r.1 }

pub sys_mutex_create : UserLocks → Reply × UserLocks
unfolding create
sys_mutex_create s =
    let (reply, t) = create mutex_init s.mutexes in (reply, record s { mutexes = t })

pub sys_mutex_lock : List Mutex.Meanwhile → (UserLocks → UserLocks) → UserLocks → ℕ → Blocking
sys_mutex_lock others elsewhere s id =
    if bad_handle s.mutexes id
    then returned (err einval) s
    else elim (mutex_lock others (s.mutexes.slot id) s.kernel) [
      | passed r ↦ returned (ok 0) (put_mutex (elsewhere s) id r)
      | asleep r ↦ waiting (put_mutex s id r)
    ]

pub sys_mutex_trylock : UserLocks → ℕ → Reply × UserLocks
sys_mutex_trylock s id =
    if bad_handle s.mutexes id
    then (err einval, s)
    else let (reply, m) = mutex_trylock (s.mutexes.slot id) s.kernel in
      (reply, put_mutex s id (m, s.kernel))

pub sys_mutex_unlock : UserLocks → ℕ → Reply × UserLocks
sys_mutex_unlock s id =
    if bad_handle s.mutexes id
    then (err einval, s)
    else (ok 0, put_mutex s id (mutex_unlock (s.mutexes.slot id) s.kernel))

pub sys_mutex_destroy : UserLocks → ℕ → Reply × UserLocks
sys_mutex_destroy s id =
    if bad_handle s.mutexes id
    then (err einval, s)
    else (ok 0, record s { mutexes = drop_handle s.mutexes id })

pub sys_cond_create : UserLocks → Reply × UserLocks
unfolding create
sys_cond_create s =
    let (reply, t) = create cond_init s.condvars in (reply, record s { condvars = t })

pub sys_cond_wait :
    (State → State)
    → Option (State → State)
    → List Mutex.Meanwhile
    → (UserLocks → UserLocks)
    → UserLocks
    → ℕ
    → ℕ
    → Blocking
sys_cond_wait gap woken others elsewhere s cond_id mutex_id =
    if bad_handle s.condvars cond_id
    then returned (err einval) s
    else if bad_handle s.mutexes mutex_id
    then returned (err einval) s
    else elim (cond_wait gap woken others (record {
      condvar = s.condvars.slot cond_id;
      mutex = s.mutexes.slot mutex_id;
      kernel = s.kernel;
    })) [
      | passed r ↦ returned (ok 0) (
          put_mutex (put_condvar (elsewhere s) cond_id (r.condvar, r.kernel)) mutex_id
            (r.mutex, r.kernel))
      | asleep r ↦
          waiting
            (put_mutex (put_condvar s cond_id (r.condvar, r.kernel)) mutex_id (r.mutex, r.kernel))
    ]

pub sys_cond_signal : UserLocks → ℕ → Reply × UserLocks
sys_cond_signal s id =
    if bad_handle s.condvars id
    then (err einval, s)
    else (ok 0, put_condvar s id (cond_signal (s.condvars.slot id) s.kernel))

pub sys_cond_broadcast : UserLocks → ℕ → Reply × UserLocks
sys_cond_broadcast s id =
    if bad_handle s.condvars id
    then (err einval, s)
    else (ok 0, put_condvar s id (cond_broadcast (s.condvars.slot id) s.kernel))

pub sys_cond_destroy : UserLocks → ℕ → Reply × UserLocks
sys_cond_destroy s id =
    if bad_handle s.condvars id
    then (err einval, s)
    else let t = put s.condvars id (cond_destroy (s.condvars.slot id)) in
      (ok 0, record s { condvars = drop_handle t id })

pub sys_rwlock_create : UserLocks → Reply × UserLocks
unfolding create
sys_rwlock_create s =
    let (reply, t) = create rwlock_init s.rwlocks in (reply, record s { rwlocks = t })

pub sys_rwlock_read_lock :
    List Rwlock.Meanwhile → (UserLocks → UserLocks) → UserLocks → ℕ → Blocking
sys_rwlock_read_lock others elsewhere s id =
    if bad_handle s.rwlocks id
    then returned (err einval) s
    else elim (rwlock_read_lock others (s.rwlocks.slot id) s.kernel) [
      | passed r ↦ returned (ok 0) (put_rwlock (elsewhere s) id r)
      | asleep r ↦ waiting (put_rwlock s id r)
    ]

pub sys_rwlock_read_unlock : UserLocks → ℕ → Reply × UserLocks
sys_rwlock_read_unlock s id =
    if bad_handle s.rwlocks id
    then (err einval, s)
    else (ok 0, put_rwlock s id (rwlock_read_unlock (s.rwlocks.slot id) s.kernel))

pub sys_rwlock_write_lock :
    List Rwlock.Meanwhile → (UserLocks → UserLocks) → UserLocks → ℕ → Blocking
sys_rwlock_write_lock others elsewhere s id =
    if bad_handle s.rwlocks id
    then returned (err einval) s
    else elim (rwlock_write_lock others (s.rwlocks.slot id) s.kernel) [
      | passed r ↦ returned (ok 0) (put_rwlock (elsewhere s) id r)
      | asleep r ↦ waiting (put_rwlock s id r)
    ]

pub sys_rwlock_write_unlock : UserLocks → ℕ → Reply × UserLocks
sys_rwlock_write_unlock s id =
    if bad_handle s.rwlocks id
    then (err einval, s)
    else (ok 0, put_rwlock s id (rwlock_write_unlock (s.rwlocks.slot id) s.kernel))

pub sys_rwlock_destroy : UserLocks → ℕ → Reply × UserLocks
sys_rwlock_destroy s id =
    if bad_handle s.rwlocks id
    then (err einval, s)
    else (ok 0, record s { rwlocks = drop_handle s.rwlocks id })
