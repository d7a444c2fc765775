-- ===== src/Syscall/Handles.antt =====
-- Which handle a call in kernel/core/syscall.c gives out, and what becomes of a mutex whose handle is
-- destroyed while processes wait for it.
use thunderos.Prelude.{
  not, ℕ, ◌≤◌, ◌<◌, ◌≡◌, ◌≢◌, refl, some, [], Bool, true, false, arith, ap, ◌∙◌,
}
use thunderos.Prelude.First.{missing, found, first_from, first_from-Found}
use thunderos.Errno.{Reply, ok, err, einval, enomem}
use thunderos.WaitQueue.Wake.{wait_queue_init-nil}
use thunderos.Mutex.{Mutex, mutex_init}
use thunderos.Condvar.{cond_init}
use thunderos.Rwlock.{rwlock_init}
use thunderos.Syscall.{
  Table, UserLocks, max_user_objects, create, store, bad_handle, drop_handle, sys_mutex_create,
  sys_mutex_unlock, sys_mutex_destroy, sys_cond_create, sys_rwlock_create,
}

-- The two ways in which a call that creates an object ends.
pub data Created {A : Type 0} (fresh : A) (t : Table A) (r : Reply × Table A) : Type 0 where
  full :
      ((i : ℕ) → i < max_user_objects → t.in_use i ≡ true) → r ≡ (err enomem, t) → Created fresh t r
  created :
      (i : ℕ)
      → i < max_user_objects
      → t.in_use i ≡ false
      → ((j : ℕ) → j < i → t.in_use j ≡ true)
      → r.0 ≡ ok i
      → r.1.in_use i ≡ true
      → r.1.slot i ≡ fresh
      → ((j : ℕ) → j ≢ i → (r.1.in_use j ≡ t.in_use j) × (r.1.slot j ≡ t.slot j))
      → Created fresh t r

-- A slot that is in use, or that is not.
abbrev free : {A : Type 0} → Table A → ℕ → Bool
free t i = not (t.in_use i)

used : {A : Type 0} (t : Table A) (i : ℕ) → free t i ≡ false → t.in_use i ≡ true
used t i h = ground arith

unused : {A : Type 0} (t : Table A) (i : ℕ) → free t i ≡ true → t.in_use i ≡ false
unused t i h = ground arith

store_same : {A : Type 0} (f : ℕ → A) (i : ℕ) (a : A) → store f i a i ≡ a
store_same f i a = ground arith

store_other : {A : Type 0} (f : ℕ → A) (i j : ℕ) (a : A) → j ≢ i → store f i a j ≡ f j
store_other f i j a ne = ground arith

create-Created : {A : Type 0} (fresh : A) (t : Table A) → Created fresh t (create fresh t)
unfolding create
create-Created fresh t = elim (first_from-Found (free t) max_user_objects 0) [
  | missing f e ↦ rw (e, create) (full (λ i lt. used t i (f i (omega arith) lt)) refl)
  | found i le lt h f e ↦
      rw (e, create)
        (created i lt (unused t i h) (λ j l. used t j (f j (omega arith) l)) refl (ground arith)
          (store_same t.slot i fresh)
          (λ j ne. (store_other t.in_use i j true ne, store_other t.slot i j fresh ne)))
]

-- `sys_mutex_create`, `sys_cond_create` and `sys_rwlock_create` each fail with ENOMEM and change
-- nothing when all 64 slots of their table are in use. Otherwise each returns the lowest handle that is
-- not in use, marks it as used, makes its object a new one, and changes no other slot and no other
-- part of the state.
pub sys_create-Created :
    (s : UserLocks)
    → let (mutex, t) = sys_mutex_create s in
      let (cond, u) = sys_cond_create s in
      let (rwlock, v) = sys_rwlock_create s in
      Created mutex_init s.mutexes (mutex, t.mutexes)
      × Created cond_init s.condvars (cond, u.condvars)
      × Created rwlock_init s.rwlocks (rwlock, v.rwlocks)
      × (t ≡ record s { mutexes = t.mutexes })
      × (u ≡ record s { condvars = u.condvars })
      × (v ≡ record s { rwlocks = v.rwlocks })
unfolding sys_mutex_create sys_cond_create sys_rwlock_create
sys_create-Created s = (
  create-Created mutex_init s.mutexes,
  create-Created cond_init s.condvars,
  create-Created rwlock_init s.rwlocks,
  refl,
  refl,
  refl,
)

-- The slot of a handle that has been destroyed is the next one that is given out, when all below are
-- in use.
first_from-dropped :
    (t : Table Mutex) (id : ℕ)
    → id < max_user_objects
    → ((j : ℕ) → j < id → t.in_use j ≡ true)
    → first_from (free (drop_handle t id)) max_user_objects 0 ≡ some id
first_from-dropped t id lt below = elim (first_from-Found (free t') max_user_objects 0) [
  | missing f e ↦ absurd (ground (arith, f id (omega arith) lt, at_id))
  | found i le lt' h f e ↦ e ∙ ap some (is_id i h f)
]
  where
    t' : Table Mutex
    t' = drop_handle t id

    at_id : t'.in_use id ≡ false
    at_id = store_same t.in_use id false

    not_below : (i : ℕ) → free t' i ≡ true → id ≤ i
    not_below i h = ground (arith, below i)

    not_above : (i : ℕ) → ((j : ℕ) → 0 ≤ j → j < i → free t' j ≡ false) → i ≤ id
    not_above i f = ground (arith, f id, at_id)

    is_id : (i : ℕ) → free t' i ≡ true → ((j : ℕ) → 0 ≤ j → j < i → free t' j ≡ false) → i ≡ id
    is_id i h f = omega (arith, not_below i h, not_above i f)

destroyed_lem :
    (s : UserLocks) (id : ℕ)
    → bad_handle s.mutexes id ≡ false
    → sys_mutex_destroy s id ≡ (ok 0, record s { mutexes = drop_handle s.mutexes id })
unfolding sys_mutex_destroy
destroyed_lem s id h = rw h refl

unlocked_lem :
    (s : UserLocks) (id : ℕ)
    → bad_handle s.mutexes id ≡ true
    → sys_mutex_unlock s id ≡ (err einval, s)
unfolding sys_mutex_unlock
unlocked_lem s id h = rw h refl

-- Destroying a mutex strands the processes that wait for it: `sys_mutex_destroy` of a handle in use
-- succeeds whoever waits, an unlock by that handle then fails with EINVAL and changes nothing, and
-- when all lower handles are in use the next `sys_mutex_create` gives the handle out again,
-- unlocked and with an empty queue. No process has been woken, so whoever slept on the mutex sleeps
-- still.
pub sys_mutex_destroy_strands :
    (s : UserLocks) (id : ℕ)
    → id < max_user_objects
    → s.mutexes.in_use id ≡ true
    → ((j : ℕ) → j < id → s.mutexes.in_use j ≡ true)
    → let (destroyed, t) = sys_mutex_destroy s id in
      let (unlocked, u) = sys_mutex_unlock t id in
      let (created_again, v) = sys_mutex_create u in
      (destroyed ≡ ok 0)
      × (unlocked ≡ err einval)
      × (u ≡ t)
      × (created_again ≡ ok id)
      × ((v.mutexes.slot id).locked ≡ false)
      × ((v.mutexes.slot id).waiters.entries ≡ [])
      × (v.kernel ≡ s.kernel)
unfolding sys_mutex_create create mutex_init
sys_mutex_destroy_strands s id lt used below =
    let slots = (sys_mutex_unlock (sys_mutex_destroy s id).1 id).1.mutexes.slot in
    rw
      (
        destroyed_lem s id (ground arith),
        unlocked_lem (record s { mutexes = drop_handle s.mutexes id }) id (ground arith),
        sys_mutex_create,
        create,
        first_from-dropped s.mutexes id lt below,
      )
      (
        refl,
        refl,
        refl,
        refl,
        ap (λ (m : Mutex). m.locked) (store_same slots id mutex_init),
        ap (λ (m : Mutex). m.waiters.entries) (store_same slots id mutex_init)
            ∙ wait_queue_init-nil,
        refl,
      )
