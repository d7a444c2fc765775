-- ===== src/Errno.antt =====
-- kernel/core/errno.c: the error number of the running process, or of early boot. Also the error
-- codes of include/kernel/errno.h that the modelled code sets, and the shape of a call's reply.
use thunderos.Prelude.{ℕ, ◌≡◌, ◌≢◌, Option, none, some, ◌==◌, if◌then◌else◌, arith}

abbrev pub esrch : ℕ
esrch = 3

abbrev pub eperm : ℕ
eperm = 1

abbrev pub enoent : ℕ
enoent = 2

abbrev pub ebadf : ℕ
ebadf = 9

abbrev pub eacces : ℕ
eacces = 13

abbrev pub emfile : ℕ
emfile = 24

abbrev pub efs_notmnt : ℕ
efs_notmnt = 41

abbrev pub eio : ℕ
eio = 5

abbrev pub eagain : ℕ
eagain = 11

abbrev pub enomem : ℕ
enomem = 12

abbrev pub ebusy : ℕ
ebusy = 16

abbrev pub einval : ℕ
einval = 22

abbrev pub epipe : ℕ
epipe = 32

abbrev pub efault : ℕ
efault = 14

abbrev pub eexist : ℕ
eexist = 17

abbrev pub efs_noinode : ℕ
efs_noinode = 33

abbrev pub efs_noblk : ℕ
efs_noblk = 34

abbrev pub enosys : ℕ
enosys = 38

-- What a call hands back: a value with `errno` cleared, or -1 with `errno` set to the code
-- (`RETURN_ERRNO`).
pub data Reply : Type 0 where
  ok : ℕ → Reply
  err : ℕ → Reply

-- `g_early_errno`, the field `errno_value` of each process, and the current process.
pub record ErrnoState : Type 0 where
  pub early : ℕ
  pub value : ℕ → ℕ
  pub current : Option ℕ

-- `*__thunderos_errno_location() = code`.
store : ErrnoState → ℕ → ErrnoState
store s code = elim s.current [
  | none ↦ record s { early = code }
  | some pid ↦ record s { value = λ j. if pid == j then code else s.value j }
]

-- The value returned is the int -1, so only the new state is given.
pub set_errno : ErrnoState → ℕ → ErrnoState
unfolding store
set_errno s code = store s code

pub get_errno : ErrnoState → ℕ
get_errno s = elim s.current [ none ↦ s.early | some pid ↦ s.value pid ]

pub clear_errno : ErrnoState → ErrnoState
unfolding store
clear_errno s = store s 0

-- The current process reads the code that it has set last, and 0 once it has been cleared; a process
-- other than the current one, and early boot, still read what they did before.
pub get_errno-set_errno :
    (s : ErrnoState) (code : ℕ) (other : Option ℕ)
    → other ≢ s.current
    → (get_errno (set_errno s code) ≡ code)
      × (get_errno (clear_errno (set_errno s code)) ≡ 0)
      × (get_errno (record (set_errno s code) { current = other })
          ≡ get_errno (record s { current = other }))
unfolding get_errno set_errno clear_errno
get_errno-set_errno s code other ne = (ground arith, ground arith, ground arith)
