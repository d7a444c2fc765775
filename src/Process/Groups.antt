-- ===== src/Process/Groups.antt =====
-- The process table of kernel/core/process.c: looking processes up, and process groups and sessions. A
-- process is the index of its slot. A pid_t is its 32-bit pattern.
pub mod Sessions
use thunderos.Prelude.{
  ℕ, ◌-◌, ◌^◌, Option, none, some, Bool, true, false, ◌==◌, not, ◌&&◌, ◌||◌, if◌then◌else◌,
}
use thunderos.Prelude.First.{first_from}
use thunderos.Errno.{Reply, ok, err, esrch, eperm}
use thunderos.Kernel.{ProcState, unused, zombie, is_stopped}

abbrev pub max_procs : ℕ
max_procs = 64

-- -1, which stands for any child.
abbrev pub any_pid : ℕ
any_pid = 2 ^ 32 - 1

abbrev pub is_unused : ProcState → Bool
is_unused unused = true
is_unused _ = false

abbrev pub is_zombie : ProcState → Bool
is_zombie zombie = true
is_zombie _ = false

-- `process_table`, and the current process.
pub record Procs : Type 0 where
  pub state : ℕ → ProcState
  pub pid : ℕ → ℕ
  pub pgid : ℕ → ℕ
  pub sid : ℕ → ℕ
  pub controlling_tty : ℕ → ℕ
  pub parent : ℕ → Option ℕ
  pub current : Option ℕ

abbrev pub is_live : Procs → ℕ → Bool
is_live p i = not (is_unused (p.state i))

abbrev pub is_child : Procs → ℕ → ℕ → Bool
is_child p parent i = elim (p.parent i) [ none ↦ false | some j ↦ j == parent ]

-- The loop over the slots of the table.
abbrev pub first_slot : (ℕ → Bool) → Option ℕ
first_slot test = first_from test max_procs 0

pub process_get : Procs → ℕ → Option ℕ
process_get p pid = first_slot (λ i. (p.pid i == pid) && is_live p i)

abbrev pub is_wanted : Procs → ℕ → ℕ → ℕ → Bool
is_wanted p parent target_pid i =
    is_child p parent i && ((target_pid == any_pid) || (p.pid i == target_pid))

pub process_find_zombie_child : Procs → ℕ → ℕ → Option ℕ
process_find_zombie_child p parent target_pid =
    first_slot (λ i. is_zombie (p.state i) && is_wanted p parent target_pid i)

pub process_has_children : Procs → ℕ → ℕ → Bool
process_has_children p parent target_pid =
    elim (first_slot (λ i. is_live p i && is_wanted p parent target_pid i)) [
      | none ↦ false
      | some i ↦ true
    ]

pub process_find_stopped_child : Procs → ℕ → ℕ → Option ℕ
process_find_stopped_child p parent target_pid =
    first_slot (λ i. is_stopped (p.state i) && is_wanted p parent target_pid i)

pub process_get_group_leader : Procs → ℕ → Option ℕ
process_get_group_leader p pgid =
    first_slot (λ i. is_live p i && (p.pid i == pgid) && (p.pgid i == pgid))

abbrev pub set_field : (ℕ → ℕ) → ℕ → ℕ → ℕ → ℕ
set_field f i a j = if i == j then a else f j

-- `found_group` of `process_setpgid`.
abbrev pub group_in_session : Procs → ℕ → ℕ → Option ℕ
group_in_session p pgid sid =
    first_slot (λ i. is_live p i && (p.pgid i == pgid) && (p.sid i == sid))

-- `process_setpgid` for the target in the slot `t` of the process in the slot `c`.
pub set_group : Procs → ℕ → ℕ → ℕ → ℕ → Reply × Procs
set_group p c t target_pid new_pgid =
    let found = group_in_session p new_pgid (p.sid t) in
    let done : Reply × Procs = (ok 0, record p { pgid = set_field p.pgid t new_pgid }) in
    if not (t == c) && not (is_child p c t)
    then (err eperm, p)
    else if p.pid t == p.sid t
    then (err eperm, p)
    else if new_pgid == target_pid
    then done
    else elim found [ none ↦ (err eperm, p) | some i ↦ done ]

pub process_setpgid : Procs → ℕ → ℕ → Reply × Procs
process_setpgid p pid pgid = elim p.current [
  | none ↦ (err esrch, p)
  | some c ↦
      let target_pid = if pid == 0 then p.pid c else pid in
      let new_pgid = if pgid == 0 then target_pid else pgid in
      elim (process_get p target_pid) [
        | none ↦ (err esrch, p)
        | some t ↦ set_group p c t target_pid new_pgid
      ]
]

-- `process_getpgid` and `process_getsid`, by the field they read.
abbrev pub get_field : (ℕ → ℕ) → Procs → ℕ → Reply
get_field field p pid = elim p.current [
  | none ↦ err esrch
  | some c ↦
      if pid == 0
      then ok (field c)
      else elim (process_get p pid) [ none ↦ err esrch | some t ↦ ok (field t) ]
]

pub process_getpgid : Procs → ℕ → Reply
process_getpgid p pid = get_field p.pgid p pid

pub process_getsid : Procs → ℕ → Reply
process_getsid p pid = get_field p.sid p pid

pub process_setsid : Procs → Reply × Procs
process_setsid p = elim p.current [
  | none ↦ (err esrch, p)
  | some c ↦ if p.pgid c == p.pid c then (err eperm, p) else (
    ok (p.pid c),
    record p {
      sid = set_field p.sid c (p.pid c);
      pgid = set_field p.pgid c (p.pid c);
      controlling_tty = set_field p.controlling_tty c any_pid;
    },
  )
]
