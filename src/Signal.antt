-- ===== src/Signal.antt =====
-- kernel/core/signal.c: sending, delivering and handling signals; and process_exit of
-- kernel/core/process.c up to the loop in which the dead process gives up the CPU. A process is named
-- by its pid. A sigset_t is the set of its bits. A handler is its address. A signal number is not
-- negative: the code refuses a negative one as it refuses 0.
pub mod Send
pub mod Deliver
pub mod Kill
pub mod Stop
pub mod Tests
use thunderos.Prelude.{
  ℕ, zero, suc, ◌+◌, ◌-◌, ◌*◌, ◌^◌, Option, none, some, List, [], ◌∷◌, Bool, true, false, ◌==◌, leb,
  not, ◌&&◌, ◌||◌, if◌then◌else◌,
}
use thunderos.Prelude.First.{first_from}
use thunderos.Errno.{Reply, ok, err, einval, esrch}
use thunderos.Scheduler.{scheduler_dequeue}
use thunderos.Kernel.{
  Kernel, ProcState, unused, embryo, ready, running, sleeping, stopped, zombie, is_sleeping,
  is_stopped, set_state, process_wakeup,
}

abbrev pub nsig : ℕ
nsig = 32

abbrev pub sigkill : ℕ
sigkill = 9

abbrev pub sigchld : ℕ
sigchld = 17

abbrev pub sigcont : ℕ
sigcont = 18

abbrev pub sigstop : ℕ
sigstop = 19

abbrev pub sigtstp : ℕ
sigtstp = 20

abbrev pub sig_dfl : ℕ
sig_dfl = 0

abbrev pub sig_ign : ℕ
sig_ign = 1

abbrev pub wait_stopped_indicator : ℕ
wait_stopped_indicator = 0x7f

abbrev pub signal_exit_base : ℕ
signal_exit_base = 128

-- The fields of `struct process` that signals use, by process, beside the kernel's own.
pub record Signals : Type 0 where
  pub kernel : Kernel
  pub pending : ℕ → ℕ → Bool
  pub blocked : ℕ → ℕ → Bool
  pub handler : ℕ → ℕ → ℕ
  pub parent : ℕ → Option ℕ
  pub exit_code : ℕ → ℕ

-- The registers of a trap frame that a handler's start changes.
pub record TrapFrame : Type 0 where
  pub ra : ℕ
  pub sepc : ℕ
  pub a0 : ℕ

-- A value stored for one process, and a bit or a handler of one process.
abbrev pub store {ℓ} : {A : Type ℓ} → (ℕ → A) → ℕ → A → ℕ → A
store f p a q = if p == q then a else f q

abbrev pub store_at {ℓ} : {A : Type ℓ} → (ℕ → ℕ → A) → ℕ → ℕ → A → ℕ → ℕ → A
store_at f p n a q m = if p == q && n == m then a else f q m

pub signal_init_process : Signals → ℕ → Signals
signal_init_process s p = record s {
  pending = store s.pending p (λ _. false);
  blocked = store s.blocked p (λ _. false);
  handler = store s.handler p (λ n. if leb nsig n then s.handler p n else sig_dfl);
}

-- `signum <= 0 || signum >= NSIG`.
abbrev pub bad_signal : ℕ → Bool
bad_signal n = n == 0 || leb nsig n

abbrev pub is_gone : ProcState → Bool
is_gone unused = true
is_gone zombie = true
is_gone _ = false

abbrev pub wakeup : Signals → ℕ → Signals
wakeup s p = record s { kernel = process_wakeup s.kernel (some p) }

pub signal_default_cont : Signals → ℕ → Signals
signal_default_cont s p = if is_stopped (s.kernel.state p) then wakeup s p else s

pub signal_send : Signals → Option ℕ → ℕ → Reply × Signals
unfolding signal_default_cont
signal_send s none n = (err einval, s)
signal_send s (some p) n =
    if bad_signal n
    then (err einval, s)
    else if is_gone (s.kernel.state p)
    then (err esrch, s)
    else if n == sigcont && is_stopped (s.kernel.state p)
    then (ok 0, signal_default_cont s p)
    else let s' = record s { pending = store_at s.pending p n true } in
      if is_sleeping (s.kernel.state p) && not (n == sigcont)
      then (ok 0, wakeup s' p)
      else (ok 0, s')

pub signal_is_pending : Signals → ℕ → ℕ → Bool
signal_is_pending s p n = if bad_signal n then false else s.pending p n

-- `none` is SIG_ERR, with EINVAL.
pub signal_set_handler : Signals → ℕ → ℕ → ℕ → Option ℕ × Signals
signal_set_handler s p n h =
    if bad_signal n
    then (none, s)
    else if n == sigkill || n == sigstop
    then (none, s)
    else (some (s.handler p n), record s { handler = store_at s.handler p n h })

abbrev pub tell_parent : Signals → Option ℕ → Signals
tell_parent s none = s
tell_parent s (some q) = (signal_send s (some q) sigchld).1

-- The part of `process_exit` under `process_lock`.
abbrev pub become_zombie : Signals → ℕ → ℕ → Signals
become_zombie s p code = record s {
  kernel = record (s.kernel) {
    sched = scheduler_dequeue s.kernel.sched (some p);
    state = set_state s.kernel.state p zombie;
  };
  exit_code = store s.exit_code p code;
}

-- `process_exit` by the current process: from the last state on it only gives up the CPU. Without a
-- current process, or in process 0, the call halts the machine.
pub process_exit : Signals → ℕ → Signals
unfolding signal_send
process_exit s code = elim s.kernel.current [
  | none ↦ s
  | some p ↦ if p == 0 then s else tell_parent (become_zombie s p code) (s.parent p)
]

pub signal_default_term : Signals → ℕ → Signals
unfolding process_exit
signal_default_term s p = process_exit s signal_exit_base

-- The end of `signal_default_stop`: a parent that sleeps still is woken.
abbrev pub wake_parent : Signals → Option ℕ → Signals
wake_parent s none = s
wake_parent s (some q) = if is_sleeping (s.kernel.state q) then wakeup s q else s

-- Its start.
abbrev pub become_stopped : Signals → ℕ → Signals
become_stopped s p = record s {
  kernel = record (s.kernel) { state = set_state s.kernel.state p stopped };
  exit_code = store s.exit_code p (sigtstp * 256 + wait_stopped_indicator);
}

pub signal_default_stop : Signals → ℕ → Signals
unfolding signal_send
signal_default_stop s p = wake_parent (tell_parent (become_stopped s p) (s.parent p)) (s.parent p)

abbrev pub one_of : ℕ → List ℕ → Bool
one_of n [] = false
one_of n (m ∷ ms) = n == m || one_of n ms

-- The signals of the `case` lines of `signal_handle`.
abbrev pub terminating : List ℕ
terminating = 9 ∷ 15 ∷ 2 ∷ 3 ∷ 4 ∷ 6 ∷ 7 ∷ 8 ∷ 11 ∷ 13 ∷ 14 ∷ 1 ∷ 10 ∷ 12 ∷ []

abbrev pub stopping : List ℕ
stopping = 19 ∷ 20 ∷ 21 ∷ 22 ∷ []

-- `signal_default_action`, which nothing calls: `default_action` below is what delivery does.
pub signal_default_action : ℕ → ℕ
signal_default_action n = if one_of n (10 ∷ 12 ∷ 18 ∷ 17 ∷ []) then sig_ign else sig_dfl

-- The `switch` of `signal_handle_with_frame`, which `signal_handle` repeats.
pub default_action : Signals → ℕ → ℕ → Signals
unfolding signal_default_term signal_default_stop signal_default_cont
default_action s p n =
    if one_of n terminating
    then signal_default_term s p
    else if one_of n stopping
    then signal_default_stop s p
    else if n == sigcont
    then signal_default_cont s p
    else s

pub signal_handle : Signals → ℕ → ℕ → Signals
unfolding default_action
signal_handle s p n =
    if bad_signal n then s else if s.handler p n == sig_dfl then default_action s p n else s

-- The trap frame of a process that is to run a handler.
abbrev pub enter_handler : TrapFrame → ℕ → ℕ → TrapFrame
enter_handler f h n = record { ra = f.sepc; sepc = h; a0 = n }

pub signal_handle_with_frame : Signals → ℕ → ℕ → Option TrapFrame → Signals × Option TrapFrame
unfolding default_action
signal_handle_with_frame s p n frame =
    if bad_signal n
    then (s, frame)
    else if s.handler p n == sig_dfl
    then (default_action s p n, frame)
    else if s.handler p n == sig_ign
    then (s, frame)
    else (s, elim frame [ none ↦ none | some f ↦ some (enter_handler f (s.handler p n) n) ])

-- `pending_signals & ~blocked_signals`.
abbrev pub deliverable : Signals → ℕ → ℕ → Bool
deliverable s p n = s.pending p n && not (s.blocked p n)

-- `signal_deliver_with_frame`; its early return on an empty set is the loop that finds nothing.
pub signal_deliver_with_frame : Signals → ℕ → TrapFrame → Signals × Option TrapFrame
unfolding first_from signal_handle_with_frame
signal_deliver_with_frame s p frame = elim (first_from (deliverable s p) (nsig - 1) 1) [
  | none ↦ (s, some frame)
  | some n ↦
      signal_handle_with_frame (record s { pending = store_at s.pending p n false }) p n
        (some frame)
]

-- `signal_deliver`, with the process's own trap frame, which may be NULL.
pub signal_deliver : Signals → ℕ → Option TrapFrame → Signals × Option TrapFrame
unfolding first_from signal_handle_with_frame
signal_deliver s p frame = elim (first_from (deliverable s p) (nsig - 1) 1) [
  | none ↦ (s, frame)
  | some n ↦
      signal_handle_with_frame (record s { pending = store_at s.pending p n false }) p n frame
]
