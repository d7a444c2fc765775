-- ===== src/Signal/Tests.antt =====
-- The theorems on signals at a machine with processes 0 to 8, of which process 1 runs and process 5,
-- its parent, sleeps.
use thunderos.Prelude.{
  ℕ, ◌+◌, ◌*◌, ◌≡◌, refl, none, some, List, [], ◌∷◌, true, false, ◌==◌, ◌&&◌, ◌||◌, if◌then◌else◌,
  arith,
}
use thunderos.Errno.{ok}
use thunderos.Kernel.{running, ready, stopped, zombie, is_sleeping}
use thunderos.Kernel.Tests.{machine-IsValid}
use thunderos.WaitQueue.Tests.{two_asleep}
use thunderos.Signal.{
  Signals, TrapFrame, signal_init_process, signal_send, signal_deliver_with_frame, default_action,
  sigkill, sigcont, sigchld, sigtstp, signal_exit_base, wait_stopped_indicator,
}
use thunderos.Signal.Send.{Sent, Readied, signal_send-Sent}
use thunderos.Signal.Deliver.{Delivered, signal_deliver_with_frame-Delivered}
use thunderos.Signal.Kill.{set_handlers, sigkill_kills}
use thunderos.Signal.Stop.{stop_continue}

-- Process 1 has signals 10 and 15 pending, 10 is blocked, and its handler of 15 is at 4096.
abbrev shell : Signals
shell = record {
  kernel = two_asleep;
  pending = λ p n. p == 1 && (n == 10 || n == 15);
  blocked = λ p n. p == 1 && n == 10;
  handler = λ p n. if p == 1 && n == 15 then 4096 else 0;
  parent = λ p. if p == 1 then some 5 else none;
  exit_code = λ p. 0;
}

abbrev frame : TrapFrame
frame = record { ra = 100; sepc = 200; a0 = 7 }

delivers_15 :
    (signal_deliver_with_frame shell 1 frame).1 ≡ some (record { ra = 200; sepc = 4096; a0 = 15 })
unfolding signal_deliver_with_frame
delivers_15 = refl

signal_send-Sent_example : Sent shell 5 sigchld (signal_send shell (some 5) sigchld)
signal_send-Sent_example = signal_send-Sent shell 5 sigchld (machine-IsValid running)

signal_deliver_with_frame-Delivered_example :
    Delivered shell 1 frame (signal_deliver_with_frame shell 1 frame)
signal_deliver_with_frame-Delivered_example = signal_deliver_with_frame-Delivered shell 1 frame

-- A process that tries to catch SIGKILL and catches signal 15.
abbrev calls : List (ℕ × ℕ)
calls = (9, 4096) ∷ (15, 8192) ∷ []

sigkill_kills_example :
    let t =
      signal_deliver_with_frame
        (signal_send (set_handlers (signal_init_process shell 1) 1 calls) (some 1) sigkill).1
        1
        frame in
    (t.0.kernel.state 1 ≡ zombie)
    × (t.0.exit_code 1 ≡ signal_exit_base)
    × (t.0.pending 1 sigkill ≡ false)
sigkill_kills_example = sigkill_kills shell 1 calls frame refl refl (omega arith)

stop_continue_example :
    let t = default_action shell 1 sigtstp in
    let (reply, u) = signal_send t (some 1) sigcont in
    (t.kernel.state 1 ≡ stopped)
    × (t.exit_code 1 ≡ sigtstp * 256 + wait_stopped_indicator)
    × (t.pending 5 sigchld ≡ true)
    × (t.kernel.state 5
        ≡ (if is_sleeping (shell.kernel.state 5) then ready else shell.kernel.state 5))
    × (reply ≡ ok 0)
    × Readied t.kernel 1 u.kernel
    × (u.pending ≡ t.pending)
stop_continue_example =
    stop_continue shell 1 5 sigtstp (machine-IsValid running) refl (omega arith) refl refl
