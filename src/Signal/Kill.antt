-- ===== src/Signal/Kill.antt =====
-- SIGKILL in kernel/core/signal.c: no handler can be set for it, and its delivery ends the process.
use thunderos.Prelude.{
  ℕ, ◌≡◌, ◌≢◌, refl, ap, ◌∙◌, Option, none, some, List, [], ◌∷◌, true, false, ◌==◌, arith,
  ℕ_discrete,
}
use thunderos.Kernel.{running, zombie, process_wakeup}
use thunderos.Signal.Deliver.{
  nothing, by_default, ignored, caught, IsLowest, taken, signal_deliver_with_frame-Delivered,
}
use thunderos.Signal.{
  Signals, TrapFrame, signal_init_process, signal_set_handler, signal_send,
  signal_deliver_with_frame, default_action, signal_default_term, process_exit, sigkill,
  signal_exit_base, store_at, tell_parent, sigchld, become_zombie, sig_dfl,
}

-- A sequence of calls of signal_set_handler for one process, each a number and a handler.
unfoldable pub set_handlers : Signals → ℕ → List (ℕ × ℕ) → Signals
set_handlers s p [] = s
set_handlers s p ((n, h) ∷ calls) = set_handlers (signal_set_handler s p n h).1 p calls

-- What no call of signal_set_handler changes.
record Kept (s s' : Signals) (p : ℕ) : Type 0 where
  kept_kernel : s'.kernel ≡ s.kernel
  kept_pending : s'.pending ≡ s.pending
  kept_blocked : s'.blocked ≡ s.blocked
  kept_parent : s'.parent ≡ s.parent
  kept_kill : s'.handler p sigkill ≡ s.handler p sigkill

signal_set_handler-Kept : (s : Signals) (p n h : ℕ) → Kept s (signal_set_handler s p n h).1 p
unfolding signal_set_handler
signal_set_handler-Kept s p n h = record {
  kept_kernel = ground arith;
  kept_pending = ground arith;
  kept_blocked = ground arith;
  kept_parent = ground arith;
  kept_kill = ground arith;
}

set_handlers-Kept : (s : Signals) (p : ℕ) (calls : List (ℕ × ℕ)) → Kept s (set_handlers s p calls) p
unfolding set_handlers
set_handlers-Kept s p [] = record {
  kept_kernel = refl;
  kept_pending = refl;
  kept_blocked = refl;
  kept_parent = refl;
  kept_kill = refl;
}
set_handlers-Kept s p ((n, h) ∷ calls) =
    let a = signal_set_handler-Kept s p n h in
    let b = set_handlers-Kept (signal_set_handler s p n h).1 p calls in
    record {
      kept_kernel = b.kept_kernel ∙ a.kept_kernel;
      kept_pending = b.kept_pending ∙ a.kept_pending;
      kept_blocked = b.kept_blocked ∙ a.kept_blocked;
      kept_parent = b.kept_parent ∙ a.kept_parent;
      kept_kill = b.kept_kill ∙ a.kept_kill;
    }

-- What the notice to the parent leaves of a zombie.
record Dead (s s' : Signals) (p : ℕ) : Type 0 where
  dead_state : s'.kernel.state p ≡ zombie
  dead_code : s'.exit_code ≡ s.exit_code
  dead_pending : s'.pending p sigkill ≡ s.pending p sigkill

signal_send-Dead :
    (s : Signals) (p q n : ℕ)
    → s.kernel.state p ≡ zombie
    → (n == sigkill) ≡ false
    → Dead s (signal_send s (some q) n).1 p
unfolding signal_send process_wakeup
signal_send-Dead s p q n z ne = record {
  dead_state = ground arith;
  dead_code = ground arith;
  dead_pending = ground arith;
}

tell_parent-Dead :
    (s : Signals) (p : ℕ) (q : Option ℕ) → s.kernel.state p ≡ zombie → Dead s (tell_parent s q) p
tell_parent-Dead s p none z = record { dead_state = z; dead_code = refl; dead_pending = refl }
tell_parent-Dead s p (some q) z = signal_send-Dead s p q sigchld z refl

-- The end of process_exit for a process other than 0.
process_exit-zombie :
    (s : Signals) (p code : ℕ)
    → s.kernel.current ≡ some p
    → p ≢ 0
    → ((process_exit s code).kernel.state p ≡ zombie)
      × ((process_exit s code).exit_code p ≡ code)
      × ((process_exit s code).pending p sigkill ≡ s.pending p sigkill)
unfolding process_exit
process_exit-zombie s p code c nz =
    let z : p == 0 ≡ false = ground arith in
    let d = tell_parent-Dead (become_zombie s p code) p (s.parent p) (ground arith) in
    rw (c, z, process_exit) (d.dead_state, ap (λ f. f p) d.dead_code ∙ ground arith, d.dead_pending)

-- Only SIGKILL is pending, and its handler is the default one.
record Doomed (s : Signals) (p : ℕ) : Type 0 where
  kill_pending : s.pending p sigkill ≡ true
  others_not : (n : ℕ) → n ≢ sigkill → s.pending p n ≡ false
  not_blocked : s.blocked p sigkill ≡ false
  kill_default : s.handler p sigkill ≡ sig_dfl
  is_current : s.kernel.current ≡ some p

signal_init_process-sets :
    (s : Signals) (p : ℕ)
    → let t = signal_init_process s p in
      (t.kernel ≡ s.kernel)
      × ((n : ℕ) → t.pending p n ≡ false)
      × ((n : ℕ) → t.blocked p n ≡ false)
      × (t.handler p sigkill ≡ sig_dfl)
unfolding signal_init_process
signal_init_process-sets s p = (refl, λ n. ground arith, λ n. ground arith, ground arith)

signal_send-sigkill :
    (s : Signals) (p : ℕ)
    → s.kernel.state p ≡ running
    → (signal_send s (some p) sigkill).1 ≡ record s { pending = store_at s.pending p sigkill true }
unfolding signal_send
signal_send-sigkill s p r = rw r refl

signal_init_process-Doomed :
    (s : Signals) (p : ℕ) (calls : List (ℕ × ℕ))
    → s.kernel.current ≡ some p
    → s.kernel.state p ≡ running
    → Doomed (signal_send (set_handlers (signal_init_process s p) p calls) (some p) sigkill).1 p
signal_init_process-Doomed s p calls c r =
    let (ek, ep, eb, eh) = signal_init_process-sets s p in
    let t = set_handlers (signal_init_process s p) p calls in
    let kept = set_handlers-Kept (signal_init_process s p) p calls in
    let k = kept.kept_kernel ∙ ek in
    rw (signal_send-sigkill t p (ap (λ x. x.state p) k ∙ r)) (record {
      kill_pending = ground arith;
      others_not = λ n ne. ground (arith, ap (λ f. f p n) kept.kept_pending, ep n);
      not_blocked = ap (λ f. f p sigkill) kept.kept_blocked ∙ eb sigkill;
      kill_default = kept.kept_kill ∙ eh;
      is_current = ap (λ x. x.current) k ∙ c;
    })

Doomed-IsLowest : (s : Signals) (p n : ℕ) → Doomed s p → IsLowest s p n → n ≡ sigkill
Doomed-IsLowest s p n d l = elim (ℕ_discrete n sigkill) [
  | yes e ↦ e
  | no ne ↦ ground (arith, d.others_not n ne, l.is_deliverable)
]

default_action-sigkill :
    (s : Signals) (p : ℕ) → default_action s p sigkill ≡ process_exit s signal_exit_base
unfolding default_action signal_default_term
default_action-sigkill s p = refl

Doomed-killed :
    (s : Signals) (p : ℕ) (frame : TrapFrame)
    → Doomed s p
    → p ≢ 0
    → let t = (signal_deliver_with_frame s p frame).0 in
      (t.kernel.state p ≡ zombie)
      × (t.exit_code p ≡ signal_exit_base)
      × (t.pending p sigkill ≡ false)
Doomed-killed s p frame d nz = elim (signal_deliver_with_frame-Delivered s p frame) [
  | nothing f e ↦
      ground (arith, f sigkill (omega arith) (omega arith), d.kill_pending, d.not_blocked)
  | by_default n l h e ↦
      let (zs, zc, zp) =
        process_exit-zombie (taken s p sigkill) p signal_exit_base d.is_current nz in
      rw (e, Doomed-IsLowest s p n d l, default_action-sigkill (taken s p sigkill) p)
        (zs, zc, zp ∙ ground arith)
  | ignored n l h e ↦ ground (arith, Doomed-IsLowest s p n d l, h, d.kill_default)
  | caught n l h i e ↦ ground (arith, Doomed-IsLowest s p n d l, h, d.kill_default)
]

-- SIGKILL kills: whatever handlers a new process sets with signal_set_handler, once SIGKILL is sent
-- to it and delivered, while it runs as the current process and is not process 0, it is a zombie
-- with the exit code for signals, and SIGKILL is no longer pending.
pub sigkill_kills :
    (s : Signals) (p : ℕ) (calls : List (ℕ × ℕ)) (frame : TrapFrame)
    → s.kernel.current ≡ some p
    → s.kernel.state p ≡ running
    → p ≢ 0
    → let t =
        signal_deliver_with_frame
          (signal_send (set_handlers (signal_init_process s p) p calls) (some p) sigkill).1
          p
          frame in
      (t.0.kernel.state p ≡ zombie)
      × (t.0.exit_code p ≡ signal_exit_base)
      × (t.0.pending p sigkill ≡ false)
sigkill_kills s p calls frame c r nz =
    Doomed-killed _ p frame (signal_init_process-Doomed s p calls c r) nz
