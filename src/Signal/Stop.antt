-- ===== src/Signal/Stop.antt =====
-- The stop signals of kernel/core/signal.c and SIGCONT after them.
use thunderos.Prelude.{
  ℕ, ◌+◌, ◌*◌, ◌≡◌, ◌≢◌, refl, ap, ◌∙◌, some, true, false, ◌==◌, not, ◌&&◌, arith, if◌then◌else◌,
  inr,
}
use thunderos.Errno.{ok}
use thunderos.Kernel.{ProcState, ready, stopped, is_sleeping}
use thunderos.Scheduler.Invariant.{IsValid}
use thunderos.Signal.{
  Signals, become_stopped, signal_send, signal_default_stop, default_action, one_of, stopping,
  terminating, sigchld, sigcont, sigtstp, wait_stopped_indicator, is_gone, tell_parent, bad_signal,
}
use thunderos.Signal.Send.{
  invalid, gone, continued, woke, posted, signal_send-Sent, Readied, wakeup-Readied,
  signal_send-continued,
}

-- What sending a signal other than SIGCONT to a process that is not gone leaves.
record Told (s s' : Signals) (q n : ℕ) : Type 0 where
  told_pending : s'.pending q n ≡ true
  told_state :
      s'.kernel.state q ≡ (if is_sleeping (s.kernel.state q) then ready else s.kernel.state q)
  told_others : (p : ℕ) → p ≢ q → s'.kernel.state p ≡ s.kernel.state p
  told_code : s'.exit_code ≡ s.exit_code
  told_valid : IsValid s'.kernel.sched

awake :
    (st : ProcState) (n : ℕ)
    → n ≢ sigcont
    → is_sleeping st && not (n == sigcont) ≡ false
    → is_sleeping st ≡ false
awake st n ne h = ground arith

stopping_not_terminating : (n : ℕ) → one_of n stopping ≡ true → one_of n terminating ≡ false
stopping_not_terminating n h = ground arith

not_sleeping :
    (st st' : ProcState) → st' ≡ (if is_sleeping st then ready else st) → is_sleeping st' ≡ false
not_sleeping st st' h = ground arith

signal_send-Told :
    (s : Signals) (q n : ℕ)
    → IsValid s.kernel.sched
    → bad_signal n ≡ false
    → n ≢ sigcont
    → is_gone (s.kernel.state q) ≡ false
    → Told s (signal_send s (some q) n).1 q n
signal_send-Told s q n v b ne g = elim (signal_send-Sent s q n v) [
  | invalid h e ↦ ground arith
  | gone b' h e ↦ ground arith
  | continued h st r p k o ↦ ground arith
  | woke h st r p k o ↦ record {
    told_pending = p.now_pending;
    told_state = rw st (k.new_state);
    told_others = k.other_states;
    told_code = o.same_exit_code;
    told_valid = k.valid;
  }
  | posted b' g' c a r p k o ↦ record {
    told_pending = p.now_pending;
    told_state = rw (k, awake (s.kernel.state q) n ne a) refl;
    told_others = λ p ne. rw k refl;
    told_code = o.same_exit_code;
    told_valid = rw k v;
  }
]

module _ (s : Signals) (p q n : ℕ) (v : IsValid s.kernel.sched) (e : s.parent p ≡ some q)
    (ne : p ≢ q) (alive : is_gone (s.kernel.state q) ≡ false)
    (stop : one_of n stopping ≡ true) where
  -- The state that the parent has been told of.
  told : Told (become_stopped s p) (tell_parent (become_stopped s p) (some q)) q sigchld
  told = signal_send-Told (become_stopped s p) q sigchld v refl (omega arith) (ground arith)

  default_action_stop : default_action s p n ≡ tell_parent (become_stopped s p) (some q)
  unfolding default_action signal_default_stop
  default_action_stop =
      rw
        (
          stopping_not_terminating n stop,
          stop,
          e,
          not_sleeping (s.kernel.state q) _ (told.told_state ∙ ground arith),
        )
        refl

  -- A stop signal that is handled by default, in a process whose parent is another process that is
  -- not gone, with a valid ready queue: the process is stopped with the wait status of SIGTSTP, and
  -- SIGCHLD is pending for the parent, which is made ready if it slept. SIGCONT then succeeds, makes
  -- the stopped process ready, appends it to the ready queue unless 64 wait there, and is not left
  -- pending.
  pub stop_continue :
      let t = default_action s p n in
      let (reply, u) = signal_send t (some p) sigcont in
      (t.kernel.state p ≡ stopped)
      × (t.exit_code p ≡ sigtstp * 256 + wait_stopped_indicator)
      × (t.pending q sigchld ≡ true)
      × (t.kernel.state q ≡ (if is_sleeping (s.kernel.state q) then ready else s.kernel.state q))
      × (reply ≡ ok 0)
      × Readied t.kernel p u.kernel
      × (u.pending ≡ t.pending)
  stop_continue =
      let (accepted, readied, same) = resumed in
      rw default_action_stop (
        at_p,
        ap (λ f. f p) told.told_code ∙ ground arith,
        told.told_pending,
        told.told_state ∙ ground arith,
        accepted,
        readied,
        same,
      )
    where
      t : Signals
      t = tell_parent (become_stopped s p) (some q)

      at_p : t.kernel.state p ≡ stopped
      at_p = told.told_others p ne ∙ ground arith

      resumed :
          let (reply, u) = signal_send t (some p) sigcont in
          (reply ≡ ok 0) × Readied t.kernel p u.kernel × (u.pending ≡ t.pending)
      resumed =
          rw (signal_send-continued t p sigcont refl refl at_p)
            (refl, wakeup-Readied t.kernel p told.told_valid (inr at_p), refl)
