-- ===== src/Signal/Send.antt =====
-- What `signal_send` of kernel/core/signal.c does to the target and to everything else.
use thunderos.Prelude.{
  ℕ, ◌≡◌, ◌≢◌, refl, ◌⊎◌, inl, inr, some, Bool, true, false, ◌==◌, ◌&&◌, not, arith, Bool-cases,
}
use thunderos.Errno.{Reply, ok, err, einval, esrch}
use thunderos.Scheduler.Fifo
use thunderos.Scheduler.Invariant.{IsValid, contents, scheduler_enqueue-IsValid}
use thunderos.Scheduler.Refine.{scheduler_enqueue_refines}
use thunderos.Kernel.{
  Kernel, ProcState, ready, sleeping, stopped, is_sleeping, is_stopped, make_ready, process_wakeup,
}
use thunderos.Signal.{
  Signals, signal_send, sigcont, bad_signal, is_gone, wakeup, store_at, signal_default_cont,
}

-- A process made ready: it joins the ready queue, and nothing else of the kernel changes.
pub record Readied (k : Kernel) (p : ℕ) (k' : Kernel) : Type 0 where
  pub new_state : k'.state p ≡ ready
  pub other_states : (q : ℕ) → q ≢ p → k'.state q ≡ k.state q
  pub same_current : k'.current ≡ k.current
  pub valid : IsValid k'.sched
  pub queued : contents k'.sched ≡ Fifo.enqueue (contents k.sched) p

-- The set of pending signals with one more.
pub record Posted (s : Signals) (p n : ℕ) (s' : Signals) : Type 0 where
  pub now_pending : s'.pending p n ≡ true
  pub others_pending : (q m : ℕ) → (q == p) && (m == n) ≡ false → s'.pending q m ≡ s.pending q m

-- All that signals keep beside the kernel and the pending sets.
pub record SameRest (s s' : Signals) : Type 0 where
  pub same_blocked : s'.blocked ≡ s.blocked
  pub same_handler : s'.handler ≡ s.handler
  pub same_parent : s'.parent ≡ s.parent
  pub same_exit_code : s'.exit_code ≡ s.exit_code

-- The five ways in which sending ends.
pub data Sent (s : Signals) (p n : ℕ) (r : Reply × Signals) : Type 0 where
  invalid : bad_signal n ≡ true → r ≡ (err einval, s) → Sent s p n r
  gone :
      bad_signal n ≡ false → is_gone (s.kernel.state p) ≡ true → r ≡ (err esrch, s) → Sent s p n r
  continued :
      n ≡ sigcont
      → s.kernel.state p ≡ stopped
      → r.0 ≡ ok 0
      → r.1.pending ≡ s.pending
      → Readied s.kernel p r.1.kernel
      → SameRest s r.1
      → Sent s p n r
  woke :
      n ≢ sigcont
      → s.kernel.state p ≡ sleeping
      → r.0 ≡ ok 0
      → Posted s p n r.1
      → Readied s.kernel p r.1.kernel
      → SameRest s r.1
      → Sent s p n r
  posted :
      bad_signal n ≡ false
      → is_gone (s.kernel.state p) ≡ false
      → (n == sigcont) && is_stopped (s.kernel.state p) ≡ false
      → is_sleeping (s.kernel.state p) && not (n == sigcont) ≡ false
      → r.0 ≡ ok 0
      → Posted s p n r.1
      → r.1.kernel ≡ s.kernel
      → SameRest s r.1
      → Sent s p n r

make_ready-Readied : (k : Kernel) (p : ℕ) → IsValid k.sched → Readied k p (make_ready k p)
make_ready-Readied k p v = record {
  new_state = ground arith;
  other_states = λ q ne. ground arith;
  same_current = refl;
  valid = scheduler_enqueue-IsValid k.sched (some p) v;
  queued = scheduler_enqueue_refines k.sched p v;
}

pub wakeup-Readied :
    (k : Kernel) (p : ℕ)
    → IsValid k.sched
    → (k.state p ≡ sleeping) ⊎ (k.state p ≡ stopped)
    → Readied k p (process_wakeup k (some p))
unfolding process_wakeup
wakeup-Readied k p v (inl e) = rw e (make_ready-Readied k p v)
wakeup-Readied k p v (inr e) = rw e (make_ready-Readied k p v)

store_at-Posted :
    (s : Signals) (p n : ℕ) (k : Kernel)
    → Posted s p n (record s { kernel = k; pending = store_at s.pending p n true })
store_at-Posted s p n k = record {
  now_pending = ground arith;
  others_pending = λ q m h. ground arith;
}

-- A state that is known by its test.
is_sleeping_lem : (st : ProcState) → is_sleeping st ≡ true → st ≡ sleeping
is_sleeping_lem st h = ground arith

is_stopped_lem : (st : ProcState) → is_stopped st ≡ true → st ≡ stopped
is_stopped_lem st h = ground arith

same :
    {s : Signals} {k : Kernel} {f : ℕ → ℕ → Bool}
    → SameRest s (record s { kernel = k; pending = f })
same = record {
  same_blocked = refl;
  same_handler = refl;
  same_parent = refl;
  same_exit_code = refl;
}

module _ (s : Signals) (p n : ℕ) where
  signal_send-invalid : bad_signal n ≡ true → signal_send s (some p) n ≡ (err einval, s)
  unfolding signal_send
  signal_send-invalid h = rw h refl

  signal_send-gone :
      bad_signal n ≡ false
      → is_gone (s.kernel.state p) ≡ true
      → signal_send s (some p) n ≡ (err esrch, s)
  unfolding signal_send
  signal_send-gone h g = rw (h, g) refl

  pub signal_send-continued :
      bad_signal n ≡ false
      → n ≡ sigcont
      → s.kernel.state p ≡ stopped
      → signal_send s (some p) n ≡ (ok 0, wakeup s p)
  unfolding signal_send signal_default_cont
  signal_send-continued h c g = rw (c, g) refl

  signal_send-woke :
      bad_signal n ≡ false
      → n == sigcont ≡ false
      → s.kernel.state p ≡ sleeping
      → signal_send s (some p) n
        ≡ (ok 0, wakeup (record s { pending = store_at s.pending p n true }) p)
  unfolding signal_send
  signal_send-woke h c g = rw (h, c, g) refl

  signal_send-posted :
      bad_signal n ≡ false
      → is_gone (s.kernel.state p) ≡ false
      → (n == sigcont) && is_stopped (s.kernel.state p) ≡ false
      → is_sleeping (s.kernel.state p) && not (n == sigcont) ≡ false
      → signal_send s (some p) n ≡ (ok 0, record s { pending = store_at s.pending p n true })
  unfolding signal_send
  signal_send-posted h g c a = rw (h, g, c, a) refl

  -- A process that can be told of a good signal.
  sent :
      IsValid s.kernel.sched
      → bad_signal n ≡ false
      → is_gone (s.kernel.state p) ≡ false
      → Sent s p n (signal_send s (some p) n)
  sent v h g = elim (Bool-cases ((n == sigcont) && is_stopped (s.kernel.state p))) [
    | inl c ↦
        let nc : n ≡ sigcont = ground arith in
        let st = is_stopped_lem (s.kernel.state p) (ground arith) in
        rw (signal_send-continued h nc st)
          (continued nc st refl refl (wakeup-Readied s.kernel p v (inr st)) same)
    | inr c ↦ elim (Bool-cases (is_sleeping (s.kernel.state p) && not (n == sigcont))) [
      | inl a ↦
          let st = is_sleeping_lem (s.kernel.state p) (ground arith) in
          rw (signal_send-woke h (ground arith) st) (
            woke (ground arith) st refl (store_at-Posted s p n (process_wakeup s.kernel (some p)))
              (wakeup-Readied s.kernel p v (inl st)) same)
      | inr a ↦
          rw (signal_send-posted h g c a)
            (posted h g c a refl (store_at-Posted s p n s.kernel) refl same)
    ]
  ]

  -- Every way in which `signal_send` ends, with a valid ready queue. A bad number fails with EINVAL,
  -- a process that is gone with ESRCH, and both change nothing. SIGCONT to a stopped process makes it
  -- ready and is not left pending. Any other signal is made pending, and no other one, and makes the
  -- process ready if it sleeps and the signal is not SIGCONT. A process that is made ready is appended
  -- to the ready queue unless 64 wait there.
  pub signal_send-Sent : IsValid s.kernel.sched → Sent s p n (signal_send s (some p) n)
  signal_send-Sent v = elim (Bool-cases (bad_signal n)) [
    | inl h ↦ invalid h (signal_send-invalid h)
    | inr h ↦ elim (Bool-cases (is_gone (s.kernel.state p))) [
      | inl g ↦ gone h g (signal_send-gone h g)
      | inr g ↦ sent v h g
    ]
  ]
