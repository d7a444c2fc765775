-- ===== src/Signal/Deliver.antt =====
-- Which signal `signal_deliver_with_frame` of kernel/core/signal.c delivers, and how.
use thunderos.Prelude.{
  ℕ, ◌-◌, ◌≤◌, ◌<◌, ◌≡◌, ◌≢◌, refl, Option, some, true, false, ◌==◌, Bool-cases, inl, inr, arith,
}
use thunderos.Prelude.First.{missing, found, first_from-Found}
use thunderos.Signal.{
  Signals, TrapFrame, signal_deliver_with_frame, signal_handle_with_frame, default_action,
  deliverable, store_at, nsig, sig_dfl, sig_ign, bad_signal,
}

-- A number that can be delivered, with none below it that can.
pub record IsLowest (s : Signals) (p n : ℕ) : Type 0 where
  pub positive : 1 ≤ n
  pub in_range : n < nsig
  pub is_deliverable : deliverable s p n ≡ true
  pub none_below : (j : ℕ) → 1 ≤ j → j < n → deliverable s p j ≡ false

-- A state with one signal no longer pending.
abbrev pub taken : Signals → ℕ → ℕ → Signals
taken s p n = record s { pending = store_at s.pending p n false }

-- The four ways in which delivery ends.
pub data Delivered (s : Signals) (p : ℕ) (frame : TrapFrame) (r : Signals × Option TrapFrame)
    : Type 0 where
  nothing :
      ((n : ℕ) → 1 ≤ n → n < nsig → deliverable s p n ≡ false)
      → r ≡ (s, some frame)
      → Delivered s p frame r
  by_default :
      (n : ℕ)
      → IsLowest s p n
      → s.handler p n ≡ sig_dfl
      → r ≡ (default_action (taken s p n) p n, some frame)
      → Delivered s p frame r
  ignored :
      (n : ℕ)
      → IsLowest s p n
      → s.handler p n ≡ sig_ign
      → r ≡ (taken s p n, some frame)
      → Delivered s p frame r
  caught :
      (n : ℕ)
      → IsLowest s p n
      → s.handler p n ≢ sig_dfl
      → s.handler p n ≢ sig_ign
      → r ≡ (taken s p n, some (record { ra = frame.sepc; sepc = s.handler p n; a0 = n }))
      → Delivered s p frame r

module _ (s : Signals) (p n : ℕ) (frame : TrapFrame) where
  handle-default :
      bad_signal n ≡ false
      → s.handler p n ≡ sig_dfl
      → signal_handle_with_frame s p n (some frame) ≡ (default_action s p n, some frame)
  unfolding signal_handle_with_frame
  handle-default h d = rw (h, d) refl

  handle-ignored :
      bad_signal n ≡ false
      → s.handler p n ≡ sig_ign
      → signal_handle_with_frame s p n (some frame) ≡ (s, some frame)
  unfolding signal_handle_with_frame
  handle-ignored h d = rw (h, d) refl

  handle-caught :
      bad_signal n ≡ false
      → s.handler p n == sig_dfl ≡ false
      → s.handler p n == sig_ign ≡ false
      → signal_handle_with_frame s p n (some frame)
        ≡ (s, some (record { ra = frame.sepc; sepc = s.handler p n; a0 = n }))
  unfolding signal_handle_with_frame
  handle-caught h d i = rw (h, d, i) refl

module _ (s : Signals) (p : ℕ) (frame : TrapFrame) where
  handled :
      (n : ℕ)
      → IsLowest s p n
      → Delivered s p frame (signal_handle_with_frame (taken s p n) p n (some frame))
  handled n l =
      let good : bad_signal n ≡ false = ground (arith, l.positive, l.in_range) in
      elim (Bool-cases (s.handler p n == sig_dfl)) [
        | inl d ↦
            let e : s.handler p n ≡ sig_dfl = ground arith in
            by_default n l e (handle-default (taken s p n) p n frame good e)
        | inr d ↦ elim (Bool-cases (s.handler p n == sig_ign)) [
          | inl i ↦
              let e : s.handler p n ≡ sig_ign = ground arith in
              ignored n l e (handle-ignored (taken s p n) p n frame good e)
          | inr i ↦
              caught n l (ground arith) (ground arith)
                (handle-caught (taken s p n) p n frame good d i)
        ]
      ]

  -- `signal_deliver_with_frame` changes nothing when no signal from 1 to 31 is pending and not
  -- blocked. Otherwise it takes the lowest such signal out of the pending set and, by its handler,
  -- runs the default action, ignores it, or sends the frame to the handler, with the number as its
  -- argument and the interrupted instruction as the return address.
  pub signal_deliver_with_frame-Delivered :
      Delivered s p frame (signal_deliver_with_frame s p frame)
  unfolding signal_deliver_with_frame
  signal_deliver_with_frame-Delivered = elim (first_from-Found (deliverable s p) (nsig - 1) 1) [
    | missing f e ↦ rw (e, signal_deliver_with_frame) (nothing (λ n a b. f n a (omega arith)) refl)
    | found m le lt t f e ↦
        rw (e, signal_deliver_with_frame)
          (handled m
            (record { positive = le; in_range = omega arith; is_deliverable = t; none_below = f }))
  ]
