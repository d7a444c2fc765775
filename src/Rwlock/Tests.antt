-- ===== src/Rwlock/Tests.antt =====
-- The theorems on reader-writer locks at two processes, one of which writes.
use thunderos.Prelude.{ℕ, ◌≡◌, refl, false, arith}
use thunderos.Kernel.{Kernel, running}
use thunderos.Kernel.Tests.{machine}
use thunderos.Rwlock.{rwlock_init, announce_write, enter_write}
use thunderos.Rwlock.System.{
  Pc, outside, want_write, writing, is_reading, is_writing, System, move, call_write,
  enter_exclusive, step, Reach, here, later,
}
use thunderos.Rwlock.Invariant.{IsCounted, rwlock_counts}
use thunderos.Rwlock.Exclusion.{rwlock_exclusion}

abbrev one : Kernel
one = machine running

abbrev pcs : ℕ → Pc
pcs = move (move (λ _. outside) 1 want_write) 1 writing

abbrev written : System
written = record { rw = enter_write (announce_write rwlock_init); kernel = one; pc = pcs }

written-Reach : Reach 3 one written
unfolding rwlock_init
written-Reach =
    later (later here (step 1 (omega arith) refl call_write))
      (step 1 (omega arith) refl (enter_exclusive refl))

rwlock_counts_example : IsCounted 3 written
rwlock_counts_example = rwlock_counts (omega arith) written-Reach

rwlock_exclusion_example : (is_writing (pcs 2) ≡ false) × (is_reading (pcs 2) ≡ false)
rwlock_exclusion_example =
    rwlock_exclusion (omega arith) written-Reach 1 2 (omega arith) (omega arith) refl (omega arith)
