-- ===== src/Rwlock/Exclusion.antt =====
-- What a reader-writer lock promises: while one process writes, no other writes or reads.
use thunderos.Prelude.{
  ℕ, ◌+◌, ◌^◌, ◌≤◌, ◌<◌, ◌≡◌, ◌≢◌, ap, Bool, true, false, Bool-cases, inl, inr, arith,
}
use thunderos.Prelude.Counts.{one_if, how_many-pos, how_many_unique}
use thunderos.Kernel.{Kernel}
use thunderos.Rwlock.System.{is_reading, is_writing, System, Reach}
use thunderos.Rwlock.Invariant.{IsCounted, rwlock_counts}

at_most_one : (b : Bool) {m : ℕ} → one_if b ≡ m → m ≤ 1
at_most_one true e = omega arith
at_most_one false e = omega arith

-- In every state that fewer than 2^31 - 1 processes can reach, in any interleaving: while one of them
-- is in a write section, no other is in a write section and none is in a read section.
pub rwlock_exclusion :
    {n : ℕ} {k : Kernel} {s : System}
    → n + 1 < 2 ^ 31
    → Reach n k s
    → (i j : ℕ) → i < n
    → j < n
    → is_writing (s.pc i) ≡ true
    → i ≢ j
    → (is_writing (s.pc j) ≡ false) × (is_reading (s.pc j) ≡ false)
rwlock_exclusion {n} {s = s} small r i j li lj h ne = (alone, unread)
  where
    v : IsCounted n s
    v = rwlock_counts small r

    some_writer : 0 < one_if s.rw.writer
    some_writer = omega (arith, v.writer, how_many-pos (λ m. is_writing (s.pc m)) n i li h)

    alone : is_writing (s.pc j) ≡ false
    alone = elim (Bool-cases (is_writing (s.pc j))) [
      | inr quiet ↦ quiet
      | inl both ↦ absurd (
          ne (
            how_many_unique (λ m. is_writing (s.pc m)) n i j (at_most_one s.rw.writer v.writer) li
              lj h both))
    ]

    unread : is_reading (s.pc j) ≡ false
    unread = elim (Bool-cases (is_reading (s.pc j))) [
      | inr quiet ↦ quiet
      | inl reads ↦
          let some_reader = how_many-pos (λ m. is_reading (s.pc m)) n j lj reads in
          absurd (elim v.apart [
            | inl no_writer ↦ omega (arith, some_writer, ap one_if no_writer)
            | inr no_readers ↦ omega (arith, some_reader, v.readers)
          ])
    ]
