-- ===== src/Rwlock/Invariant.antt =====
-- The fields of the lock count the processes at each place, through every step.
use thunderos.Prelude.{
  ℕ, ◌+◌, ◌^◌, ◌≤◌, ◌<◌, ◌≡◌, refl, sym, ap, ◌∙◌, Bool-cases, Bool, false, arith, ◌⊎◌, inl, inr,
}
use thunderos.Prelude.Counts.{
  one_if, how_many, how_many_change, how_many-none, how_many-pos, how_many-le,
}
use thunderos.Kernel.{Kernel}
use thunderos.Rwlock.{
  Rwlock, rwlock_init, sleep_reader, sleep_writer, wake_readers, wake_writer, rwlock_read_trylock,
  rwlock_write_trylock,
}
use thunderos.Rwlock.System.{
  Pc, is_reading, is_writing, waits_to_write, System, move, Section, call_read, enter, miss, sleep,
  try_read, leave, call_write, enter_exclusive, miss_exclusive, sleep_exclusive, try_write,
  leave_exclusive, wake_all, look, wake, Step, step, others, Reach, here, later,
}

-- How a process that goes from one place to another changes the lock.
pub record Deltas (rw rw' : Rwlock) (p q : Pc) : Type 0 where
  pub readers : rw'.readers + one_if (is_reading p) ≡ rw.readers + one_if (is_reading q)
  pub writer : one_if rw'.writer + one_if (is_writing p) ≡ one_if rw.writer + one_if (is_writing q)
  pub waiting :
      rw'.writers_waiting + one_if (waits_to_write p)
      ≡ rw.writers_waiting + one_if (waits_to_write q)
  pub apart : (rw'.writer ≡ false) ⊎ (rw'.readers ≡ 0)

-- The process itself is counted, and the numbers are small.
pub record Counts (rw : Rwlock) (p : Pc) : Type 0 where
  pub few_readers : rw.readers + 1 < 2 ^ 31
  pub few_waiting : rw.writers_waiting + 1 < 2 ^ 31
  pub as_reader : one_if (is_reading p) ≤ rw.readers
  pub as_writer : one_if (is_writing p) ≤ one_if rw.writer
  pub as_waiting : one_if (waits_to_write p) ≤ rw.writers_waiting
  pub apart : (rw.writer ≡ false) ⊎ (rw.readers ≡ 0)

Section-Deltas :
    {rw : Rwlock} {k : Kernel} {p : Pc} {rw' : Rwlock} {k' : Kernel} {q : Pc}
    → Section rw k p rw' k' q
    → Counts rw p
    → Deltas rw rw' p q
unfolding sleep_reader sleep_writer wake_readers wake_writer rwlock_read_trylock
    rwlock_write_trylock
Section-Deltas call_read c = record {
  readers = refl;
  writer = refl;
  waiting = refl;
  apart = c.apart;
}
Section-Deltas (enter h) c = ground (arith, h)
Section-Deltas (miss h) c = record {
  readers = refl;
  writer = refl;
  waiting = refl;
  apart = c.apart;
}
Section-Deltas sleep c = record { readers = refl; writer = refl; waiting = refl; apart = c.apart }
Section-Deltas try_read c = ground arith
Section-Deltas leave c = ground arith
Section-Deltas call_write c = ground arith
Section-Deltas (enter_exclusive h) c = ground arith
Section-Deltas (miss_exclusive h) c = record {
  readers = refl;
  writer = refl;
  waiting = refl;
  apart = c.apart;
}
Section-Deltas sleep_exclusive c = record {
  readers = refl;
  writer = refl;
  waiting = refl;
  apart = c.apart;
}
Section-Deltas try_write c = ground arith
Section-Deltas leave_exclusive c = ground arith
Section-Deltas wake_all c = record {
  readers = refl;
  writer = refl;
  waiting = refl;
  apart = c.apart;
}
Section-Deltas look c = ground arith
Section-Deltas wake c = record { readers = refl; writer = refl; waiting = refl; apart = c.apart }

-- How many of the processes stand at a place of some kind.
abbrev pub standing : (Pc → Bool) → (ℕ → Pc) → ℕ → ℕ
standing kind pc n = how_many (λ i. kind (pc i)) n

pub record IsCounted (n : ℕ) (s : System) : Type 0 where
  pub readers : s.rw.readers ≡ standing is_reading s.pc n
  pub writer : one_if s.rw.writer ≡ standing is_writing s.pc n
  pub waiting : s.rw.writers_waiting ≡ standing waits_to_write s.pc n
  pub apart : (s.rw.writer ≡ false) ⊎ (s.rw.readers ≡ 0)

module _ (n : ℕ) (pc : ℕ → Pc) (i : ℕ) (inside : i < n) (p : Pc) (at : pc i ≡ p) where
  standing-move :
      (kind : Pc → Bool) (q : Pc)
      → standing kind (move pc i q) n + one_if (kind p) ≡ standing kind pc n + one_if (kind q)
  standing-move kind q =
      let here_now : kind (move pc i q i) ≡ kind q = ap kind (ground arith) in
      omega (
        arith,
        how_many_change (λ j. kind (pc j)) (λ j. kind (move pc i q j)) n i inside
            (λ j ne. ap kind (ground arith)),
        ap (λ x. one_if (kind x)) at,
        ap one_if here_now,
      )

  one_if-le-standing : (kind : Pc → Bool) → one_if (kind p) ≤ standing kind pc n
  one_if-le-standing kind = elim (Bool-cases (kind p)) [
    | inl yes_kind ↦ omega (
      arith,
      how_many-pos (λ j. kind (pc j)) n i inside (ap kind at ∙ yes_kind),
      ap one_if yes_kind,
    )
    | inr no_kind ↦ omega (arith, ap one_if no_kind)
  ]

Step-IsCounted :
    {n : ℕ} {s t : System} → n + 1 < 2 ^ 31 → Step n s t → IsCounted n s → IsCounted n t
Step-IsCounted {n} {s} small (step i {rw = lock} {p = p} {q = q} lt at section) v = record {
  readers = omega (arith, d.readers, v.readers, standing-move n s.pc i lt p at is_reading q);
  writer = omega (arith, d.writer, v.writer, standing-move n s.pc i lt p at is_writing q);
  waiting = omega (arith, d.waiting, v.waiting, standing-move n s.pc i lt p at waits_to_write q);
  apart = d.apart;
}
  where
    d : Deltas s.rw lock p q
    d = Section-Deltas section (record {
      few_readers = omega (arith, v.readers, how_many-le (λ j. is_reading (s.pc j)) n);
      few_waiting = omega (arith, v.waiting, how_many-le (λ j. waits_to_write (s.pc j)) n);
      as_reader = omega (arith, v.readers, one_if-le-standing n s.pc i lt p at is_reading);
      as_writer = omega (arith, v.writer, one_if-le-standing n s.pc i lt p at is_writing);
      as_waiting = omega (arith, v.waiting, one_if-le-standing n s.pc i lt p at waits_to_write);
      apart = v.apart;
    })
Step-IsCounted small (others k) v = record {
  readers = v.readers;
  writer = v.writer;
  waiting = v.waiting;
  apart = v.apart;
}

-- In every state that fewer than 2^31 - 1 processes can reach, in any interleaving: `readers` is the
-- number of processes in a read section, `writer` tells whether one is in a write section,
-- `writers_waiting` is the number of processes in the loop of `rwlock_write_lock`, and there is no
-- writer or there are no readers.
pub rwlock_counts : {n : ℕ} {k : Kernel} {s : System} → n + 1 < 2 ^ 31 → Reach n k s → IsCounted n s
unfolding rwlock_init
rwlock_counts {n} small here = record {
  readers = sym (how_many-none n);
  writer = sym (how_many-none n);
  waiting = sym (how_many-none n);
  apart = inl refl;
}
rwlock_counts small (later r st) = Step-IsCounted small st (rwlock_counts small r)
