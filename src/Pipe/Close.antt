-- ===== src/Pipe/Close.antt =====
-- Closing the ends of a pipe: the state of the pipe follows its two reference counts.
use thunderos.Prelude.{
  ℕ, ◌-◌, ◌≡◌, ◌≢◌, inl, inr, subst, Option, none, some, List, Bool-cases, refl, arith, true, false,
  ◌==◌, if◌then◌else◌, ◌&&◌, ℕ_discrete,
}
use thunderos.Kernel.{Kernel, kernel_kmalloc}
use thunderos.WaitQueue.{wait_queue_wake}
use thunderos.Pipe.{
  Pipe, PipeState, is_open, read_closed, write_closed, closed, is_write_closed, is_read_closed,
  pipe_close_read, pipe_close_write, pipe_can_free, pipe_create,
}

-- The state that the reference counts call for.
abbrev pub state_of : ℕ → ℕ → PipeState
state_of readers writers =
    if readers == 0
    then (if writers == 0 then closed else read_closed)
    else if writers == 0
    then write_closed
    else is_open

abbrev pub IsInStep : Pipe → Type 0
IsInStep p = p.state ≡ state_of p.read_ref_count p.write_ref_count

-- A pipe with its bytes as they were, and the state that its reference counts call for.
pub record Closed (p : Pipe) (readers writers : ℕ) (q : Pipe) : Type 0 where
  pub readers_left : q.read_ref_count ≡ readers
  pub writers_left : q.write_ref_count ≡ writers
  pub in_step : IsInStep q
  pub freeable : pipe_can_free q ≡ (readers == 0 && writers == 0)
  pub same_buffer : q.buffer ≡ p.buffer
  pub same_read_pos : q.read_pos ≡ p.read_pos
  pub same_data_size : q.data_size ≡ p.data_size

close_read-last :
    (p : Pipe) (k : Kernel)
    → p.read_ref_count ≡ 1
    → pipe_close_read p k ≡ (
        let (_, wq, k') = wait_queue_wake p.writers k in
        (
          record p {
            read_ref_count = 0;
            state = if is_write_closed p.state then closed else read_closed;
            writers = wq;
          },
          k',
        ))
unfolding pipe_close_read
close_read-last p k h = ground arith

close_read-more :
    (p : Pipe) (k : Kernel)
    → p.read_ref_count ≢ 1
    → p.read_ref_count ≢ 0
    → pipe_close_read p k ≡ (record p { read_ref_count = p.read_ref_count - 1 }, k)
unfolding pipe_close_read
close_read-more p k h z = ground arith

close_write-last :
    (p : Pipe) (k : Kernel)
    → p.write_ref_count ≡ 1
    → pipe_close_write p k ≡ (
        let (_, wq, k') = wait_queue_wake p.readers k in
        (
          record p {
            write_ref_count = 0;
            state = if is_read_closed p.state then closed else write_closed;
            readers = wq;
          },
          k',
        ))
unfolding pipe_close_write
close_write-last p k h = ground arith

close_write-more :
    (p : Pipe) (k : Kernel)
    → p.write_ref_count ≢ 1
    → p.write_ref_count ≢ 0
    → pipe_close_write p k ≡ (record p { write_ref_count = p.write_ref_count - 1 }, k)
unfolding pipe_close_write
close_write-more p k h z = ground arith

-- `pipe_close_read` on a pipe whose state is in step with its reference counts and whose read end is
-- open takes one reference off, and keeps the state in step: so the pipe can be freed exactly when
-- both counts are 0. The bytes in the pipe stay. Closing the last read end wakes all writers.
pub pipe_close_read-Closed :
    (p : Pipe) (k : Kernel)
    → IsInStep p
    → p.read_ref_count ≢ 0
    → let (q, k') = pipe_close_read p k in
      Closed p (p.read_ref_count - 1) (p.write_ref_count) q
      × (k' ≡ (if p.read_ref_count == 1 then (wait_queue_wake p.writers k).2 else k))
unfolding pipe_can_free
pipe_close_read-Closed p k h nz = elim (ℕ_discrete p.read_ref_count 1) [
  | yes last ↦ rw (close_read-last p k last) (
    record {
      readers_left = ground arith;
      writers_left = ground arith;
      in_step = ground arith;
      freeable = ground arith;
      same_buffer = refl;
      same_read_pos = refl;
      same_data_size = refl;
    },
    ground arith,
  )
  | no more ↦ rw (close_read-more p k more nz) (
    record {
      readers_left = refl;
      writers_left = refl;
      in_step = ground arith;
      freeable = ground arith;
      same_buffer = refl;
      same_read_pos = refl;
      same_data_size = refl;
    },
    ground arith,
  )
]

-- `pipe_close_write` on a pipe whose state is in step with its reference counts and whose write end is
-- open takes one reference off, and keeps the state in step: so the pipe can be freed exactly when
-- both counts are 0. The bytes in the pipe stay. Closing the last write end wakes all readers.
pub pipe_close_write-Closed :
    (p : Pipe) (k : Kernel)
    → IsInStep p
    → p.write_ref_count ≢ 0
    → let (q, k') = pipe_close_write p k in
      Closed p (p.read_ref_count) (p.write_ref_count - 1) q
      × (k' ≡ (if p.write_ref_count == 1 then (wait_queue_wake p.readers k).2 else k))
unfolding pipe_can_free
pipe_close_write-Closed p k h nz = elim (ℕ_discrete p.write_ref_count 1) [
  | yes last ↦ rw (close_write-last p k last) (
    record {
      readers_left = ground arith;
      writers_left = ground arith;
      in_step = ground arith;
      freeable = ground arith;
      same_buffer = refl;
      same_read_pos = refl;
      same_data_size = refl;
    },
    ground arith,
  )
  | no more ↦ rw (close_write-more p k more nz) (
    record {
      readers_left = refl;
      writers_left = refl;
      in_step = ground arith;
      freeable = ground arith;
      same_buffer = refl;
      same_read_pos = refl;
      same_data_size = refl;
    },
    ground arith,
  )
]

-- Closing too often: `pipe_close_read` on a pipe that is closed at both ends takes it back to a
-- state in which it cannot be freed.
pub pipe_close_read_reopens :
    (p : Pipe) (k : Kernel)
    → p.state ≡ closed
    → p.read_ref_count ≡ 0
    → (pipe_can_free p ≡ true) × (pipe_can_free (pipe_close_read p k).0 ≡ false)
unfolding pipe_can_free pipe_close_read
pipe_close_read_reopens p k h r = ground arith

pub pipe_can_free-counts :
    (p : Pipe) → IsInStep p → pipe_can_free p ≡ (p.read_ref_count == 0 && p.write_ref_count == 0)
unfolding pipe_can_free
pipe_can_free-counts p h = elim (ℕ_discrete p.read_ref_count 0) [
  | yes r ↦ elim (ℕ_discrete p.write_ref_count 0) [
    | yes w ↦ ground (arith, h, r, w)
    | no w ↦ ground (arith, h, r, w)
  ]
  | no r ↦ elim (ℕ_discrete p.write_ref_count 0) [
    | yes w ↦ ground (arith, h, r, w)
    | no w ↦ ground (arith, h, r, w)
  ]
]

-- A new pipe has one reader and one writer.
abbrev OneEach : Option (ℕ × Pipe) → Type 0
OneEach none = Unit {0}
OneEach (some (addr, p)) =
    (addr ≢ 0) × (p.read_ref_count ≡ 1) × (p.write_ref_count ≡ 1) × IsInStep p

created :
    (k : Kernel) (sizeof_pipe : ℕ) (memory : List ℕ) → OneEach (pipe_create k sizeof_pipe memory).0
unfolding pipe_create
created k sizeof_pipe memory = elim (Bool-cases ((kernel_kmalloc k sizeof_pipe).0 == 0)) [
  | inl e ↦ rw (pipe_create, e) tt
  | inr e ↦ rw (pipe_create, e) (ground (arith, e), refl, refl, refl)
]

pub pipe_create-one_each :
    (k : Kernel) (sizeof_pipe : ℕ) (memory : List ℕ) (addr : ℕ) (p : Pipe)
    → (pipe_create k sizeof_pipe memory).0 ≡ some (addr, p)
    → (addr ≢ 0) × (p.read_ref_count ≡ 1) × (p.write_ref_count ≡ 1) × IsInStep p
pipe_create-one_each k sizeof_pipe memory addr p h = subst OneEach h (created k sizeof_pipe memory)
