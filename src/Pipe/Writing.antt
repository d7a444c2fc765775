-- ===== src/Pipe/Writing.antt =====
-- The waiting loop of `pipe_write`: when it waits, and how it ends.
use thunderos.Prelude.{ℕ, ◌-◌, ◌<◌, ◌≡◌, refl, List, true, false, ◌||◌, min}
use thunderos.Errno.{err, epipe}
use thunderos.Kernel.{Kernel}
use thunderos.Pipe.{
  Pipe, pipe_buf_size, no_write_end, is_broken, Outcome, returned, waiting, Meanwhile, sleep_writer,
  pipe_write,
}
use thunderos.Pipe.Ends.{WriteEnds}
use thunderos.Pipe.Waiting.{Turn}

-- The ends of a write of at most `count` bytes: bytes appended to a pipe with room; a broken pipe; or
-- a sleep on a full pipe that somebody can still read from.
pub data WriteResult (src : List ℕ) (count : ℕ) (others : List Meanwhile) (s : Pipe × Kernel)
    : Outcome → Type 0 where
  bytes :
      (p : Pipe) (k : Kernel) {o : Outcome}
      → Turn sleep_writer others s (p, k)
      → p.data_size < pipe_buf_size
      → WriteEnds p k src (min count (pipe_buf_size - p.data_size)) o
      → WriteResult src count others s o
  broken :
      (p : Pipe) (k : Kernel) {o : Outcome}
      → Turn sleep_writer others s (p, k)
      → (no_write_end p.state || is_broken p) ≡ true
      → o ≡ returned (err epipe) src p k
      → WriteResult src count others s o
  asleep :
      (p : Pipe) (k : Kernel) {o : Outcome}
      → Turn sleep_writer others s (p, k)
      → p.data_size ≡ pipe_buf_size
      → is_broken p ≡ false
      → o ≡ (let (p', k') = sleep_writer p k in waiting p' k')
      → WriteResult src count others s o

pub pipe_write-no_write_end :
    (others : List Meanwhile) (p : Pipe) (k : Kernel) (src : List ℕ) (count : ℕ)
    → no_write_end p.state ≡ true
    → pipe_write others p k src count ≡ returned (err epipe) src p k
unfolding pipe_write
pipe_write-no_write_end others p k src count h = rw h refl
