-- ===== src/Pipe/Reading.antt =====
-- The waiting loop of `pipe_read`: when it waits, and how it ends.
use thunderos.Prelude.{ℕ, ◌≡◌, ◌≢◌, List, Bool, true, false, ◌||◌, ◌==◌, min}
use thunderos.Errno.{ok, err, epipe}
use thunderos.Kernel.{Kernel}
use thunderos.Pipe.{
  Pipe, no_read_end, is_write_closed, Outcome, returned, waiting, Meanwhile, sleep_reader,
}
use thunderos.Pipe.Ends.{ReadEnds}
use thunderos.Pipe.Waiting.{Turn}

abbrev pub ends_writing : Pipe → Bool
ends_writing p = is_write_closed p.state || p.write_ref_count == 0

-- The ends of a read of at most `count` bytes: bytes from the front of a pipe that held some; the end
-- of file, on an empty pipe that nobody can write to; a broken pipe; or a sleep on an empty pipe that
-- somebody can still write to.
pub data ReadResult (dest : List ℕ) (count : ℕ) (others : List Meanwhile) (s : Pipe × Kernel)
    : Outcome → Type 0 where
  bytes :
      (p : Pipe) (k : Kernel) {o : Outcome}
      → Turn sleep_reader others s (p, k)
      → p.data_size ≢ 0
      → ReadEnds p k dest (min count p.data_size) o
      → ReadResult dest count others s o
  end_of_file :
      (p : Pipe) (k : Kernel) {o : Outcome}
      → Turn sleep_reader others s (p, k)
      → p.data_size ≡ 0
      → ends_writing p ≡ true
      → o ≡ returned (ok 0) dest p k
      → ReadResult dest count others s o
  read_end_gone :
      (p : Pipe) (k : Kernel) {o : Outcome}
      → Turn sleep_reader others s (p, k)
      → no_read_end p.state ≡ true
      → o ≡ returned (err epipe) dest p k
      → ReadResult dest count others s o
  asleep :
      (p : Pipe) (k : Kernel) {o : Outcome}
      → Turn sleep_reader others s (p, k)
      → p.data_size ≡ 0
      → ends_writing p ≡ false
      → o ≡ (let (p', k') = sleep_reader p k in waiting p' k')
      → ReadResult dest count others s o
