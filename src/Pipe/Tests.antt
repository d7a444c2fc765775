-- ===== src/Pipe/Tests.antt =====
-- The theorems on pipes at a pipe that is nearly full, and a run round the end of its buffer.
use thunderos.Prelude.{◌≡◌, refl, [], ◌∷◌, set, replicate}
use thunderos.WaitQueue.{wait_queue_init}
use thunderos.Pipe.{Pipe, is_open, pipe_buf_size}
use thunderos.Pipe.Contents.{contents}

-- Two bytes at the end of the buffer, and one at its start.
abbrev bent : Pipe
bent = record {
  buffer = set (set (set (replicate pipe_buf_size 0) 4094 b'a') 4095 b'b') 0 b'c';
  read_pos = 4094;
  write_pos = 1;
  data_size = 3;
  state = is_open;
  read_ref_count = 1;
  write_ref_count = 2;
  readers = wait_queue_init;
  writers = wait_queue_init;
}

contents-bent : contents bent ≡ b'a' ∷ b'b' ∷ b'c' ∷ []
contents-bent = refl
