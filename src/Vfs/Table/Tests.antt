-- ===== src/Vfs/Table/Tests.antt =====
-- The theorems on descriptors, at a table with one pipe.
use thunderos.Prelude.{ℕ, ◌≡◌, refl, none, List, replicate, false, ◌==◌, if◌then◌else◌, arith}
use thunderos.Prelude.First.{first_from}
use thunderos.Errno.{ok, err, epipe}
use thunderos.Kernel.{Kernel, running}
use thunderos.Kernel.Tests.{machine}
use thunderos.WaitQueue.{wait_queue_init}
use thunderos.Pipe.{
  Pipe, is_open, pipe_buf_size, pipe_can_free, pipe_close_write, pipe_write, Meanwhile, returned,
}
use thunderos.Vfs.Table.{
  Vfs, NodeOps, free_file, pipe_end, o_rdonly, o_wronly, vfs_init, vfs_alloc_fd, vfs_close,
  vfs_dup2, vfs_create_pipe,
}
use thunderos.Vfs.Table.Close.{KeepsFiles, DupEnds, vfs_dup2-DupEnds}
use thunderos.Vfs.Table.Pipes.{Piped, vfs_close-leaks, vfs_close-vfs_dup2}
use thunderos.Vfs.Table.Create.{CreateEnds, vfs_create_pipe-CreateEnds}

abbrev new_pipe : Pipe
new_pipe = record {
  buffer = replicate pipe_buf_size 0;
  read_pos = 0;
  write_pos = 0;
  data_size = 0;
  state = is_open;
  read_ref_count = 1;
  write_ref_count = 1;
  readers = wait_queue_init;
  writers = wait_queue_init;
}

-- Descriptor 3 is the read end of the pipe at 64, and 4 its write end.
abbrev one_pipe : Vfs ℕ
one_pipe = record {
  files = λ i.
      if i == 3 then pipe_end o_rdonly 64 else if i == 4 then pipe_end o_wronly 64 else free_file;
  pipes = λ _. new_pipe;
  kernel = machine running;
  sizes = λ _. 0;
  disk = 0;
}

abbrev no_ops : ℕ → NodeOps ℕ
no_ops _ = record { read = none; write = none; close = none }

no_ops-KeepsFiles : KeepsFiles no_ops
no_ops-KeepsFiles node close e v = cc e

one_pipe-Piped : Piped one_pipe 64 3 4
one_pipe-Piped = record {
  there = omega arith;
  differ = omega arith;
  read_in_table = omega arith;
  write_in_table = omega arith;
  read_end = refl;
  write_end = refl;
  one_reader = refl;
  one_writer = refl;
  in_step = refl;
}

vfs_alloc_fd-init : (vfs_alloc_fd (vfs_init one_pipe)).0 ≡ ok 3
unfolding vfs_alloc_fd vfs_init first_from
vfs_alloc_fd-init = refl

vfs_dup2-DupEnds_example :
    DupEnds no_ops no_ops-KeepsFiles one_pipe 4 1 (vfs_dup2 no_ops one_pipe 4 1)
vfs_dup2-DupEnds_example = vfs_dup2-DupEnds no_ops no_ops-KeepsFiles one_pipe 4 1

vfs_create_pipe-CreateEnds_example :
    CreateEnds one_pipe 4224
      (replicate pipe_buf_size 0)
      (vfs_create_pipe one_pipe 4224 (replicate pipe_buf_size 0))
vfs_create_pipe-CreateEnds_example =
    vfs_create_pipe-CreateEnds one_pipe 4224 (replicate pipe_buf_size 0)

vfs_close-leaks_example :
    let v = (vfs_close no_ops (vfs_close no_ops one_pipe 3).1 4).1 in
    (v.files 3 ≡ free_file)
    × (v.files 4 ≡ free_file)
    × ((v.pipes 64).read_ref_count ≡ 1)
    × (pipe_can_free (v.pipes 64) ≡ false)
    × (v.kernel ≡ (pipe_close_write new_pipe (machine running)).1)
vfs_close-leaks_example = vfs_close-leaks no_ops one_pipe 64 3 4 one_pipe-Piped

vfs_close-vfs_dup2_example :
    let v = (vfs_close no_ops (vfs_dup2 no_ops one_pipe 4 5).1 5).1 in
    (v.files 4 ≡ pipe_end o_wronly 64)
    × ((others : List Meanwhile) (k : Kernel) (src : List ℕ) (count : ℕ)
        → pipe_write others (v.pipes 64) k src count ≡ returned (err epipe) src (v.pipes 64) k)
vfs_close-vfs_dup2_example =
    vfs_close-vfs_dup2 no_ops one_pipe 4 5 64 (omega arith) (omega arith) (omega arith) refl refl
      (omega arith) refl refl
