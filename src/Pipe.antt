-- ===== src/Pipe.antt =====
-- kernel/core/pipe.c: anonymous pipes over a circular buffer, with blocking reads and writes. The
-- kernel state comes from Kernel, the queues of sleepers from WaitQueue, the byte copies from
-- Kstring. A pipe pointer is an optional pipe, NULL being `none`.
pub mod Copy
pub mod Contents
pub mod Ends
pub mod Waiting
pub mod Reading
pub mod Writing
pub mod Close
pub mod Tests
use thunderos.Prelude.{
  ℕ, zero, suc, ◌+◌, ◌-◌, ◌%◌, ◌^◌, Option, none, some, List, [], ◌∷◌, Bool, true, false, ◌==◌,
  ◌||◌, ltb, leb, min, if◌then◌else◌, replicate,
}
use thunderos.Errno.{Reply, ok, err, einval, epipe, enomem}
use thunderos.Kernel.{Kernel, kernel_kmalloc, kernel_kfree}
use thunderos.WaitQueue.{WaitQueue, wait_queue_init, wait_queue_sleep, wait_queue_wake}
use thunderos.Kstring.{kmemcpy, kmemset}

abbrev pub pipe_buf_size : ℕ
pipe_buf_size = 4096

-- PIPE_OPEN, PIPE_READ_CLOSED, PIPE_WRITE_CLOSED, PIPE_CLOSED.
pub data PipeState : Type 0 where
  is_open read_closed write_closed closed : PipeState

pub record Pipe : Type 0 where
  pub buffer : List ℕ
  pub read_pos : ℕ
  pub write_pos : ℕ
  pub data_size : ℕ
  pub state : PipeState
  pub read_ref_count : ℕ
  pub write_ref_count : ℕ
  pub readers : WaitQueue
  pub writers : WaitQueue

-- The state tests of the code.
abbrev pub no_read_end : PipeState → Bool
no_read_end read_closed = true
no_read_end closed = true
no_read_end _ = false

abbrev pub no_write_end : PipeState → Bool
no_write_end write_closed = true
no_write_end closed = true
no_write_end _ = false

abbrev pub is_read_closed : PipeState → Bool
is_read_closed read_closed = true
is_read_closed _ = false

abbrev pub is_write_closed : PipeState → Bool
is_write_closed write_closed = true
is_write_closed _ = false

-- `pipe_create`, given the contents of the memory that `kmalloc` returns for the buffer; the address
-- of the pipe stands beside it, for `pipe_free`.
pub pipe_create : Kernel → ℕ → List ℕ → Option (ℕ × Pipe) × Reply × Kernel
pipe_create k sizeof_pipe memory =
    let (pipe, k') = kernel_kmalloc k sizeof_pipe in
    if pipe == 0 then (none, err enomem, k') else (
      some (
        pipe,
        record {
          buffer = kmemset memory 0 0 pipe_buf_size;
          read_pos = 0;
          write_pos = 0;
          data_size = 0;
          state = is_open;
          read_ref_count = 1;
          write_ref_count = 1;
          readers = wait_queue_init;
          writers = wait_queue_init;
        },
      ),
      ok pipe,
      k',
    )

-- `if (a > b) a = b;`
abbrev pub capped : ℕ → ℕ → ℕ
capped a b = if ltb b a then b else a

-- The copy loop of `pipe_read`, with `bytes_read` so far: the destination and `read_pos` at its
-- end. The first argument is fuel, `none` is running out of it.
pub read_loop : ℕ → List ℕ → List ℕ → ℕ → ℕ → ℕ → Option (List ℕ × ℕ)
read_loop zero buffer dest read_pos to_read bytes_read = none
read_loop (suc fuel) buffer dest read_pos to_read bytes_read =
    let chunk_size = capped (to_read - bytes_read) (pipe_buf_size - read_pos) in
    let rest =
      read_loop fuel buffer (kmemcpy dest bytes_read buffer read_pos chunk_size)
        ((read_pos + chunk_size) % pipe_buf_size) to_read (bytes_read + chunk_size) in
    if ltb bytes_read to_read then rest else some (dest, read_pos)

-- The copy loop of `pipe_write`: the pipe's buffer and `write_pos` at its end.
pub write_loop : ℕ → List ℕ → List ℕ → ℕ → ℕ → ℕ → Option (List ℕ × ℕ)
write_loop zero buffer src write_pos to_write bytes_written = none
write_loop (suc fuel) buffer src write_pos to_write bytes_written =
    let chunk_size = capped (to_write - bytes_written) (pipe_buf_size - write_pos) in
    let rest =
      write_loop fuel (kmemcpy buffer write_pos src bytes_written chunk_size) src
        ((write_pos + chunk_size) % pipe_buf_size) to_write (bytes_written + chunk_size) in
    if ltb bytes_written to_write then rest else some (buffer, write_pos)

-- How a call ends: it returns, with the caller's buffer, the pipe and the kernel as they are then;
-- it waits, asleep for ever or, where there is no memory for a queue entry, going round its loop; or
-- its copy loop has run out of fuel.
pub data Outcome : Type 0 where
  returned : Reply → List ℕ → Pipe → Kernel → Outcome
  waiting : Pipe → Kernel → Outcome
  out_of_fuel : Outcome

-- `wait_queue_wake` on each of the two queues.
abbrev pub wake_writers : Pipe → Kernel → Pipe × Kernel
wake_writers p k = let (_, wq, k') = wait_queue_wake p.writers k in (record p { writers = wq }, k')

abbrev pub wake_readers : Pipe → Kernel → Pipe × Kernel
wake_readers p k = let (_, wq, k') = wait_queue_wake p.readers k in (record p { readers = wq }, k')

-- `pipe_read` once there is data. A loop round copies at least one byte: `to_read + 1` rounds do.
pub read_ready : Pipe → Kernel → List ℕ → ℕ → Outcome
unfolding read_loop
read_ready p k dest count =
    let to_read = capped count p.data_size in
    elim (read_loop (suc to_read) p.buffer dest p.read_pos to_read 0) [
      | none ↦ out_of_fuel
      | some (dest', read_pos) ↦
          let p' = record p { read_pos = read_pos; data_size = p.data_size - to_read } in
          let (q, k') = wake_writers p' k in
          if ltb 0 to_read
          then returned (ok to_read) dest' q k'
          else returned (ok to_read) dest' p' k
    ]

-- What the rest of the system does to the pipe and the kernel from the moment a process gives up
-- the CPU until it runs again.
abbrev pub Meanwhile : Type 0
Meanwhile = Pipe × Kernel → Pipe × Kernel

-- `wait_queue_sleep` on one of the two queues.
abbrev pub sleep_reader : Pipe → Kernel → Pipe × Kernel
sleep_reader p k = let (_, wq, k') = wait_queue_sleep p.readers k in (record p { readers = wq }, k')

abbrev pub sleep_writer : Pipe → Kernel → Pipe × Kernel
sleep_writer p k = let (_, wq, k') = wait_queue_sleep p.writers k in (record p { writers = wq }, k')

-- The waiting loop of `pipe_read`, one entry of the list for each sleep that it wakes up from.
pub read_wait : List Meanwhile → Pipe → Kernel → List ℕ → ℕ → Outcome
unfolding read_ready
read_wait [] p k dest count =
    if p.data_size == 0
    then if is_write_closed p.state || p.write_ref_count == 0
      then returned (ok 0) dest p k
      else (let (p', k') = sleep_reader p k in waiting p' k')
    else read_ready p k dest count
read_wait (others ∷ later) p k dest count =
    let (p', k') = others (sleep_reader p k) in
    let again = read_wait later p' k' dest count in
    if p.data_size == 0
    then if is_write_closed p.state || p.write_ref_count == 0
      then returned (ok 0) dest p k
      else if no_read_end p'.state
      then returned (err epipe) dest p' k'
      else again
    else read_ready p k dest count

-- `pipe_read` on a pipe and a buffer that are not NULL.
pub pipe_read : List Meanwhile → Pipe → Kernel → List ℕ → ℕ → Outcome
unfolding read_wait
pipe_read others p k dest count =
    if no_read_end p.state then returned (err epipe) dest p k else read_wait others p k dest count

-- `pipe_write` once there is room.
pub write_ready : Pipe → Kernel → List ℕ → ℕ → Outcome
unfolding write_loop
write_ready p k src count =
    let to_write = capped count (pipe_buf_size - p.data_size) in
    elim (write_loop (suc to_write) p.buffer src p.write_pos to_write 0) [
      | none ↦ out_of_fuel
      | some (buffer, write_pos) ↦
          let p' = record p {
            buffer = buffer;
            write_pos = write_pos;
            data_size = p.data_size + to_write;
          } in
          let (q, k') = wake_readers p' k in
          if ltb 0 to_write
          then returned (ok to_write) src q k'
          else returned (ok to_write) src p' k
    ]

-- `pipe->state == PIPE_READ_CLOSED || pipe->read_ref_count == 0`.
abbrev pub is_broken : Pipe → Bool
is_broken p = is_read_closed p.state || p.read_ref_count == 0

-- The waiting loop of `pipe_write`.
pub write_wait : List Meanwhile → Pipe → Kernel → List ℕ → ℕ → Outcome
unfolding write_ready
write_wait [] p k src count =
    if leb pipe_buf_size p.data_size
    then if is_broken p
      then returned (err epipe) src p k
      else (let (p', k') = sleep_writer p k in waiting p' k')
    else write_ready p k src count
write_wait (others ∷ later) p k src count =
    let (p', k') = others (sleep_writer p k) in
    let again = write_wait later p' k' src count in
    if leb pipe_buf_size p.data_size
    then if is_broken p
      then returned (err epipe) src p k
      else if no_write_end p'.state
      then returned (err epipe) src p' k'
      else if is_broken p'
      then returned (err epipe) src p' k'
      else again
    else write_ready p k src count

-- `pipe_write` on a pipe and a buffer that are not NULL; the buffer returned is `src` unchanged.
pub pipe_write : List Meanwhile → Pipe → Kernel → List ℕ → ℕ → Outcome
unfolding write_wait
pipe_write others p k src count =
    if no_write_end p.state
    then returned (err epipe) src p k
    else if is_broken p
    then returned (err epipe) src p k
    else write_wait others p k src count

abbrev pub dec_ref : ℕ → ℕ
dec_ref n = if ltb 0 n then n - 1 else n

-- `pipe_close_read` and `pipe_close_write`; both return 0 on a pipe that is not NULL.
pub pipe_close_read : Pipe → Kernel → Pipe × Kernel
pipe_close_read p k =
    let p' = record p { read_ref_count = dec_ref p.read_ref_count } in
    if p'.read_ref_count == 0
    then wake_writers
        (record p' { state = if is_write_closed p.state then closed else read_closed }) k
    else (p', k)

pub pipe_close_write : Pipe → Kernel → Pipe × Kernel
pipe_close_write p k =
    let p' = record p { write_ref_count = dec_ref p.write_ref_count } in
    if p'.write_ref_count == 0
    then wake_readers
        (record p' { state = if is_read_closed p.state then closed else write_closed }) k
    else (p', k)

pub pipe_can_free : Pipe → Bool
pipe_can_free p = elim p.state [ closed ↦ true | _ ↦ false ]

-- `pipe_free`, by the address of the pipe.
pub pipe_free : Kernel → ℕ → Kernel
pipe_free k pipe = if pipe == 0 then k else kernel_kfree k pipe
