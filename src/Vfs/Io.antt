-- ===== src/Vfs/Io.antt =====
-- `vfs_read`, `vfs_write` and `vfs_seek` of kernel/fs/vfs.c.
use thunderos.Prelude.{
  ℕ, ◌+◌, ◌%◌, ◌^◌, Option, none, some, List, [], length, ◌==◌, not, ltb, ◌&&◌, if◌then◌else◌,
}
use thunderos.Errno.{Reply, ok, err, einval, ebadf, eacces, eio}
use thunderos.Pipe.{pipe_read, pipe_write, Meanwhile}
use thunderos.Pipe
use thunderos.Vfs.Table.{
  Vfs, NodeOps, set_at, is_open_fd, has_flag, o_rdonly, o_wronly, o_rdwr, vfs_type_pipe,
}

-- How a call ends: it returns, with the bytes that it has read; it waits for ever at a pipe; or the
-- copy loop of the pipe has run out of fuel.
pub data IoOutcome (F : Type 0) : Type 0 where
  returned : Reply → List ℕ → Vfs F → IoOutcome F
  waiting : Vfs F → IoOutcome F
  out_of_fuel : IoOutcome F

-- `whence`: SEEK_SET, SEEK_CUR, SEEK_END and all other values.
pub data Whence : Type 0 where
  seek_set seek_cur seek_end other : Whence

module _ {F : Type 0} where
  -- A pipe and the kernel after a call on the pipe at `addr`.
  abbrev from_pipe : Vfs F → ℕ → Pipe.Outcome → IoOutcome F
  from_pipe v addr (Pipe.returned reply buffer p k) =
      returned reply buffer (record v { pipes = set_at v.pipes addr p; kernel = k })
  from_pipe v addr (Pipe.waiting p k) =
      waiting (record v { pipes = set_at v.pipes addr p; kernel = k })
  from_pipe v addr Pipe.out_of_fuel = out_of_fuel

  -- `file->pos += n` on a `uint32_t`.
  abbrev pub advance : Vfs F → ℕ → ℕ → Vfs F
  advance v fd n = record v {
    files = set_at v.files fd (record (v.files fd) { pos = ((v.files fd).pos + n) % 2 ^ 32 });
  }

  module _ (ops : ℕ → NodeOps F) (others : List Meanwhile) where
    pub vfs_read : Vfs F → ℕ → List ℕ → ℕ → IoOutcome F
    vfs_read v fd buffer size =
        let file = v.files fd in
        if not (is_open_fd v fd)
        then returned (err ebadf) buffer v
        else if file.kind == vfs_type_pipe
        then if file.pipe == 0
          then returned (err einval) buffer v
          else from_pipe v file.pipe (pipe_read others (v.pipes file.pipe) v.kernel buffer size)
        else if file.node == 0
        then returned (err ebadf) buffer v
        else if has_flag file.flags o_wronly && not (has_flag file.flags o_rdwr)
        then returned (err eacces) buffer v
        else elim (ops file.node).read [
          | none ↦ returned (err eio) buffer v
          | some read ↦
              let (reply, bytes, v') = read file.node file.pos size v in
              elim reply [
                | err e ↦ returned (err e) bytes v'
                | ok n ↦ returned (ok n) bytes (if ltb 0 n then advance v' fd n else v')
              ]
        ]

    -- `if (file->pos > file->node->size) file->node->size = file->pos;`
    abbrev pub grow : Vfs F → ℕ → ℕ → Vfs F
    grow v fd node =
        if ltb (v.sizes node) (v.files fd).pos
        then record v { sizes = set_at v.sizes node (v.files fd).pos }
        else v

    pub vfs_write : Vfs F → ℕ → List ℕ → IoOutcome F
    vfs_write v fd buffer =
        let file = v.files fd in
        if not (is_open_fd v fd)
        then returned (err ebadf) [] v
        else if file.kind == vfs_type_pipe
        then if file.pipe == 0
          then returned (err einval) [] v
          else from_pipe v file.pipe
              (pipe_write others (v.pipes file.pipe) v.kernel buffer (length buffer))
        else if file.node == 0
        then returned (err ebadf) [] v
        else if has_flag file.flags o_rdonly && not (has_flag file.flags o_rdwr)
        then returned (err eacces) [] v
        else elim (ops file.node).write [
          | none ↦ returned (err eio) [] v
          | some write ↦
              let (reply, v') = write file.node file.pos buffer v in
              elim reply [
                | err e ↦ returned (err e) [] v'
                | ok n ↦
                    returned (ok n) [] (if ltb 0 n then grow (advance v' fd n) fd file.node else v')
              ]
        ]

  abbrev pub seek_base : Vfs F → ℕ → Whence → Option ℕ
  seek_base v fd seek_set = some 0
  seek_base v fd seek_cur = some (v.files fd).pos
  seek_base v fd seek_end = some (v.sizes (v.files fd).node)
  seek_base v fd other = none

  -- `vfs_seek`, the offset as its 32-bit pattern; `none` for -1 with `errno` left as it is, which a
  -- descriptor without a node gives.
  pub vfs_seek : Vfs F → ℕ → ℕ → Whence → Option Reply × Vfs F
  vfs_seek v fd offset whence =
      if not (is_open_fd v fd)
      then (some (err ebadf), v)
      else if (v.files fd).node == 0
      then (none, v)
      else elim (seek_base v fd whence) [
        | none ↦ (some (err einval), v)
        | some base ↦
            let new_pos = (base + offset) % 2 ^ 32 in
            (
              some (ok new_pos),
              record v { files = set_at v.files fd (record (v.files fd) { pos = new_pos }) },
            )
      ]
