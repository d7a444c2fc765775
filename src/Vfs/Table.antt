-- ===== src/Vfs/Table.antt =====
-- The descriptor table of kernel/fs/vfs.c: opening, closing and copying descriptors, pipes, and the
-- calls that read, write and seek by a descriptor. A descriptor is the 32-bit pattern of the `int`,
-- so that a negative one is 2^31 or more. A pointer is an address, 0 for NULL. `errno` is in the
-- reply.
pub mod Alloc
pub mod Close
pub mod Pipes
pub mod Create
pub mod Tests
use thunderos.Prelude.{
  ℕ, ◌+◌, ◌^◌, ◌%◌, Option, none, some, List, Bool, true, false, ◌==◌, not, ltb, ◌&&◌,
  if◌then◌else◌, bit_and,
}
use thunderos.Prelude.First.{first_from}
use thunderos.Errno.{Reply, ok, err, einval, enomem, ebadf, emfile, eacces, eio}
use thunderos.Kernel.{Kernel}
use thunderos.Pipe.{Pipe, pipe_create, pipe_close_read, pipe_close_write, pipe_can_free, pipe_free}

-- VFS_MAX_OPEN_FILES and VFS_FD_FIRST_REGULAR.
abbrev pub vfs_max_open_files : ℕ
vfs_max_open_files = 16

abbrev pub vfs_fd_first_regular : ℕ
vfs_fd_first_regular = 3

abbrev pub o_rdonly : ℕ
o_rdonly = 0

abbrev pub o_wronly : ℕ
o_wronly = 1

abbrev pub o_rdwr : ℕ
o_rdwr = 2

-- VFS_TYPE_FILE and VFS_TYPE_PIPE.
abbrev pub vfs_type_file : ℕ
vfs_type_file = 1

abbrev pub vfs_type_pipe : ℕ
vfs_type_pipe = 3

-- `flags & mask` as a test.
abbrev pub has_flag : ℕ → ℕ → Bool
has_flag flags mask = not (bit_and flags mask == 0)

-- `vfs_file_t`.
pub record File : Type 0 where
  pub node : ℕ
  pub flags : ℕ
  pub pos : ℕ
  pub in_use : Bool
  pub pipe : ℕ
  pub kind : ℕ

-- What `vfs_free_fd` leaves.
abbrev pub free_file : File
free_file = record { node = 0; flags = 0; pos = 0; in_use = false; pipe = 0; kind = vfs_type_file }

-- What `vfs_create_pipe` puts in the entry of an end.
abbrev pub pipe_end : ℕ → ℕ → File
pipe_end flags pipe = record {
  node = 0;
  flags = flags;
  pos = 0;
  in_use = true;
  pipe = pipe;
  kind = vfs_type_pipe;
}

-- The table, the pipes in memory, the kernel, and the mounted file system: the sizes of its nodes
-- and what else it keeps.
pub record Vfs (F : Type 0) : Type 0 where
  pub files : ℕ → File
  pub pipes : ℕ → Pipe
  pub kernel : Kernel
  pub sizes : ℕ → ℕ
  pub disk : F

abbrev pub set_at : {A : Type 0} → (ℕ → A) → ℕ → A → ℕ → A
set_at f i a j = if i == j then a else f j

-- The operations of a node that the file system provides, each on the node's address; `none` for a
-- missing one.
pub record NodeOps (F : Type 0) : Type 0 where
  pub read : Option (ℕ → ℕ → ℕ → Vfs F → Reply × List ℕ × Vfs F)
  pub write : Option (ℕ → ℕ → List ℕ → Vfs F → Reply × Vfs F)
  pub close : Option (ℕ → Vfs F → Vfs F)

-- The part of `vfs_close` for pipes: the end that is closed, by the flags, and the pipe itself.
abbrev pub close_end : ℕ → Pipe → Kernel → Pipe × Kernel
close_end flags p k =
    if has_flag flags o_rdonly
    then pipe_close_read p k
    else if has_flag flags o_wronly
    then pipe_close_write p k
    else (p, k)

module _ {F : Type 0} where
  -- `vfs_init`, without the mounted root, which it sets to NULL: `vfs_resolve_path` takes that as an
  -- argument.
  pub vfs_init : Vfs F → Vfs F
  vfs_init v = record v {
    files =
        λ i. if ltb i vfs_max_open_files then record free_file { in_use = ltb i 3 } else v.files i;
  }

  pub vfs_alloc_fd : Vfs F → Reply × Vfs F
  vfs_alloc_fd v = elim (first_from (λ i. not (v.files i).in_use) 13 vfs_fd_first_regular) [
    | none ↦ (err emfile, v)
    | some i ↦ (ok i, record v { files = set_at v.files i (record free_file { in_use = true }) })
  ]

  pub vfs_free_fd : Vfs F → ℕ → Vfs F
  vfs_free_fd v fd =
      if ltb fd vfs_max_open_files then record v { files = set_at v.files fd free_file } else v

  -- Whether `vfs_get_file` returns the entry, and not NULL with EBADF.
  abbrev pub is_open_fd : Vfs F → ℕ → Bool
  is_open_fd v fd = ltb fd vfs_max_open_files && (v.files fd).in_use

  pub close_pipe : Vfs F → File → Vfs F
  close_pipe v file =
      let (q, k) = close_end file.flags (v.pipes file.pipe) v.kernel in
      if (file.kind == vfs_type_pipe) && not (file.pipe == 0)
      then record v {
        pipes = set_at v.pipes file.pipe q;
        kernel = if pipe_can_free q then pipe_free k file.pipe else k;
      }
      else v

  module _ (ops : ℕ → NodeOps F) where
    pub close_node : Vfs F → File → Vfs F
    close_node v file =
        if file.node == 0
        then v
        else elim (ops file.node).close [ none ↦ v | some close ↦ close file.node v ]

    pub vfs_close : Vfs F → ℕ → Reply × Vfs F
    vfs_close v fd =
        if is_open_fd v fd
        then (let file = v.files fd in (ok 0, vfs_free_fd (close_node (close_pipe v file) file) fd))
        else (err ebadf, v)

    pub vfs_dup2 : Vfs F → ℕ → ℕ → Reply × Vfs F
    vfs_dup2 v oldfd newfd =
        if not (ltb newfd vfs_max_open_files)
        then (err einval, v)
        else if not (is_open_fd v oldfd)
        then (err ebadf, v)
        else if oldfd == newfd
        then (ok newfd, v)
        else let v' = if (v.files newfd).in_use then (vfs_close v newfd).1 else v in
          (
            ok newfd,
            record v' { files = set_at v'.files newfd (record (v'.files oldfd) { in_use = true }) },
          )

  -- The rest of `vfs_create_pipe` once the read end has the descriptor `r`, and once the pipe is there.
  second_fd : Vfs F → ℕ → ℕ → Option (ℕ × ℕ) × Reply × Vfs F
  second_fd v addr r =
      let (write_fd, v₃) = vfs_alloc_fd v in
      elim write_fd [
        | err e ↦
            let v₄ = vfs_free_fd v₃ r in
            (none, err e, record v₄ { kernel = pipe_free v₄.kernel addr })
        | ok w ↦ (
          some (r, w),
          ok 0,
          record v₃ {
            files = set_at (set_at v₃.files r (pipe_end o_rdonly addr)) w (pipe_end o_wronly addr);
          },
        )
      ]

  pipe_fds : Vfs F → ℕ → Option (ℕ × ℕ) × Reply × Vfs F
  pipe_fds v addr =
      let (read_fd, v₂) = vfs_alloc_fd v in
      elim read_fd [
        | err e ↦ (none, err e, record v₂ { kernel = pipe_free v₂.kernel addr })
        | ok r ↦ second_fd v₂ addr r
      ]

  -- `vfs_create_pipe` into an array that is not NULL: the two descriptors.
  pub vfs_create_pipe : Vfs F → ℕ → List ℕ → Option (ℕ × ℕ) × Reply × Vfs F
  vfs_create_pipe v sizeof_pipe memory =
      let (made, reply, k) = pipe_create v.kernel sizeof_pipe memory in
      elim made [
        | none ↦ (none, reply, record v { kernel = k })
        | some (addr, p) ↦ pipe_fds (record v { kernel = k; pipes = set_at v.pipes addr p }) addr
      ]
