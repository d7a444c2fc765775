-- ===== src/Vfs/Table/Pipes.antt =====
-- Pipes by their descriptors: what `vfs_create_pipe`, `vfs_close` and `vfs_dup2` do to them.
use thunderos.Prelude.{
  ℕ, ◌<◌, ◌≡◌, ◌≢◌, inl, inr, ◌∙◌, refl, ap, List, true, false, ◌==◌, ltb, if◌then◌else◌,
  Bool-cases, arith,
}
use thunderos.Errno.{ok, err, epipe}
use thunderos.Kernel.{Kernel}
use thunderos.Pipe.{
  pipe_close_write, pipe_can_free, pipe_free, no_write_end, pipe_write, Meanwhile, returned,
}
use thunderos.Pipe.Close.{IsInStep, pipe_close_write-Closed, pipe_can_free-counts}
use thunderos.Pipe.Writing.{pipe_write-no_write_end}
use thunderos.Vfs.Table.{
  free_file, pipe_end, Vfs, NodeOps, set_at, vfs_max_open_files, vfs_free_fd, close_end, close_pipe,
  close_node, vfs_close, vfs_dup2, o_rdonly, o_wronly,
}

-- A table and pipes after the closing of an end.
abbrev pub end_closed : {F : Type 0} → Vfs F → ℕ → ℕ → ℕ → Vfs F
end_closed v fd flags addr =
    let (q, k) = close_end flags (v.pipes addr) v.kernel in
    record v {
      files = set_at v.files fd free_file;
      pipes = set_at v.pipes addr q;
      kernel = if pipe_can_free q then pipe_free k addr else k;
    }

module _ {F : Type 0} (ops : ℕ → NodeOps F) where
  close-pipe_end :
      (v : Vfs F) (fd flags addr : ℕ)
      → fd < vfs_max_open_files
      → v.files fd ≡ pipe_end flags addr
      → addr ≢ 0
      → vfs_close ops v fd ≡ (ok 0, end_closed v fd flags addr)
  unfolding vfs_close close_pipe close_node vfs_free_fd
  close-pipe_end v fd flags addr h e nz =
      let inside : ltb fd vfs_max_open_files ≡ true = ground (arith, h) in
      let there : (addr == 0) ≡ false = ground (arith, nz) in rw (inside, e, there) refl

  dup2-unused :
      (v : Vfs F) (oldfd newfd addr : ℕ)
      → oldfd < vfs_max_open_files
      → newfd < vfs_max_open_files
      → oldfd ≢ newfd
      → v.files oldfd ≡ pipe_end o_wronly addr
      → (v.files newfd).in_use ≡ false
      → vfs_dup2 ops v oldfd newfd
        ≡ (ok newfd, record v { files = set_at v.files newfd (pipe_end o_wronly addr) })
  unfolding vfs_dup2
  dup2-unused v oldfd newfd addr old new differ e unused =
      let a : ltb oldfd vfs_max_open_files ≡ true = ground (arith, old) in
      let b : ltb newfd vfs_max_open_files ≡ true = ground (arith, new) in
      let d : (oldfd == newfd) ≡ false = ground (arith, differ) in rw (a, b, d, unused, e) refl

  -- Closing a descriptor for the read end of a pipe frees the descriptor but does not close the
  -- read end: `vfs_close` returns 0, and the pipe and the kernel are as they were, for a pipe that
  -- could not be freed before. O_RDONLY is 0, so the test of the flags for it fails always.
  pub vfs_close-read_end :
      (v : Vfs F) (fd addr : ℕ)
      → fd < vfs_max_open_files
      → v.files fd ≡ pipe_end o_rdonly addr
      → addr ≢ 0
      → pipe_can_free (v.pipes addr) ≡ false
      → let (reply, v') = vfs_close ops v fd in
        (reply ≡ ok 0)
        × (v'.files ≡ set_at v.files fd free_file)
        × ((a : ℕ) → v'.pipes a ≡ v.pipes a)
        × (v'.kernel ≡ v.kernel)
  vfs_close-read_end v fd addr h e nz busy =
      rw (close-pipe_end v fd o_rdonly addr h e nz, busy) (refl, refl, same, refl)
    where
      same : (a : ℕ) → set_at v.pipes addr (v.pipes addr) a ≡ v.pipes a
      same a = elim (Bool-cases (addr == a)) [
        | inl s ↦ rw s (ap v.pipes (ground (arith, s)))
        | inr s ↦ rw s refl
      ]

-- Two descriptors for the ends of a pipe that nobody else has.
pub record Piped {F : Type 0} (v : Vfs F) (addr r w : ℕ) : Type 0 where
  pub there : addr ≢ 0
  pub differ : r ≢ w
  pub read_in_table : r < vfs_max_open_files
  pub write_in_table : w < vfs_max_open_files
  pub read_end : v.files r ≡ pipe_end o_rdonly addr
  pub write_end : v.files w ≡ pipe_end o_wronly addr
  pub one_reader : (v.pipes addr).read_ref_count ≡ 1
  pub one_writer : (v.pipes addr).write_ref_count ≡ 1
  pub in_step : IsInStep (v.pipes addr)

module _ {F : Type 0} (ops : ℕ → NodeOps F) where
  -- A pipe is leaked when both of its ends are closed, the read end first: the two descriptors are
  -- free again, but the pipe has still a reader and is not freed.
  pub vfs_close-leaks :
      (v : Vfs F) (addr r w : ℕ)
      → Piped v addr r w
      → let v' = (vfs_close ops (vfs_close ops v r).1 w).1 in
        (v'.files r ≡ free_file)
        × (v'.files w ≡ free_file)
        × ((v'.pipes addr).read_ref_count ≡ 1)
        × (pipe_can_free (v'.pipes addr) ≡ false)
        × (v'.kernel ≡ (pipe_close_write (v.pipes addr) v.kernel).1)
  vfs_close-leaks v addr r w p =
      let busy : pipe_can_free (v.pipes addr) ≡ false =
        pipe_can_free-counts (v.pipes addr) p.in_step ∙ ground (arith, p.one_reader) in
      let (c, _) =
        pipe_close_write-Closed (v.pipes addr) v.kernel p.in_step (omega (arith, p.one_writer)) in
      let still : pipe_can_free (pipe_close_write (v.pipes addr) v.kernel).0 ≡ false =
        c.freeable ∙ ground (arith, p.one_reader) in
      let v₁ = end_closed v r o_rdonly addr in
      let kept : v₁.files w ≡ pipe_end o_wronly addr = other ∙ p.write_end in
      rw
        (
          close-pipe_end ops v r o_rdonly addr p.read_in_table p.read_end p.there,
          close-pipe_end ops v₁ w o_wronly addr p.write_in_table kept p.there,
          here,
          busy,
          still,
        )
        (ground arith, ground arith, c.readers_left ∙ p.one_reader, refl, refl)
    where
      here : (addr == addr) ≡ true
      here = ground arith

      other : set_at v.files r free_file w ≡ v.files w
      other = ground (arith, p.differ)

  -- A copy of a descriptor does not count as a writer. When `vfs_dup2` has copied the only
  -- descriptor for the write end of a pipe to a free one, closing the copy closes the write end:
  -- the descriptor that is left is open still, but every write to its pipe fails with EPIPE.
  pub vfs_close-vfs_dup2 :
      (v : Vfs F) (oldfd newfd addr : ℕ)
      → oldfd < vfs_max_open_files
      → newfd < vfs_max_open_files
      → oldfd ≢ newfd
      → v.files oldfd ≡ pipe_end o_wronly addr
      → (v.files newfd).in_use ≡ false
      → addr ≢ 0
      → IsInStep (v.pipes addr)
      → (v.pipes addr).write_ref_count ≡ 1
      → let v' = (vfs_close ops (vfs_dup2 ops v oldfd newfd).1 newfd).1 in
        (v'.files oldfd ≡ pipe_end o_wronly addr)
        × ((others : List Meanwhile) (k : Kernel) (src : List ℕ) (count : ℕ)
            → pipe_write others (v'.pipes addr) k src count
              ≡ returned (err epipe) src (v'.pipes addr) k)
  vfs_close-vfs_dup2 v oldfd newfd addr old new differ e unused nz s one =
      let (c, _) = pipe_close_write-Closed (v.pipes addr) v.kernel s (omega (arith, one)) in
      let shut : no_write_end (pipe_close_write (v.pipes addr) v.kernel).0.state ≡ true =
        ap no_write_end c.in_step ∙ ground (arith, c.writers_left, one) in
      let v₁ : Vfs F = record v { files = set_at v.files newfd (pipe_end o_wronly addr) } in
      rw
        (
          dup2-unused ops v oldfd newfd addr old new differ e unused,
          close-pipe_end ops v₁ newfd o_wronly addr new copy nz,
          here,
        )
        (kept ∙ e, λ others k src count. pipe_write-no_write_end others _ k src count shut)
    where
      copy : set_at v.files newfd (pipe_end o_wronly addr) newfd ≡ pipe_end o_wronly addr
      copy = ground arith

      here : (addr == addr) ≡ true
      here = ground arith

      kept :
          set_at (set_at v.files newfd (pipe_end o_wronly addr)) newfd free_file oldfd
          ≡ v.files oldfd
      kept = ground (arith, differ)
