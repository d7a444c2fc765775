-- ===== src/Vfs/Table/Create.antt =====
-- `vfs_create_pipe`: the two descriptors of a new pipe, and what is undone when one is missing.
use thunderos.Prelude.{
  ◌≤◌, ◌<◌, ℕ, ◌≡◌, ◌≢◌, inl, inr, ◌∙◌, sym, refl, ap, List, Option, none, some, true, false, ◌==◌,
  ltb, Bool-cases, Option-cases, arith,
}
use thunderos.Errno.{Reply, ok, err, emfile}
use thunderos.Pipe.{Pipe, pipe_create, pipe_free}
use thunderos.Pipe.Close.{pipe_create-one_each}
use thunderos.Vfs.Table.{
  free_file, pipe_end, Vfs, set_at, vfs_max_open_files, vfs_fd_first_regular, vfs_alloc_fd,
  vfs_free_fd, o_rdonly, o_wronly, vfs_create_pipe, pipe_fds, second_fd,
}
use thunderos.Vfs.Table.Alloc.{TookLowest, vfs_alloc_fd-TookLowest}
use thunderos.Vfs.Table.Pipes.{Piped}

-- The two calls of `vfs_alloc_fd`.
module _ {F : Type 0} (v : Vfs F) (addr : ℕ) where
  fds-none :
      vfs_alloc_fd v ≡ (err emfile, v)
      → pipe_fds v addr ≡ (none, err emfile, record v { kernel = pipe_free v.kernel addr })
  unfolding pipe_fds
  fds-none h = rw (pipe_fds, ap (λ r. r.0) h, ap (λ r. r.1) h) refl

  abbrev taken : (a : TookLowest v (vfs_alloc_fd v)) → Vfs F
  taken a = record v { files = set_at v.files a.fd (record free_file { in_use = true }) }

  fds-first : (a : TookLowest v (vfs_alloc_fd v)) → pipe_fds v addr ≡ second_fd (taken a) addr a.fd
  unfolding pipe_fds
  fds-first a = rw (pipe_fds, a.reply, a.state) refl

  second-none :
      (r : ℕ) (u : Vfs F)
      → vfs_alloc_fd u ≡ (err emfile, u)
      → second_fd u addr r ≡ (
        none,
        err emfile,
        record (vfs_free_fd u r) { kernel = pipe_free (vfs_free_fd u r).kernel addr },
      )
  unfolding second_fd
  second-none r u h = rw (second_fd, ap (λ r. r.0) h, ap (λ r. r.1) h) refl

  fds-one :
      (a : TookLowest v (vfs_alloc_fd v))
      → vfs_alloc_fd (taken a) ≡ (err emfile, taken a)
      → pipe_fds v addr ≡ (
        none,
        err emfile,
        record (vfs_free_fd (taken a) a.fd) {
          kernel = pipe_free (vfs_free_fd (taken a) a.fd).kernel addr;
        },
      )
  fds-one a h = fds-first a ∙ second-none a.fd (taken a) h

module _ {F : Type 0} where
  free-kernel : (v : Vfs F) (fd : ℕ) → (vfs_free_fd v fd).kernel ≡ v.kernel
  unfolding vfs_free_fd
  free-kernel v fd = elim (Bool-cases (ltb fd vfs_max_open_files)) [
    | inl h ↦ rw h refl
    | inr h ↦ rw h refl
  ]

  -- Allocating and freeing leaves the same descriptors in use.
  undone :
      (v : Vfs F) (addr : ℕ) (a : TookLowest v (vfs_alloc_fd v)) (i : ℕ)
      → ((vfs_free_fd (taken v addr a) a.fd).files i).in_use ≡ (v.files i).in_use
  unfolding vfs_free_fd
  undone v addr a i =
      let inside : ltb a.fd vfs_max_open_files ≡ true = ground (arith, a.in_table) in
      rw inside (elim (Bool-cases (a.fd == i)) [
        | inr d ↦ rw d refl
        | inl e ↦ rw e (sym a.was_free ∙ ap (λ j. (v.files j).in_use) (ground (arith, e)))
      ])

-- At most one of the descriptors from 3 to 15 is free.
abbrev pub AtMostOneFree : {F : Type 0} → Vfs F → Type 0
AtMostOneFree v =
    (a : ℕ) × ((j : ℕ)
      → vfs_fd_first_regular ≤ j
      → j < vfs_max_open_files
      → j ≢ a
      → (v.files j).in_use ≡ true)

-- Another descriptor that is in use after an allocation was in use before.
all_but :
    {F : Type 0} (v : Vfs F) (addr : ℕ) (a : TookLowest v (vfs_alloc_fd v)) (j : ℕ)
    → j ≢ a.fd
    → ((taken v addr a).files j).in_use ≡ true
    → (v.files j).in_use ≡ true
all_but v addr a j n h = ground (arith, n, h)

-- Both descriptors.
module _ {F : Type 0} (v : Vfs F) (addr : ℕ) (a : TookLowest v (vfs_alloc_fd v))
    (b : TookLowest (taken v addr a) (vfs_alloc_fd (taken v addr a))) where
  abbrev both : Vfs F
  both = record v {
    files =
        set_at (set_at (taken (taken v addr a) addr b).files a.fd (pipe_end o_rdonly addr)) b.fd
          (pipe_end o_wronly addr);
  }

  fds-two : pipe_fds v addr ≡ (some (a.fd, b.fd), ok 0, both)
  unfolding second_fd
  fds-two = fds-first v addr a ∙ rw (second_fd, b.reply, b.state) refl

  fds-differ : a.fd ≢ b.fd
  fds-differ e = ground (arith, b.was_free, e)

  second_free : (v.files b.fd).in_use ≡ false
  second_free = ground (arith, b.was_free, fds-differ)

  both-read : both.files a.fd ≡ pipe_end o_rdonly addr
  both-read = ground (arith, fds-differ)

  both-write : both.files b.fd ≡ pipe_end o_wronly addr
  both-write = ground arith

  both-other : (i : ℕ) → a.fd ≢ i → b.fd ≢ i → both.files i ≡ v.files i
  both-other i d e = ground (arith, d, e)

module _ {F : Type 0} (v : Vfs F) (sizeof_pipe : ℕ) (memory : List ℕ) where
  -- The ends of `vfs_create_pipe`.
  pub data CreateEnds (r : Option (ℕ × ℕ) × Reply × Vfs F) : Type 0 where
    no_pipe :
        (pipe_create v.kernel sizeof_pipe memory).0 ≡ none
        → r ≡ (
          none,
          (pipe_create v.kernel sizeof_pipe memory).1,
          record v { kernel = (pipe_create v.kernel sizeof_pipe memory).2 },
        )
        → CreateEnds r
    no_fd :
        (addr : ℕ) (p : Pipe)
        → (pipe_create v.kernel sizeof_pipe memory).0 ≡ some (addr, p)
        → AtMostOneFree v
        → r.0 ≡ none
        → r.1 ≡ err emfile
        → r.2.kernel ≡ pipe_free (pipe_create v.kernel sizeof_pipe memory).2 addr
        → ((i : ℕ) → (r.2.files i).in_use ≡ (v.files i).in_use)
        → CreateEnds r
    made :
        (addr rd wr : ℕ) (p : Pipe)
        → (pipe_create v.kernel sizeof_pipe memory).0 ≡ some (addr, p)
        → r.2.kernel ≡ (pipe_create v.kernel sizeof_pipe memory).2
        → r.0 ≡ some (rd, wr)
        → r.1 ≡ ok 0
        → (v.files rd).in_use ≡ false
        → (v.files wr).in_use ≡ false
        → Piped r.2 addr rd wr
        → ((i : ℕ) → rd ≢ i → wr ≢ i → r.2.files i ≡ v.files i)
        → CreateEnds r

  create-no_pipe :
      (pipe_create v.kernel sizeof_pipe memory).0 ≡ none
      → vfs_create_pipe v sizeof_pipe memory ≡ (
        none,
        (pipe_create v.kernel sizeof_pipe memory).1,
        record v { kernel = (pipe_create v.kernel sizeof_pipe memory).2 },
      )
  unfolding vfs_create_pipe
  create-no_pipe e = rw (vfs_create_pipe, e) refl

  -- `vfs_create_pipe` when the pipe is there.
  module _ (addr : ℕ) (p : Pipe)
      (made_pipe : (pipe_create v.kernel sizeof_pipe memory).0 ≡ some (addr, p)) where
    abbrev with_pipe : Vfs F
    with_pipe = record v {
      kernel = (pipe_create v.kernel sizeof_pipe memory).2;
      pipes = set_at v.pipes addr p;
    }

    create-fds : vfs_create_pipe v sizeof_pipe memory ≡ pipe_fds with_pipe addr
    unfolding vfs_create_pipe
    create-fds = rw (vfs_create_pipe, made_pipe) refl

    fds-ends : CreateEnds (pipe_fds with_pipe addr)
    fds-ends = elim (vfs_alloc_fd-TookLowest with_pipe) [
      | inl (all, e) ↦
          rw (fds-none with_pipe addr e)
            (no_fd addr p made_pipe (0, λ j a b _. all j a b) refl refl refl (λ i. refl))
      | inr a ↦ elim (vfs_alloc_fd-TookLowest (taken with_pipe addr a)) [
        | inl (all, e) ↦ rw (fds-one with_pipe addr a e) (
            no_fd addr p made_pipe (a.fd, λ j c d n. all_but with_pipe addr a j n (all j c d)) refl
              refl (ap (λ k. pipe_free k addr) (free-kernel (taken with_pipe addr a) a.fd))
              (λ i. undone with_pipe addr a i))
        | inr b ↦
            let (there, one_r, one_w, s) =
              pipe_create-one_each v.kernel sizeof_pipe memory addr p made_pipe in
            rw (fds-two with_pipe addr a b) (
              made addr a.fd b.fd p made_pipe refl refl refl a.was_free
                (second_free with_pipe addr a b)
                (record {
                  there = there;
                  differ = fds-differ with_pipe addr a b;
                  read_in_table = a.in_table;
                  write_in_table = b.in_table;
                  read_end = both-read with_pipe addr a b;
                  write_end = both-write with_pipe addr a b;
                  one_reader = rw here one_r;
                  one_writer = rw here one_w;
                  in_step = rw here s;
                })
                (both-other with_pipe addr a b))
      ]
    ]
      where
        here : (addr == addr) ≡ true
        here = ground arith

  -- `vfs_create_pipe` returns the reply of `pipe_create` when that gives no pipe. When fewer than
  -- two of the descriptors from 3 to 15 are free it fails with EMFILE, has the pipe freed, and the
  -- same descriptors are in use as before. Otherwise it returns 0 and two descriptors that were
  -- free, the first for the read end and the second for the write end of a pipe with one reader and
  -- one writer, and the entries of all other descriptors are kept.
  pub vfs_create_pipe-CreateEnds : CreateEnds (vfs_create_pipe v sizeof_pipe memory)
  vfs_create_pipe-CreateEnds = elim (Option-cases (pipe_create v.kernel sizeof_pipe memory).0) [
    | inl e ↦ rw (create-no_pipe e) (no_pipe e refl)
    | inr ((addr, p), e) ↦ rw (create-fds addr p e) (fds-ends addr p e)
  ]
