-- ===== src/Vfs/Table/Close.antt =====
-- `vfs_close` and `vfs_dup2` on the descriptor table.
use thunderos.Prelude.{
  ℕ, ◌<◌, ◌≡◌, ◌≢◌, ◌⊎◌, inl, inr, ◌∙◌, sym, refl, ap, some, Bool, true, false, ◌==◌, not, ltb,
  ◌&&◌, if◌then◌else◌, Bool-cases, Option-cases, ℕ_discrete, arith,
}
use thunderos.Errno.{Reply, ok, err, ebadf, einval}
use thunderos.Vfs.Table.{
  File, free_file, Vfs, NodeOps, set_at, vfs_max_open_files, is_open_fd, vfs_free_fd, close_pipe,
  close_node, vfs_close, vfs_dup2, vfs_type_pipe,
}

-- The file system's `close` leaves the descriptor table alone.
abbrev pub KeepsFiles : {F : Type 0} → (ℕ → NodeOps F) → Type 0
KeepsFiles {F} ops =
    (node : ℕ) (close : ℕ → Vfs F → Vfs F)
    → (ops node).close ≡ some close
    → (v : Vfs F) → (close node v).files ≡ v.files

module _ {F : Type 0} (ops : ℕ → NodeOps F) (keeps : KeepsFiles ops) where
  close_pipe-files : (v : Vfs F) (file : File) → (close_pipe v file).files ≡ v.files
  unfolding close_pipe
  close_pipe-files v file =
      elim (Bool-cases ((file.kind == vfs_type_pipe) && not (file.pipe == 0))) [
        | inl h ↦ rw h refl
        | inr h ↦ rw h refl
      ]

  close_node-files : (v : Vfs F) (file : File) → (close_node ops v file).files ≡ v.files
  unfolding close_node
  close_node-files v file = elim (Bool-cases (file.node == 0)) [
    | inl h ↦ rw h refl
    | inr h ↦ elim (Option-cases (ops file.node).close) [
      | inl e ↦ rw (h, e) refl
      | inr (close, e) ↦ rw (h, e) (keeps file.node close e v)
    ]
  ]

  pub close-closed :
      (v : Vfs F) (fd : ℕ) → is_open_fd v fd ≡ false → vfs_close ops v fd ≡ (err ebadf, v)
  unfolding vfs_close
  close-closed v fd h = rw h refl

  pub close-open :
      (v : Vfs F) (fd : ℕ)
      → is_open_fd v fd ≡ true
      → vfs_close ops v fd
        ≡ (ok 0, vfs_free_fd (close_node ops (close_pipe v (v.files fd)) (v.files fd)) fd)
  unfolding vfs_close
  close-open v fd h = rw h refl

  free-files :
      (v : Vfs F) (fd : ℕ)
      → fd < vfs_max_open_files
      → (vfs_free_fd v fd).files ≡ set_at v.files fd free_file
  unfolding vfs_free_fd
  free-files v fd h = let e : ltb fd 16 ≡ true = ground (arith, h) in rw e refl

  pub close-files :
      (v : Vfs F) (fd : ℕ)
      → is_open_fd v fd ≡ true
      → (vfs_close ops v fd).1.files ≡ set_at v.files fd free_file
  close-files v fd h =
      ap (λ r. r.1.files) (close-open v fd h)
      ∙ free-files (close_node ops (close_pipe v (v.files fd)) (v.files fd)) fd (ground (arith, h))
      ∙ ap (λ f. set_at f fd free_file)
          (close_node-files (close_pipe v (v.files fd)) (v.files fd)
            ∙ close_pipe-files v (v.files fd))

  -- `vfs_close` of a descriptor that is out of range or not in use fails with EBADF and changes
  -- nothing. Otherwise it returns 0, the descriptor's entry is reset and free, and all others are
  -- kept. The file system's own `close` is assumed to leave the table alone.
  pub vfs_close-files :
      (v : Vfs F) (fd : ℕ)
      → ((is_open_fd v fd ≡ false) × (vfs_close ops v fd ≡ (err ebadf, v)))
        ⊎ ((is_open_fd v fd ≡ true)
            × ((vfs_close ops v fd).0 ≡ ok 0)
            × ((vfs_close ops v fd).1.files ≡ set_at v.files fd free_file))
  vfs_close-files v fd = elim (Bool-cases (is_open_fd v fd)) [
    | inl h ↦ inr (h, ap (λ r. r.0) (close-open v fd h), close-files v fd h)
    | inr h ↦ inl (h, close-closed v fd h)
  ]

  -- The ends of `vfs_dup2`.
  pub data DupEnds (v : Vfs F) (oldfd newfd : ℕ) (r : Reply × Vfs F) : Type 0 where
    out_of_range :
        (ltb newfd vfs_max_open_files ≡ false) → r ≡ (err einval, v) → DupEnds v oldfd newfd r
    not_open : is_open_fd v oldfd ≡ false → r ≡ (err ebadf, v) → DupEnds v oldfd newfd r
    same :
        ltb newfd vfs_max_open_files ≡ true
        → is_open_fd v oldfd ≡ true
        → oldfd ≡ newfd
        → r ≡ (ok newfd, v)
        → DupEnds v oldfd newfd r
    copied :
        ltb newfd vfs_max_open_files ≡ true
        → is_open_fd v oldfd ≡ true
        → oldfd ≢ newfd
        → r.0 ≡ ok newfd
        → ((i : ℕ) → r.1.files i ≡ (if newfd == i then v.files oldfd else v.files i))
        → DupEnds v oldfd newfd r

  -- `vfs_dup2` fails with EINVAL for a new descriptor out of range and with EBADF for an old one
  -- that is not open, and changes nothing then, nor when both are the same. Otherwise it returns
  -- the new descriptor, which has the entry of the old one, and all other entries are kept. The
  -- file system's own `close` is assumed to leave the table alone.
  pub vfs_dup2-DupEnds :
      (v : Vfs F) (oldfd newfd : ℕ) → DupEnds v oldfd newfd (vfs_dup2 ops v oldfd newfd)
  unfolding vfs_dup2
  vfs_dup2-DupEnds v oldfd newfd = elim (Bool-cases (ltb newfd vfs_max_open_files)) [
    | inr far ↦ out_of_range far (rw far refl)
    | inl near ↦ elim (Bool-cases (is_open_fd v oldfd)) [
      | inr shut ↦ not_open shut (rw (near, shut) refl)
      | inl live ↦ elim (ℕ_discrete oldfd newfd) [
        | yes e ↦
            same near live e
              (let t : (oldfd == newfd) ≡ true = ground (arith, e) in rw (near, live, t) refl)
        | no n ↦
            let t : (oldfd == newfd) ≡ false = ground (arith, n) in
            elim (Bool-cases (v.files newfd).in_use) [
              | inr unused ↦
                  rw (near, live, t, unused)
                    (copied near live n refl (λ i. copy v.files i live n (λ j _. refl)))
              | inl used ↦
                  let files = close-files v newfd (rw (near, used) refl) in
                  rw (near, live, t, used)
                    (copied near live n refl (λ i.
                      copy (vfs_close ops v newfd).1.files i live n
                        (λ j d. ap (λ f. f j) files ∙ other j d)))
            ]
      ]
    ]
  ]
    where
      other : (j : ℕ) → newfd ≢ j → set_at v.files newfd free_file j ≡ v.files j
      other j d = ground (arith, d)

      copy :
          (f : ℕ → File) (i : ℕ)
          → is_open_fd v oldfd ≡ true
          → oldfd ≢ newfd
          → ((j : ℕ) → newfd ≢ j → f j ≡ v.files j)
          → set_at f newfd (record (f oldfd) { in_use = true }) i
            ≡ (if newfd == i then v.files oldfd else v.files i)
      copy f i live n kept = elim (Bool-cases (newfd == i)) [
        | inr d ↦ rw d (kept i (ground (arith, d)))
        | inl e ↦
            let used : (v.files oldfd).in_use ≡ true = ground (arith, live) in
            rw e (
              ap (λ (x : File). record x { in_use = true }) (kept oldfd (λ z. n (sym z)))
              ∙ ap (λ (b : Bool). record (v.files oldfd) { in_use = b }) (sym used))
      ]
