-- ===== src/Vfs/Table/Alloc.antt =====
-- `vfs_alloc_fd` and `vfs_free_fd`.
use thunderos.Prelude.{ℕ, ◌≤◌, ◌<◌, ◌≡◌, ◌⊎◌, inl, inr, refl, Bool, true, false, not, arith}
use thunderos.Prelude.First.{missing, found, first_from-Found}
use thunderos.Errno.{Reply, ok, err, emfile}
use thunderos.Vfs.Table.{
  free_file, Vfs, set_at, vfs_max_open_files, vfs_fd_first_regular, vfs_alloc_fd,
}

module _ {F : Type 0} (v : Vfs F) where
  -- The entry `i` is the lowest free one for regular files, and it is taken and reset; all else is
  -- kept.
  pub record TookLowest (r : Reply × Vfs F) : Type 0 where
    pub fd : ℕ
    pub reply : r.0 ≡ ok fd
    pub regular : vfs_fd_first_regular ≤ fd
    pub in_table : fd < vfs_max_open_files
    pub was_free : (v.files fd).in_use ≡ false
    pub below : (j : ℕ) → vfs_fd_first_regular ≤ j → j < fd → (v.files j).in_use ≡ true
    pub state : r.1 ≡ record v { files = set_at v.files fd (record free_file { in_use = true }) }

  not-false : (b : Bool) → not b ≡ true → b ≡ false
  not-false true h = cc h
  not-false false h = refl

  not-true : (b : Bool) → not b ≡ false → b ≡ true
  not-true true h = refl
  not-true false h = cc h

  -- `vfs_alloc_fd` fails with EMFILE and changes nothing when all descriptors from 3 to 15 are in
  -- use; otherwise it returns the lowest free one of them, resets its entry, marks it as used, and
  -- keeps all else.
  pub vfs_alloc_fd-TookLowest :
      (((j : ℕ) → vfs_fd_first_regular ≤ j → j < vfs_max_open_files → (v.files j).in_use ≡ true)
        × (vfs_alloc_fd v ≡ (err emfile, v)))
      ⊎ TookLowest (vfs_alloc_fd v)
  unfolding vfs_alloc_fd
  vfs_alloc_fd-TookLowest =
      elim (first_from-Found (λ i. not (v.files i).in_use) 13 vfs_fd_first_regular) [
        | missing all e ↦
            inl (λ j a b. not-true _ (all j a (omega (arith, b))), rw (vfs_alloc_fd, e) refl)
        | found i a b h below e ↦ inr (
            rw (vfs_alloc_fd, e)
              (record {
                fd = i;
                reply = refl;
                regular = a;
                in_table = omega (arith, b);
                was_free = not-false _ h;
                below = λ j c d. not-true _ (below j c d);
                state = refl;
              }))
      ]
