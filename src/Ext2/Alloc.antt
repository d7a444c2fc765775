-- ===== src/Ext2/Alloc.antt =====
-- How `ext2_alloc_block` and `ext2_alloc_inode` of kernel/fs/ext2_alloc.c end, on any block device.
use thunderos.Prelude.{
  ℕ, ◌+◌, ◌*◌, ◌%◌, ◌^◌, ◌<◌, ◌≡◌, ◌≢◌, refl, ap, some, List, true, false, ◌==◌, leb, not,
  Bool-cases, Option-cases, inl, inr, arith,
}
use thunderos.Prelude.First.{missing, found, first_from-Found}
use thunderos.Errno.{Reply, ok, err, eio, enomem, einval, efs_noblk, efs_noinode}
use thunderos.Kernel.{Kernel, kernel_kmalloc}
use thunderos.Pmm.{bitmap_test, bitmap_set}
use thunderos.Ext2.{
  BlockDevice, Ext2, GroupDesc, read_block, write_block, mark_first, down, ext2_alloc_block,
  ext2_alloc_inode,
}

-- All of the file system but the device and the kernel around it.
pub record SameCounts {D : Type 0} (fs fs' : Ext2 D) : Type 0 where
  pub same_group_desc : fs'.group_desc ≡ fs.group_desc
  pub same_free_blocks : fs'.super_free_blocks ≡ fs.super_free_blocks
  pub same_free_inodes : fs'.super_free_inodes ≡ fs.super_free_inodes

unchanged :
    {D : Type 0} {fs : Ext2 D} {d : D} {k : Kernel}
    → SameCounts fs (record fs { device = d; kernel = k })
unchanged = record { same_group_desc = refl; same_free_blocks = refl; same_free_inodes = refl }

module _ {D : Type 0} (dev : BlockDevice D) where
  -- A bit taken: the lowest that is clear in the bitmap that was read, set in the bitmap that was
  -- written.
  pub record Marked (fs : Ext2 D) (bitmap_block per_group i : ℕ) (after_write : D) : Type 0 where
    pub bitmap : List ℕ
    pub after_read : D
    pub was_read : read_block dev fs.device bitmap_block fs.block_size ≡ (some bitmap, after_read)
    pub in_group : i < per_group
    pub was_clear : bitmap_test bitmap i ≡ false
    pub lowest : (j : ℕ) → j < i → bitmap_test bitmap j ≡ true
    pub was_written :
        write_block dev after_read bitmap_block (bitmap_set bitmap i) fs.block_size
        ≡ (true, after_write)

  -- The two ways in which the shared part ends.
  pub data Marks (fs : Ext2 D) (bitmap_block per_group : ℕ) (r : Reply × Ext2 D) : Type 0 where
    failed : (code : ℕ) → r.0 ≡ err code → SameCounts fs r.1 → Marks fs bitmap_block per_group r
    marked :
        (i : ℕ)
        → r.0 ≡ ok i
        → Marked fs bitmap_block per_group i r.1.device
        → SameCounts fs r.1
        → Marks fs bitmap_block per_group r

  mark_first-Marks :
      (fs : Ext2 D) (bitmap_block per_group none_left : ℕ)
      → Marks fs bitmap_block per_group (mark_first dev fs bitmap_block per_group none_left)
  unfolding mark_first
  mark_first-Marks fs bitmap_block per_group none_left =
      elim (Bool-cases ((kernel_kmalloc fs.kernel fs.block_size).0 == 0)) [
        | inl z ↦ rw z (failed enomem refl unchanged)
        | inr nz ↦ elim (Option-cases (read_block dev fs.device bitmap_block fs.block_size).0) [
          | inl e ↦ rw (nz, e) (failed eio refl unchanged)
          | inr (bitmap, e) ↦
              elim (first_from-Found (λ i. not (bitmap_test bitmap i)) per_group 0) [
                | missing f g ↦ rw (nz, e, g) (failed none_left refl unchanged)
                | found i le lt c f g ↦
                    elim (Bool-cases
                      (write_block dev d bitmap_block (bitmap_set bitmap i) fs.block_size).0) [
                        | inr w ↦ rw (nz, e, g, w) (failed eio refl unchanged)
                        | inl w ↦
                            rw (nz, e, g, w)
                              (marked i refl
                                (record {
                                  bitmap = bitmap;
                                  after_read = d;
                                  was_read = ap (λ b. (b, d)) e;
                                  in_group = omega (arith, lt);
                                  was_clear = ground arith;
                                  lowest = λ j l. ground (arith, f j (omega arith) l);
                                  was_written =
                                      ap
                                        (λ b. (
                                          b,
                                          (write_block dev d bitmap_block (bitmap_set bitmap i)
                                              fs.block_size).1,
                                        ))
                                        w;
                                })
                                unchanged)
                      ]
              ]
        ]
      ]
    where
      d : D
      d = (read_block dev fs.device bitmap_block fs.block_size).1

  -- The two ways in which an allocation ends, for blocks and for inodes: `bits` is the block of the
  -- bitmap, `count` the group's free count, `total` that of the superblock, and `number` makes
  -- the number of an index.
  pub data Allocated (bits count : GroupDesc → ℕ) (total : Ext2 D → ℕ) (per_group : ℕ)
      (number : ℕ → ℕ) (fs : Ext2 D) (group : ℕ) (r : Reply × Ext2 D) : Type 0 where
    refused :
        (code : ℕ)
        → r.0 ≡ err code
        → SameCounts fs r.1
        → Allocated bits count total per_group number fs group r
    allocated :
        (i : ℕ)
        → r.0 ≡ ok (number (group * per_group + i) % 2 ^ 32)
        → group < fs.num_groups
        → count (fs.group_desc group) ≢ 0
        → Marked fs (bits (fs.group_desc group)) per_group i r.1.device
        → count (r.1.group_desc group) ≡ down 16 (count (fs.group_desc group))
        → ((g : ℕ) → g ≢ group → r.1.group_desc g ≡ fs.group_desc g)
        → total r.1 ≡ down 32 (total fs)
        → Allocated bits count total per_group number fs group r

  abbrev pub blocks_free : Ext2 D → ℕ
  blocks_free fs = fs.super_free_blocks

  abbrev pub inodes_free : Ext2 D → ℕ
  inodes_free fs = fs.super_free_inodes

  alloc_block-Allocated :
      (fs : Ext2 D) (group : ℕ)
      → Allocated
          (λ g. g.block_bitmap)
          (λ g. g.free_blocks_count)
          blocks_free
          fs.blocks_per_group
          (λ i. i)
          fs
          group
          (ext2_alloc_block dev fs group)
  unfolding ext2_alloc_block
  alloc_block-Allocated fs group = elim (Bool-cases (leb fs.num_groups group)) [
    | inl h ↦ rw h (refused einval refl unchanged)
    | inr h ↦ elim (Bool-cases ((fs.group_desc group).free_blocks_count == 0)) [
      | inl z ↦ rw (h, z) (refused efs_noblk refl unchanged)
      | inr z ↦
          elim (mark_first-Marks fs (fs.group_desc group).block_bitmap fs.blocks_per_group
            efs_noblk) [
              | failed code e same ↦ rw (h, z, e) (refused code refl same)
              | marked i e m same ↦
                  rw (h, z, e)
                    (allocated i refl (ground arith) (ground arith) m
                      (ground (arith, ap (λ f. (f group).free_blocks_count) same.same_group_desc))
                      (λ g ne. ground (arith, ap (λ f. f g) same.same_group_desc))
                      (ap (down 32) same.same_free_blocks))
            ]
    ]
  ]

  alloc_inode-Allocated :
      (fs : Ext2 D) (group : ℕ)
      → Allocated
          (λ g. g.inode_bitmap)
          (λ g. g.free_inodes_count)
          inodes_free
          fs.inodes_per_group
          (λ i. i + 1)
          fs
          group
          (ext2_alloc_inode dev fs group)
  unfolding ext2_alloc_inode
  alloc_inode-Allocated fs group = elim (Bool-cases (leb fs.num_groups group)) [
    | inl h ↦ rw h (refused einval refl unchanged)
    | inr h ↦ elim (Bool-cases ((fs.group_desc group).free_inodes_count == 0)) [
      | inl z ↦ rw (h, z) (refused efs_noinode refl unchanged)
      | inr z ↦
          elim (mark_first-Marks fs (fs.group_desc group).inode_bitmap fs.inodes_per_group
            efs_noinode) [
              | failed code e same ↦ rw (h, z, e) (refused code refl same)
              | marked i e m same ↦
                  rw (h, z, e)
                    (allocated i refl (ground arith) (ground arith) m
                      (ground (arith, ap (λ f. (f group).free_inodes_count) same.same_group_desc))
                      (λ g ne. ground (arith, ap (λ f. f g) same.same_group_desc))
                      (ap (down 32) same.same_free_inodes))
            ]
    ]
  ]

  -- `ext2_alloc_block` and `ext2_alloc_inode`, on any block device: each fails with an error code and
  -- changes no free count; or, in a group that exists and has something free, it takes the lowest bit
  -- that is clear in the bitmap it reads, writes the bitmap back with that bit set, counts it in the
  -- group and the superblock, changes no other group, and returns the number of that bit: blocks are
  -- numbered from 0 and inodes from 1.
  pub ext2_alloc-Allocated :
      (fs : Ext2 D) (group : ℕ)
      → Allocated
          (λ g. g.block_bitmap)
          (λ g. g.free_blocks_count)
          blocks_free
          fs.blocks_per_group
          (λ i. i)
          fs
          group
          (ext2_alloc_block dev fs group)
        × Allocated
            (λ g. g.inode_bitmap)
            (λ g. g.free_inodes_count)
            inodes_free
            fs.inodes_per_group
            (λ i. i + 1)
            fs
            group
            (ext2_alloc_inode dev fs group)
  ext2_alloc-Allocated fs group = (alloc_block-Allocated fs group, alloc_inode-Allocated fs group)
