-- ===== src/Ext2.antt =====
-- kernel/fs/ext2_alloc.c: the allocation of blocks and inodes of an ext2 file system from the bitmaps
-- of its groups. The disk is a parameter, a block device of sectors of 512 bytes; the block size is a
-- multiple of that. A block is the list of its bytes. The pointers to the file system are not NULL.
pub mod Alloc
pub mod Tests
use thunderos.Prelude.{
  ℕ, zero, suc, ◌+◌, ◌-◌, ◌*◌, ◌/◌, ◌%◌, ◌^◌, Option, none, some, List, [], ◌++◌, Bool, true, false,
  ◌==◌, leb, not, if◌then◌else◌, take, drop,
}
use thunderos.Prelude.First.{first_from}
use thunderos.Errno.{Reply, ok, err, eio, enomem, einval, efs_noblk, efs_noinode}
use thunderos.Kernel.{Kernel, kernel_kmalloc, kernel_kfree}
use thunderos.Pmm.{bitmap_test, bitmap_set, bitmap_clear}

abbrev pub sector_size : ℕ
sector_size = 512

-- `virtio_blk_read` and `virtio_blk_write` of one sector: the bytes read, and whether it was written.
pub record BlockDevice (D : Type 0) : Type 0 where
  pub read_sector : D → ℕ → Option (List ℕ) × D
  pub write_sector : D → ℕ → List ℕ → Bool × D

-- The fields of `ext2_group_desc_t` that allocation uses.
pub record GroupDesc : Type 0 where
  pub block_bitmap : ℕ
  pub inode_bitmap : ℕ
  pub free_blocks_count : ℕ
  pub free_inodes_count : ℕ

-- The fields of `ext2_fs_t` and its superblock, and what is around them.
pub record Ext2 (D : Type 0) : Type 0 where
  pub device : D
  pub kernel : Kernel
  pub block_size : ℕ
  pub num_groups : ℕ
  pub group_desc : ℕ → GroupDesc
  pub blocks_per_group : ℕ
  pub inodes_per_group : ℕ
  pub super_free_blocks : ℕ
  pub super_free_inodes : ℕ

-- `x--` and `x++` on 16 and on 32 bits.
abbrev pub down : ℕ → ℕ → ℕ
down bits x = (x + (2 ^ bits - 1)) % 2 ^ bits

abbrev pub up : ℕ → ℕ → ℕ
up bits x = (x + 1) % 2 ^ bits

-- `(block_num * block_size) / SECTOR_SIZE`.
abbrev pub first_sector : ℕ → ℕ → ℕ
first_sector block_num block_size = block_num * block_size % 2 ^ 32 / sector_size

module _ {D : Type 0} (dev : BlockDevice D) where
  -- The loop of `read_block`, from the `i`-th sector on.
  pub read_sectors : D → ℕ → ℕ → ℕ → Option (List ℕ) × D
  read_sectors d sector zero i = (some [], d)
  read_sectors d sector (suc n) i =
      let (bytes, d') = dev.read_sector d ((sector + i) % 2 ^ 32) in
      let (rest, d'') = read_sectors d' sector n (i + 1) in
      elim bytes [
        | none ↦ (none, d')
        | some xs ↦ elim rest [ none ↦ (none, d'') | some ys ↦ (some (xs ++ ys), d'') ]
      ]

  -- `read_block`: the bytes of the block, `none` for -1 with EIO.
  pub read_block : D → ℕ → ℕ → Option (List ℕ) × D
  unfolding read_sectors
  read_block d block_num block_size =
      read_sectors d (first_sector block_num block_size) (block_size / sector_size) 0

  -- The loop of `write_block`.
  pub write_sectors : D → ℕ → List ℕ → ℕ → ℕ → Bool × D
  write_sectors d sector buffer zero i = (true, d)
  write_sectors d sector buffer (suc n) i =
      let (written, d') =
        dev.write_sector d ((sector + i) % 2 ^ 32)
          (take sector_size (drop (i * sector_size) buffer)) in
      let rest = write_sectors d' sector buffer n (i + 1) in if written then rest else (false, d')

  -- `write_block`: whether it succeeded; `false` is -1 with EIO.
  pub write_block : D → ℕ → List ℕ → ℕ → Bool × D
  unfolding write_sectors
  write_block d block_num buffer block_size =
      write_sectors d (first_sector block_num block_size) buffer (block_size / sector_size) 0

  -- The part that both allocating calls share, on one bitmap: the number of the bit that was taken. The
  -- buffer is freed on every path.
  pub mark_first : Ext2 D → ℕ → ℕ → ℕ → Reply × Ext2 D
  mark_first fs bitmap_block per_group none_left =
      let (ptr, k) = kernel_kmalloc fs.kernel fs.block_size in
      if ptr == 0
      then (err enomem, record fs { kernel = k })
      else let (bytes, d) = read_block fs.device bitmap_block fs.block_size in
        let fs' = record fs { device = d; kernel = kernel_kfree k ptr } in
        elim bytes [
          | none ↦ (err eio, fs')
          | some bitmap ↦ elim (first_from (λ i. not (bitmap_test bitmap i)) per_group 0) [
            | none ↦ (err none_left, fs')
            | some i ↦
                let (written, d') =
                  write_block d bitmap_block (bitmap_set bitmap i) fs.block_size in
                let fs'' = record fs' { device = d' } in
                if written then (ok i, fs'') else (err eio, fs'')
          ]
        ]

  -- The part that both freeing calls share.
  pub unmark : Ext2 D → ℕ → ℕ → Reply × Ext2 D
  unmark fs bitmap_block offset =
      let (ptr, k) = kernel_kmalloc fs.kernel fs.block_size in
      if ptr == 0
      then (err enomem, record fs { kernel = k })
      else let (bytes, d) = read_block fs.device bitmap_block fs.block_size in
        let fs' = record fs { device = d; kernel = kernel_kfree k ptr } in
        elim bytes [
          | none ↦ (err eio, fs')
          | some bitmap ↦
              let (written, d') =
                write_block d bitmap_block (bitmap_clear bitmap offset) fs.block_size in
              let fs'' = record fs' { device = d' } in
              if written then (ok 0, fs'') else (err eio, fs'')
        ]

  -- The free counts of a group and of the superblock, changed on success.
  abbrev pub count_blocks : (ℕ → ℕ → ℕ) → Ext2 D → ℕ → Ext2 D
  count_blocks step fs group = record fs {
    group_desc = λ g.
        if group == g
        then record (fs.group_desc g) {
          free_blocks_count = step 16 (fs.group_desc g).free_blocks_count;
        }
        else fs.group_desc g;
    super_free_blocks = step 32 fs.super_free_blocks;
  }

  abbrev pub count_inodes : (ℕ → ℕ → ℕ) → Ext2 D → ℕ → Ext2 D
  count_inodes step fs group = record fs {
    group_desc = λ g.
        if group == g
        then record (fs.group_desc g) {
          free_inodes_count = step 16 (fs.group_desc g).free_inodes_count;
        }
        else fs.group_desc g;
    super_free_inodes = step 32 fs.super_free_inodes;
  }

  -- `ext2_alloc_block`: `ok` has the block number, `err` is a returned 0 with its error code.
  pub ext2_alloc_block : Ext2 D → ℕ → Reply × Ext2 D
  unfolding mark_first
  ext2_alloc_block fs group =
      let gd = fs.group_desc group in
      if leb fs.num_groups group
      then (err einval, fs)
      else if gd.free_blocks_count == 0
      then (err efs_noblk, fs)
      else let (reply, fs') = mark_first fs gd.block_bitmap fs.blocks_per_group efs_noblk in
        elim reply [
          | err code ↦ (err code, fs')
          | ok i ↦ (ok ((group * fs.blocks_per_group + i) % 2 ^ 32), count_blocks down fs' group)
        ]

  -- `ext2_free_block`, for a superblock with blocks in a group.
  pub ext2_free_block : Ext2 D → ℕ → Reply × Ext2 D
  unfolding unmark
  ext2_free_block fs block_num =
      let group = block_num / fs.blocks_per_group in
      if block_num == 0
      then (err einval, fs)
      else if leb fs.num_groups group
      then (err einval, fs)
      else let (reply, fs') =
          unmark fs (fs.group_desc group).block_bitmap (block_num % fs.blocks_per_group) in
        elim reply [ err code ↦ (err code, fs') | ok _ ↦ (ok 0, count_blocks up fs' group) ]

  -- `ext2_alloc_inode`: the numbers start at 1.
  pub ext2_alloc_inode : Ext2 D → ℕ → Reply × Ext2 D
  unfolding mark_first
  ext2_alloc_inode fs group =
      let gd = fs.group_desc group in
      if leb fs.num_groups group
      then (err einval, fs)
      else if gd.free_inodes_count == 0
      then (err efs_noinode, fs)
      else let (reply, fs') = mark_first fs gd.inode_bitmap fs.inodes_per_group efs_noinode in
        elim reply [
          | err code ↦ (err code, fs')
          | ok i ↦
              (ok ((group * fs.inodes_per_group + i + 1) % 2 ^ 32), count_inodes down fs' group)
        ]

  -- `ext2_free_inode`, for a superblock with inodes in a group.
  pub ext2_free_inode : Ext2 D → ℕ → Reply × Ext2 D
  unfolding unmark
  ext2_free_inode fs inode_num =
      let inode_index = inode_num - 1 in
      let group = inode_index / fs.inodes_per_group in
      if inode_num == 0
      then (err einval, fs)
      else if leb fs.num_groups group
      then (err einval, fs)
      else let (reply, fs') =
          unmark fs (fs.group_desc group).inode_bitmap (inode_index % fs.inodes_per_group) in
        elim reply [ err code ↦ (err code, fs') | ok _ ↦ (ok 0, count_inodes up fs' group) ]
