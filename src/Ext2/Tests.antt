-- ===== src/Ext2/Tests.antt =====
-- The allocation at a disk of two groups, kept in memory.
use thunderos.Prelude.{ℕ, ◌+◌, some, List, ◌∷◌, true, ◌==◌, ◌||◌, if◌then◌else◌, replicate}
use thunderos.Kernel.{running}
use thunderos.Kernel.Tests.{machine}
use thunderos.Ext2.{BlockDevice, Ext2, ext2_alloc_block, ext2_alloc_inode}
use thunderos.Ext2.Alloc.{Allocated, blocks_free, inodes_free, ext2_alloc-Allocated}

-- A disk is its sectors; every request succeeds.
abbrev Sectors : Type 0
Sectors = ℕ → List ℕ

abbrev ram_disk : BlockDevice Sectors
ram_disk = record {
  read_sector = λ d s. (some (d s), d);
  write_sector = λ d s bytes. (true, λ t. if s == t then bytes else d t);
}

-- The bitmaps of group 1 are blocks 4 and 5, with the first three bits set.
abbrev sample : Ext2 Sectors
sample = record {
  device = λ s. if s == 8 || s == 10 then 7 ∷ replicate 511 0 else replicate 512 255;
  kernel = machine running;
  block_size = 1024;
  num_groups = 2;
  group_desc = λ g. record {
    block_bitmap = 4;
    inode_bitmap = 5;
    free_blocks_count = 200;
    free_inodes_count = 60;
  };
  blocks_per_group = 256;
  inodes_per_group = 64;
  super_free_blocks = 400;
  super_free_inodes = 120;
}

ext2_alloc-Allocated_example :
    Allocated ram_disk
      (λ g. g.block_bitmap)
      (λ g. g.free_blocks_count)
      (blocks_free ram_disk)
      256
      (λ i. i)
      sample
      1
      (ext2_alloc_block ram_disk sample 1)
    × Allocated ram_disk
        (λ g. g.inode_bitmap)
        (λ g. g.free_inodes_count)
        (inodes_free ram_disk)
        64
        (λ i. i + 1)
        sample
        1
        (ext2_alloc_inode ram_disk sample 1)
ext2_alloc-Allocated_example = ext2_alloc-Allocated ram_disk sample 1
