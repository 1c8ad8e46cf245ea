-- ===== src/Ext2/Examples.antt =====
-- drivers/formats/ext2.cpp: the theorems at concrete partitions.
use jsd_os.Prelude.{◌+◌, ◌*◌, ◌≡◌, ◌≢◌, refl, [], ◌∷◌, ◌==◌, if◌then◌else◌, arith}
use jsd_os.Prelude.Words.{add32}
use jsd_os.Ext2.{
  Ext2Fs, BlockGroup, Inode, get_block_n, set_block_n, allocate_block, ext2_read,
  ext2_allocate_blocks,
}
use jsd_os.Ext2.Pointers.{Clear, slot, path_of, set_block_n-get_block_n}
use jsd_os.Chunks.Blocks.{file_bytes}
use jsd_os.Ext2.Reading.{block_place, ext2_read-file_bytes}
use jsd_os.Ext2.Groups.{BlockOutcome, allocate_block-BlockOutcome}
use jsd_os.Ext2.Growth.{blocks_for, allocate_blocks_none}

abbrev group : BlockGroup
group = record {
  block_bitmap = 3;
  inode_bitmap = 4;
  inode_table = 5;
  free_blocks_count = 8000;
  free_inodes_count = 100;
}

-- A partition of one group; the word at the start of block 30 is 31.
abbrev partition : Ext2Fs
partition = record {
  block_size = 1024;
  log2_block_size = 10;
  ptrs_per_block = 256;
  ptrs_per_block_log2 = 8;
  ptrs_per_ind_block = 0x1_0000;
  blocks_per_group = 8192;
  inodes_per_group = 128;
  free_blocks_count = 8000;
  free_inodes_count = 100;
  blkgrps = group ∷ [];
  disk = λ a. if a == 30 * 1024 then 31 else 0;
}

-- A file with blocks from 16 on and tables in blocks 28, 30 and 32.
abbrev file : Inode
file = record { size = 300000; block = λ k. 16 + k }

next_table :
    Clear partition file (slot partition file (path_of partition 20)) (path_of partition 270)
unfolding Clear slot path_of
next_table = omega arith

two_of_four : blocks_for 4096 partition ≡ 4
unfolding blocks_for add32
two_of_four = refl

two_there : blocks_for 2048 partition ≡ 2
unfolding blocks_for add32
two_there = refl

set_block_n-get_block_n_example :
    let r = set_block_n partition file 20 77 in
    (slot partition file (path_of partition 20) ≡ slot partition file (path_of partition 270)
      → get_block_n r.1 r.0 270 ≡ 77)
    × (slot partition file (path_of partition 20) ≢ slot partition file (path_of partition 270)
        → get_block_n r.1 r.0 270 ≡ get_block_n partition file 270)
set_block_n-get_block_n_example =
    set_block_n-get_block_n partition file 20 270 77 refl (omega arith) next_table

ext2_read-file_bytes_example :
    ext2_read 0 1000 3000 file partition
    ≡ file_bytes partition.disk (block_place partition file) 1024 3000 (0 * 1024 + 1000)
ext2_read-file_bytes_example = ext2_read-file_bytes partition file 0 1000 3000 refl (omega arith)

allocate_block-BlockOutcome_example : BlockOutcome partition (allocate_block partition)
allocate_block-BlockOutcome_example = allocate_block-BlockOutcome partition (omega arith)

-- A file of two blocks that is to have four.
abbrev two_blocks : Inode
two_blocks = record { size = 2048; block = λ k. 16 + k }

allocate_blocks_none_example :
    ext2_allocate_blocks 4096 two_blocks partition ≡ (4096, two_blocks, partition)
allocate_blocks_none_example =
    allocate_blocks_none 4096 two_blocks partition (omega (arith, two_of_four, two_there))
      (omega (arith, two_of_four, two_there)) (omega (arith, two_of_four))
