-- ===== src/Ext2.antt =====
-- drivers/formats/ext2.cpp: the bitmaps and the block map of a file. A partition is its bytes; the record
-- in memory holds what the driver computes when it mounts the partition, and the fields of the
-- superblock, of the block groups and of an inode that it uses. A block's place on the partition is taken
-- not to wrap.
use jsd_os.Prelude.{
  bytes_at, ℕ, zero, suc, ◌+◌, ◌-◌, ◌*◌, ◌/◌, ◌%◌, bit_and, bit_or, Bool, true, false, not, ◌&&◌,
  Option, none, some, List, [], ◌∷◌, ◌++◌, ltb, leb, ◌==◌, if◌then◌else◌, length, get_or, set,
}
use jsd_os.Prelude.Words.{u32, word, add32, sub32, mul32, ◌<<<◌, ◌>>>◌}
use jsd_os.Chunks.{FsChunks, filesystem_chunkify}
pub mod Bitmap
pub mod Bytes
pub mod Groups
pub mod Growth
pub mod Words
pub mod Pointers
pub mod Reading
mod Examples

abbrev pub ndir_blocks : ℕ
ndir_blocks = 12

pub record BlockGroup : Type 0 where
  pub block_bitmap : ℕ
  pub inode_bitmap : ℕ
  pub inode_table : ℕ
  pub free_blocks_count : ℕ
  pub free_inodes_count : ℕ

pub record Ext2Fs : Type 0 where
  pub block_size : ℕ
  pub log2_block_size : ℕ
  pub ptrs_per_block : ℕ
  pub ptrs_per_block_log2 : ℕ
  pub ptrs_per_ind_block : ℕ
  pub blocks_per_group : ℕ
  pub inodes_per_group : ℕ
  pub free_blocks_count : ℕ
  pub free_inodes_count : ℕ
  pub blkgrps : List BlockGroup
  pub disk : ℕ → ℕ

pub record Inode : Type 0 where
  pub size : ℕ
  pub block : ℕ → ℕ

-- The bit of the first clear one of `bits` bits from bit `i` on, and the bitmap with it set.
pub find_free_from : ℕ → ℕ → List ℕ → Option (ℕ × List ℕ)
find_free_from zero i arr = none
find_free_from (suc left) i arr =
    let byte : ℕ = get_or arr (i / 8) 0 in
    let bitmask : ℕ = 1 <<< (i % 8) in
    let rest : Option (ℕ × List ℕ) = find_free_from left (i + 1) arr in
    if bit_and byte bitmask == 0 then some (i, set arr (i / 8) (bit_or byte bitmask)) else rest

pub find_free_and_mark : List ℕ → ℕ → Option (ℕ × List ℕ)
unfolding find_free_from
find_free_and_mark arr bits = find_free_from bits 0 arr

-- The place of a block's byte on the partition.
abbrev pub address : Ext2Fs → ℕ → ℕ → ℕ
address fs block offset = block * fs.block_size + offset

abbrev pub put_bytes : ℕ → List ℕ → (ℕ → ℕ) → ℕ → ℕ
put_bytes a [] disk x = disk x
put_bytes a (b ∷ rest) disk x = if x == a then b else put_bytes (a + 1) rest disk x

-- `ext2fs::read`.
pub read : Ext2Fs → ℕ → ℕ → ℕ → List ℕ
read fs block offset count = bytes_at count (address fs block offset) fs.disk

-- `ext2fs::write`.
pub write : Ext2Fs → ℕ → ℕ → List ℕ → Ext2Fs
write fs block offset values = record fs {
  disk = put_bytes (address fs block offset) values fs.disk;
}

-- A word in its four bytes, the low one first.
abbrev pub word_of : List ℕ → ℕ
word_of bytes =
    get_or bytes 0 0
    + get_or bytes 1 0 * 0x100
    + get_or bytes 2 0 * 0x1_0000
    + get_or bytes 3 0 * 0x100_0000

abbrev pub bytes_of : ℕ → List ℕ
bytes_of v = v % 0x100 ∷ v / 0x100 % 0x100 ∷ v / 0x1_0000 % 0x100 ∷ v / 0x100_0000 % 0x100 ∷ []

pub read32 : Ext2Fs → ℕ → ℕ → ℕ
unfolding read
read32 fs block offset = word_of (read fs block offset 4)

pub write32 : Ext2Fs → ℕ → ℕ → ℕ → Ext2Fs
unfolding write
write32 fs block offset value = write fs block offset (bytes_of value)

pub get_block_n : Ext2Fs → Inode → ℕ → ℕ
unfolding read32
get_block_n fs i n =
    if ltb n ndir_blocks
    then i.block n
    else let n1 : ℕ = n - ndir_blocks in
      if ltb n1 fs.ptrs_per_block
      then read32 fs (i.block 12) (n1 * 4)
      else let n2 : ℕ = n1 - fs.ptrs_per_block in
        if ltb n2 fs.ptrs_per_ind_block
        then (let i_blk : ℕ = (n2 >>> fs.ptrs_per_block_log2) * 4 in
            let di_blk : ℕ = bit_and n2 (fs.ptrs_per_block - 1) * 4 in
            read32 fs (read32 fs (i.block 13) i_blk) di_blk)
        else (let n3 : ℕ = n2 - fs.ptrs_per_ind_block in
            let nds : ℕ = n3 >>> fs.ptrs_per_block_log2 in
            let i_blk : ℕ = (nds >>> fs.ptrs_per_block_log2) * 4 in
            let di_blk : ℕ = bit_and nds (fs.ptrs_per_block - 1) * 4 in
            let ti_blk : ℕ = bit_and n3 (fs.ptrs_per_block - 1) * 4 in
            read32 fs (read32 fs (read32 fs (i.block 14) i_blk) di_blk) ti_blk)

-- The inode and the partition after it.
pub set_block_n : Ext2Fs → Inode → ℕ → ℕ → Inode × Ext2Fs
unfolding read32 write32
set_block_n fs i n blk =
    if ltb n ndir_blocks
    then (record i { block = λ k. if k == n then blk else i.block k }, fs)
    else let n1 : ℕ = n - ndir_blocks in
      if ltb n1 fs.ptrs_per_block
      then (i, write32 fs (i.block 12) (n1 * 4) blk)
      else let n2 : ℕ = n1 - fs.ptrs_per_block in
        if ltb n2 fs.ptrs_per_ind_block
        then (let i_blk : ℕ = (n2 >>> fs.ptrs_per_block_log2) * 4 in
            let di_blk : ℕ = bit_and n2 (fs.ptrs_per_block - 1) * 4 in
            (i, write32 fs (read32 fs (i.block 13) i_blk) di_blk blk))
        else (let n3 : ℕ = n2 - fs.ptrs_per_ind_block in
            let nds : ℕ = n3 >>> fs.ptrs_per_block_log2 in
            let i_blk : ℕ = (nds >>> fs.ptrs_per_block_log2) * 4 in
            let di_blk : ℕ = bit_and nds (fs.ptrs_per_block - 1) * 4 in
            let ti_blk : ℕ = bit_and n3 (fs.ptrs_per_block - 1) * 4 in
            (i, write32 fs (read32 fs (read32 fs (i.block 14) i_blk) di_blk) ti_blk blk))

-- The loop over the block groups of `allocate_block`, from group `i` on: the block, 0 where there is
-- none, the groups and the bytes of the partition.
pub allocate_in_groups : Ext2Fs → ℕ → List BlockGroup → Option (ℕ × List BlockGroup × (ℕ → ℕ))
unfolding find_free_and_mark read write
allocate_in_groups fs i [] = none
allocate_in_groups fs i (b ∷ rest) =
    let later : Option (ℕ × List BlockGroup × (ℕ → ℕ)) = elim (allocate_in_groups fs (i + 1) rest) [
      | none ↦ none
      | some (block, groups, disk) ↦ some (block, b ∷ groups, disk)
    ] in
    if b.free_blocks_count == 0
    then later
    else elim (find_free_and_mark (read fs b.block_bitmap 0 fs.block_size) fs.blocks_per_group) [
      | none ↦ later
      | some (bit, bitmap) ↦ some (
        add32 bit (mul32 i fs.blocks_per_group),
        record b { free_blocks_count = b.free_blocks_count - 1 } ∷ rest,
        (write fs b.block_bitmap 0 bitmap).disk,
      )
    ]

pub allocate_block : Ext2Fs → ℕ × Ext2Fs
unfolding allocate_in_groups
allocate_block fs = elim (allocate_in_groups fs 0 fs.blkgrps) [
  | none ↦ (0, fs)
  | some (block, groups, disk) ↦ (
    block,
    record fs { blkgrps = groups; disk = disk; free_blocks_count = sub32 fs.free_blocks_count 1 },
  )
]

-- The loop of `ext2_allocate_blocks`, from block `i` on with `left` to go.
pub extend_file : ℕ → ℕ → Inode → Ext2Fs → Inode × Ext2Fs
unfolding allocate_block set_block_n
extend_file zero i inod fs = (inod, fs)
extend_file (suc left) i inod fs =
    let (block, after) = allocate_block fs in
    let (changed, written) = set_block_n after inod i block in
    extend_file left (i + 1) changed written

-- `ext2_allocate_blocks`, on the inode that it reads and writes back.
pub ext2_allocate_blocks : ℕ → Inode → Ext2Fs → ℕ × Inode × Ext2Fs
unfolding extend_file
ext2_allocate_blocks size_in_bytes inod fs =
    let needed : ℕ = add32 size_in_bytes (fs.block_size - 1) >>> fs.log2_block_size in
    let allocated : ℕ = add32 inod.size (fs.block_size - 1) >>> fs.log2_block_size in
    let (changed, written) = extend_file (sub32 needed allocated - allocated) allocated inod fs in
    (size_in_bytes, changed, written)

-- The loop of `ext2_read` over full blocks.
pub read_blocks : ℕ → ℕ → Inode → Ext2Fs → List ℕ
unfolding get_block_n read
read_blocks zero block_num inod fs = []
read_blocks (suc num_clusters) block_num inod fs =
    read fs (get_block_n fs inod block_num) 0 fs.block_size
    ++ read_blocks num_clusters (add32 block_num 1) inod fs

-- What `ext2_read` does with the chunks of its range.
pub read_chunks_of : ℕ → FsChunks → Inode → Ext2Fs → List ℕ
unfolding get_block_n read read_blocks add32
read_chunks_of start_cluster chunks inod fs =
    let first : ℕ = add32 start_cluster chunks.start_chunk in
    let next : ℕ = if chunks.start_size == 0 then first else add32 first 1 in
    let start : List ℕ =
      if chunks.start_size == 0
      then []
      else read fs (get_block_n fs inod first) chunks.start_offset chunks.start_size in
    let last : List ℕ =
      if chunks.end_size == 0
      then []
      else read fs (get_block_n fs inod (add32 next chunks.num_full_chunks)) 0 chunks.end_size in
    start ++ (read_blocks chunks.num_full_chunks next inod fs ++ last)

-- The bytes that `ext2_read` puts into the buffer, for the inode of the file.
pub ext2_read : ℕ → ℕ → ℕ → Inode → Ext2Fs → List ℕ
unfolding read_chunks_of
ext2_read start_cluster offset size inod fs =
    read_chunks_of start_cluster
      (filesystem_chunkify offset size (fs.block_size - 1) fs.log2_block_size) inod fs
