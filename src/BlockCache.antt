-- ===== src/BlockCache.antt =====
-- kernel/filesystem/drives.cpp: `filesystem_drive`, its cache of blocks, and the two functions by
-- which file systems reach the disk. Memory is a function from addresses to bytes, the device is such
-- a memory behind `read_blocks` and `write_blocks`, and `m_data` of the cache is indexed by slot.
-- One task runs at a time here: the locks of the source are not modelled.
pub mod Represents
pub mod Lines
pub mod Loading
pub mod Access
pub mod Blocks
pub mod Disk
pub mod Writing
pub mod Stale
mod Examples
use jsd_os.Prelude.{
  ℕ, zero, suc, ◌+◌, ◌-◌, ◌*◌, ◌/◌, ◌%◌, ◌^◌, Bool, true, false, not, ◌&&◌, ◌||◌, Option, none,
  some, ltb, leb, ◌==◌, if◌then◌else◌,
}
use jsd_os.Prelude.Words.{u32, add32, sub32, ◌<<<◌}
use jsd_os.Chunks.{FsChunks, align_power_2, filesystem_chunkify}

abbrev pub Memory : Type 0
Memory = ℕ → ℕ

-- memcpy(dst + d, src + s, n)
unfoldable pub memcpy : Memory → ℕ → Memory → ℕ → ℕ → Memory
memcpy dst d src s n i = if leb d i && ltb i (d + n) then src (s + (i - d)) else dst i

pub record CachedBlock : Type 0 where
  pub index : ℕ
  pub bytes : Option Memory
  pub dirty : Bool
  pub valid : Bool

pub record Drive : Type 0 where
  pub block_size : ℕ
  pub block_size_log2 : ℕ
  pub num_blocks_per_cache : ℕ
  pub needs_buffer : Bool
  pub medium : Memory
  pub cache_size : ℕ
  pub last_index : ℕ
  pub cache : ℕ → CachedBlock

unfoldable pub calc_block_ratio : ℕ → ℕ → ℕ
calc_block_ratio block_size cache_size =
    if ltb cache_size block_size || not (cache_size % block_size == 0)
    then 1
    else cache_size / block_size

-- The constructor, at a block size with the given logarithm; slots start invalid and without a buffer.
unfoldable pub filesystem_drive : ℕ → ℕ → Bool → Memory → Drive
unfolding calc_block_ratio
filesystem_drive block_size log2 needs_buffer medium = record {
  block_size = block_size;
  block_size_log2 = log2;
  num_blocks_per_cache = calc_block_ratio block_size 1024;
  needs_buffer = needs_buffer;
  medium = medium;
  cache_size = 8;
  last_index = 0;
  cache = λ _. record { index = 0; bytes = none; dirty = false; valid = false };
}

unfoldable pub supports_byte_access : Drive → Bool
supports_byte_access d = (d.block_size == 1) && not d.needs_buffer

unfoldable pub blocks_to_bytes : Drive → ℕ → ℕ
blocks_to_bytes d num_blocks = u32 (num_blocks <<< d.block_size_log2)

-- The device copies whole blocks from or to a buffer.
unfoldable pub read_blocks : Drive → ℕ → Memory → ℕ → ℕ → Memory
read_blocks d lba buf at num =
    memcpy buf at d.medium (lba <<< d.block_size_log2) (num <<< d.block_size_log2)

unfoldable pub write_blocks : Drive → ℕ → Memory → ℕ → ℕ → Drive
unfolding memcpy
write_blocks d lba buf at num = record d {
  medium = memcpy d.medium (lba <<< d.block_size_log2) buf at (num <<< d.block_size_log2);
}

abbrev pub update : (ℕ → CachedBlock) → ℕ → CachedBlock → ℕ → CachedBlock
update cache i b j = if i == j then b else cache j

-- `refresh_oldest_item`: the slot, and the drive with `m_last_index` moved on to it.
unfoldable pub refresh_oldest_item : Drive → ℕ × Drive
refresh_oldest_item d =
    let next : ℕ = add32 d.last_index 1 % d.cache_size in (next, record d { last_index = next })

-- The `find_if` of `block_rw`, from slot `i` on with `left` slots to go.
unfoldable pub find_block : ℕ → ℕ → ℕ → (ℕ → CachedBlock) → Option ℕ
find_block zero i block cache = none
find_block (suc left) i block cache =
    let later = find_block left (i + 1) block cache in
    if (block == (cache i).index) && (cache i).valid then some i else later

-- What `item.data` holds before the block is read in, a new buffer or the old one, and the device:
-- the old contents are written back first if they are dirty.
unfoldable pub evict : Drive → Memory → CachedBlock → Memory × Memory
unfolding write_blocks
evict d buffer item = elim item.bytes [
  | none ↦ (buffer, d.medium)
  | some bytes ↦
      if item.dirty
      then (bytes, (write_blocks d item.index bytes 0 d.num_blocks_per_cache).medium)
      else (bytes, d.medium)
]

-- The item that the miss of `block_rw` loads in the place of `item`, and the device, with `buffer` the
-- contents of a buffer that `allocate_buffer` may return.
unfoldable pub load_item : Drive → Memory → ℕ → Bool → CachedBlock → CachedBlock × Memory
unfolding evict read_blocks
load_item d buffer block write_all item =
    let (old, medium) = evict d buffer item in
    let evicted : Drive = record d { medium = medium } in
    let bytes : Memory =
      if write_all then old else read_blocks evicted block old 0 d.num_blocks_per_cache in
    let dirty : Bool = elim item.bytes [ none ↦ item.dirty | some _ ↦ false ] in
    (record { index = block; bytes = some bytes; dirty = dirty; valid = true }, medium)

unfoldable pub load_block : Drive → Memory → ℕ → Bool → ℕ × Drive
unfolding refresh_oldest_item load_item
load_block d buffer block write_all =
    let (slot, fresh) = refresh_oldest_item d in
    let (item, medium) = load_item fresh buffer block write_all (d.cache slot) in
    (slot, record fresh { medium = medium; cache = update d.cache slot item })

-- The slot that holds block `index`, and the drive with the block loaded.
unfoldable pub block_rw : Drive → Memory → ℕ → Bool → ℕ × Drive
unfolding find_block load_block
block_rw d buffer index write_all =
    let block : ℕ = align_power_2 index d.num_blocks_per_cache in
    elim (find_block d.cache_size 0 block d.cache) [
      | some slot ↦ (slot, d)
      | none ↦ load_block d buffer block write_all
    ]

abbrev pub slot_bytes : CachedBlock → Memory
slot_bytes b = elim b.bytes [ none ↦ λ _. 0 | some bytes ↦ bytes ]

unfoldable pub write_to_block : Drive → Memory → ℕ → ℕ → Memory → ℕ → ℕ → Drive
unfolding block_rw memcpy blocks_to_bytes
write_to_block d buffer block offset buf at num_bytes =
    let whole : Bool = num_bytes == blocks_to_bytes d d.num_blocks_per_cache in
    let (slot, loaded) = block_rw d buffer block whole in
    let blk : CachedBlock = loaded.cache slot in
    let block_offset : ℕ = blocks_to_bytes d (sub32 block blk.index) in
    record loaded {
      cache = update loaded.cache slot (record blk {
        bytes = some (memcpy (slot_bytes blk) (block_offset + offset) buf at num_bytes);
        dirty = true;
      });
    }

-- The buffer with the bytes read, and the drive.
unfoldable pub read_from_block : Drive → Memory → ℕ → ℕ → Memory → ℕ → ℕ → Memory × Drive
unfolding block_rw memcpy blocks_to_bytes
read_from_block d buffer block offset buf at num_bytes =
    let (slot, loaded) = block_rw d buffer block false in
    let blk : CachedBlock = loaded.cache slot in
    let block_offset : ℕ = blocks_to_bytes d (sub32 block blk.index) in
    (memcpy buf at (slot_bytes blk) (block_offset + offset) num_bytes, loaded)
