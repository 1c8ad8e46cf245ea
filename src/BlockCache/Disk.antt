-- ===== src/BlockCache/Disk.antt =====
-- `block_flush`, `block_invalidate`, `filesystem_write_to_disk` and `filesystem_read_from_disk` of
-- kernel/filesystem/drives.cpp. `at` is the offset that the pointer `buf` has moved on by.
use jsd_os.Prelude.{ℕ, zero, suc, ◌+◌, ◌-◌, Bool, true, false, not, ◌&&◌, ltb, ◌==◌, if◌then◌else◌}
use jsd_os.Prelude.Words.{add32}
use jsd_os.Chunks.{FsChunks, filesystem_chunkify}
use jsd_os.BlockCache.{
  Memory, CachedBlock, Drive, update, slot_bytes, blocks_to_bytes, supports_byte_access,
  read_blocks, write_blocks, write_to_block, read_from_block,
}

-- Does the loop over the cache pass this slot over?
unfoldable pub skips : Drive → ℕ → ℕ → CachedBlock → Bool
skips d index num_blocks it =
    if ltb (add32 index num_blocks) it.index
    then true
    else ltb (add32 it.index d.num_blocks_per_cache) index

unfoldable pub flush_slot : ℕ → ℕ → ℕ → Drive → Drive
unfolding skips write_blocks
flush_slot index num_blocks i d =
    let it : CachedBlock = d.cache i in
    if skips d index num_blocks it
    then d
    else if it.dirty
    then record (write_blocks d it.index (slot_bytes it) 0 d.num_blocks_per_cache) {
      cache = update d.cache i (record it { dirty = false });
    }
    else d

unfoldable pub invalidate_slot : ℕ → ℕ → ℕ → Drive → Drive
unfolding skips
invalidate_slot index num_blocks i d =
    if skips d index num_blocks (d.cache i)
    then d
    else record d { cache = update d.cache i (record (d.cache i) { valid = false }) }

-- The loop over the slots of the cache, from slot `i` on.
unfoldable pub each_slot : ℕ → ℕ → (ℕ → Drive → Drive) → Drive → Drive
each_slot zero i step d = d
each_slot (suc left) i step d = each_slot left (i + 1) step (step i d)

unfoldable pub block_flush : ℕ → ℕ → Drive → Drive
unfolding each_slot flush_slot
block_flush index num_blocks d = each_slot d.cache_size 0 (flush_slot index num_blocks) d

unfoldable pub block_invalidate : ℕ → ℕ → Drive → Drive
unfolding each_slot invalidate_slot
block_invalidate index num_blocks d = each_slot d.cache_size 0 (invalidate_slot index num_blocks) d

-- The drive, the next block and the next byte of the buffer.
pub record Cursor : Type 0 where
  pub drive : Drive
  pub block : ℕ
  pub at : ℕ

module _ (buffer buf : Memory) where
  unfoldable pub write_start : FsChunks → Cursor → Cursor
  write_start c s = if c.start_size == 0 then s else record {
    drive = write_to_block s.drive buffer s.block c.start_offset buf s.at c.start_size;
    block = add32 s.block 1;
    at = s.at + c.start_size;
  }

  -- while(num_chunks--) write_to_block(block++, 0, buf, block_size)
  unfoldable pub write_chunks : ℕ → Cursor → Cursor
  write_chunks zero s = s
  write_chunks (suc num_chunks) s = write_chunks num_chunks (record {
    drive = write_to_block s.drive buffer s.block 0 buf s.at s.drive.block_size;
    block = add32 s.block 1;
    at = s.at + s.drive.block_size;
  })

  unfoldable pub write_full : FsChunks → Cursor → Cursor
  unfolding write_chunks block_invalidate write_blocks blocks_to_bytes
  write_full c s =
      if c.num_full_chunks == 0
      then s
      else if not s.drive.needs_buffer && ltb 1 c.num_full_chunks
      then record {
        drive =
            write_blocks (block_invalidate s.block c.num_full_chunks s.drive) s.block buf s.at
              c.num_full_chunks;
        block = add32 s.block c.num_full_chunks;
        at = s.at + blocks_to_bytes s.drive c.num_full_chunks;
      }
      else write_chunks c.num_full_chunks s

  unfoldable pub write_end : FsChunks → Cursor → Drive
  write_end c s =
      if c.end_size == 0
      then s.drive
      else write_to_block s.drive buffer s.block 0 buf s.at c.end_size

  unfoldable pub filesystem_write_to_disk : Drive → ℕ → ℕ → ℕ → Drive
  unfolding supports_byte_access write_start write_full write_end write_blocks
  filesystem_write_to_disk d block_num offset num_bytes =
      let c : FsChunks =
        filesystem_chunkify offset num_bytes (d.block_size - 1) d.block_size_log2 in
      let s : Cursor = record { drive = d; block = add32 block_num c.start_chunk; at = 0 } in
      if supports_byte_access d
      then write_blocks d (add32 block_num offset) buf 0 num_bytes
      else write_end c (write_full c (write_start c s))

-- A read fills the buffer as it goes on.
pub record Reading : Type 0 where
  pub cursor : Cursor
  pub open cursor use *
  pub buf : Memory

module _ (buffer : Memory) where
  unfoldable pub read_part : ℕ → ℕ → Reading → Reading
  read_part offset num_bytes s =
      let (buf, drive) = read_from_block s.drive buffer s.block offset s.buf s.at num_bytes in
      record {
        cursor = record { drive = drive; block = add32 s.block 1; at = s.at + num_bytes };
        buf = buf;
      }

  unfoldable pub read_chunks : ℕ → Reading → Reading
  unfolding read_part
  read_chunks zero s = s
  read_chunks (suc num_chunks) s = read_chunks num_chunks (read_part 0 s.drive.block_size s)

  unfoldable pub read_full : FsChunks → Reading → Reading
  unfolding read_chunks block_flush read_blocks blocks_to_bytes
  read_full c s =
      let flushed : Drive = block_flush s.block c.num_full_chunks s.drive in
      if c.num_full_chunks == 0
      then s
      else if not s.drive.needs_buffer && ltb 1 c.num_full_chunks
      then record {
        cursor = record {
          drive = flushed;
          block = add32 s.block c.num_full_chunks;
          at = s.at + blocks_to_bytes s.drive c.num_full_chunks;
        };
        buf = read_blocks flushed s.block s.buf s.at c.num_full_chunks;
      }
      else read_chunks c.num_full_chunks s

  -- The buffer with the bytes read, and the drive.
  unfoldable pub filesystem_read_from_disk : Drive → ℕ → ℕ → Memory → ℕ → Memory × Drive
  unfolding supports_byte_access read_part read_full read_blocks
  filesystem_read_from_disk d block_num offset buf num_bytes =
      let c : FsChunks =
        filesystem_chunkify offset num_bytes (d.block_size - 1) d.block_size_log2 in
      let s : Reading = record {
        cursor = record { drive = d; block = add32 block_num c.start_chunk; at = 0 };
        buf = buf;
      } in
      let started : Reading =
        if c.start_size == 0 then s else read_part c.start_offset c.start_size s in
      let full : Reading = read_full c started in
      let ended : Reading = if c.end_size == 0 then full else read_part 0 c.end_size full in
      if supports_byte_access d
      then (read_blocks d (add32 block_num offset) buf 0 num_bytes, d)
      else (ended.buf, ended.drive)
