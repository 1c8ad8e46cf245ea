-- ===== src/BlockCache/Examples.antt =====
-- A fresh drive of 512-byte blocks with eight slots of two blocks, and each theorem at it.
use jsd_os.Prelude.{
  ◌+◌, ◌-◌, ◌*◌, ◌^◌, ◌≡◌, inl, refl, true, false, some, none, arith, ◌%◌, ℕ, ◌≤◌, ◌<◌, ◌==◌,
  if◌then◌else◌,
}
use jsd_os.Prelude.Words.{add32, sub32, ◌<<<◌}
use jsd_os.Chunks.{FsChunks, filesystem_chunkify, align_power_2}
use jsd_os.BlockCache.{
  Memory, Drive, refresh_oldest_item, memcpy, filesystem_drive, write_to_block, read_from_block,
  supports_byte_access, load_block,
}
use jsd_os.BlockCache.Disk.{Cursor, write_full, filesystem_write_to_disk, filesystem_read_from_disk}
use jsd_os.BlockCache.Represents.{line, base, IsSized, Represents}
use jsd_os.BlockCache.Blocks.{read_from_block_lem}
use jsd_os.BlockCache.Writing.{write_to_disk-Represents}
use jsd_os.BlockCache.Stale.{oldest, stale_write_back}

abbrev pub blank : Memory
blank = λ _. 0

abbrev pub pattern_bytes : Memory
pattern_bytes = λ i. i % 251 + 1

abbrev pub fresh : Drive
fresh = filesystem_drive 512 9 true blank

fresh-IsSized : IsSized fresh
unfolding filesystem_drive
fresh-IsSized = record {
  size_pow = refl;
  ratio_pow = record { above = 30; log2 = 1; width = refl; is_pow = refl };
  line_fits = omega arith;
  slots = omega arith;
}

-- An empty cache stands for the device.
fresh-Represents : Represents fresh blank
unfolding filesystem_drive
fresh-Represents = record {
  lines = λ i o h v which k. cc;
  behind = λ a. inl refl;
  unique = λ i j hi hj vi vj e. cc;
  aligned = λ i h v. cc;
  kept = λ i h v. cc;
}

-- 700 bytes to offset 100 of block 5: the rest of that block, and 288 bytes of the next.
abbrev wrote : Drive
wrote = filesystem_write_to_disk blank pattern_bytes fresh 5 100 700

reads_back :
    ((filesystem_read_from_disk blank wrote 6 90 blank 10).0 3 ≡ pattern_bytes (512 - 10 - 90 + 93))
    × (wrote.medium 2700 ≡ 0)
unfolding filesystem_write_to_disk filesystem_read_from_disk filesystem_drive filesystem_chunkify
    align_power_2 add32 sub32 write_to_block read_from_block
reads_back = (refl, refl)

write_to_disk-Represents_example :
    Represents wrote (memcpy blank (5 * 2 ^ 9 + 100) pattern_bytes 0 700)
unfolding filesystem_drive
write_to_disk-Represents_example =
    write_to_disk-Represents fresh blank blank pattern_bytes fresh-IsSized fresh-Represents 5 100
      700 (unfold supports_byte_access in refl) (omega arith) (inl refl)

read_from_block_lem_example :
    (read_from_block fresh blank 3 7 blank 0 20).0 4 ≡ memcpy blank 0 blank (3 * 2 ^ 9 + 7) 20 4
unfolding filesystem_drive
read_from_block_lem_example =
    read_from_block_lem fresh blank blank fresh-IsSized fresh-Represents 3 7 blank 0 20
      (omega arith) (omega arith) 4

-- A drive without buffers whose next victim, slot 1, holds blocks 4 and 5 with a dirty byte pattern.
abbrev dirty_drive : Drive
dirty_drive = record (filesystem_drive 512 9 false blank) {
  cache = λ i.
      if i == 1
      then record { index = 4; bytes = some pattern_bytes; dirty = true; valid = true }
      else record { index = 0; bytes = none; dirty = false; valid = false };
}

-- Two blocks of zeros for blocks 4 and 5.
abbrev two_blocks : Cursor
two_blocks = record { drive = dirty_drive; block = 4; at = 0 }

abbrev two_chunks : FsChunks
two_chunks = record {
  start_chunk = 0;
  start_offset = 0;
  start_size = 0;
  num_full_chunks = 2;
  end_size = 0;
}

stale_write_back_example :
    let w = (write_full blank blank two_chunks two_blocks).drive in
    ((oldest w).valid ≡ false)
    × ((a : ℕ) → 4 <<< 9 ≤ a → a < (4 <<< 9) + (2 <<< 9) → w.medium a ≡ blank (0 + (a - (4 <<< 9))))
    × ((a : ℕ)
        → base dirty_drive (oldest dirty_drive) ≤ a
        → a < base dirty_drive (oldest dirty_drive) + line dirty_drive
        → (load_block w blank 8 false).1.medium a
          ≡ pattern_bytes (a - base dirty_drive (oldest dirty_drive)))
unfolding filesystem_drive refresh_oldest_item add32
stale_write_back_example =
    stale_write_back blank blank two_chunks two_blocks refl (omega arith) 8 false pattern_bytes
      (omega arith) (omega arith) (omega arith) (omega arith) (omega arith) refl refl
