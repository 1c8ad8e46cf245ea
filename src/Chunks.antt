-- ===== src/Chunks.antt =====
-- kernel/filesystem/util.h: how a byte range is cut into the chunks (blocks or clusters) it touches.
-- Offsets of `filesystem_chunkify` are 64-bit `file_size_t` values, all else is `size_t`.
pub mod Split
pub mod Wrapping
pub mod Blocks
mod Examples
use jsd_os.Prelude.{ℕ, ◌+◌, ◌-◌, ◌/◌, ◌%◌, bit_and, ◌==◌, if◌then◌else◌}
use jsd_os.Prelude.Words.{word, u32, add32, sub32, mul32, ◌>>>◌}

pub record FsChunks : Type 0 where
  pub start_chunk : ℕ
  pub start_offset : ℕ
  pub start_size : ℕ
  pub num_full_chunks : ℕ
  pub end_size : ℕ

-- The modulus of a `file_size_t`.
abbrev pub file_word : ℕ
file_word = 0x1_0000_0000_0000_0000

unfoldable pub filesystem_chunkify_npow : ℕ → ℕ → ℕ → FsChunks
filesystem_chunkify_npow offset length chunk_size =
    let first_chunk : ℕ = offset / chunk_size in
    let last_chunk : ℕ = add32 offset length / chunk_size in
    let end_size : ℕ = if first_chunk == last_chunk then 0 else add32 offset length % chunk_size in
    let start_size : ℕ = sub32 length end_size % chunk_size in
    record {
      start_chunk = first_chunk;
      start_offset = offset % chunk_size;
      start_size = start_size;
      num_full_chunks = sub32 length (add32 start_size end_size) / chunk_size;
      end_size = end_size;
    }

unfoldable pub filesystem_chunkify : ℕ → ℕ → ℕ → ℕ → FsChunks
filesystem_chunkify offset length chunk_size_mask chunk_size_log2 =
    let last : ℕ = (offset + length) % file_word in
    let first_chunk : ℕ = u32 (offset >>> chunk_size_log2) in
    let last_chunk : ℕ = u32 (last >>> chunk_size_log2) in
    let end_size : ℕ =
      if first_chunk == last_chunk then 0 else bit_and (u32 last) chunk_size_mask in
    let start_size : ℕ = bit_and (sub32 length end_size) chunk_size_mask in
    record {
      start_chunk = first_chunk;
      start_offset = bit_and (u32 offset) chunk_size_mask;
      start_size = start_size;
      num_full_chunks = sub32 length (add32 start_size end_size) >>> chunk_size_log2;
      end_size = end_size;
    }

-- `fs::align_power_2` and `fs::round_up`, at `size_t`.
unfoldable pub align_power_2 : ℕ → ℕ → ℕ
align_power_2 x align = bit_and x (word - 1 - sub32 align 1)

unfoldable pub round_up : ℕ → ℕ → ℕ
round_up x align = mul32 (add32 x (sub32 align 1) / align) align
