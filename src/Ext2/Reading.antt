-- ===== src/Ext2/Reading.antt =====
-- drivers/formats/ext2.cpp: `ext2_read`.
use native.Mathlib.Nat.{one-le-pow}
use jsd_os.Prelude.{
  ℕ, zero, suc, ◌+◌, ◌-◌, ◌*◌, ◌^◌, ◌<◌, ◌≡◌, refl, ap, sym, ◌∙◌, List, [], ◌++◌, ◌==◌,
  if◌then◌else◌, subst, arith,
}
use jsd_os.Prelude.Words.{word, add32}
use jsd_os.Chunks.{FsChunks, filesystem_chunkify}
use jsd_os.Chunks.Split.{Cuts}
use jsd_os.Chunks.Wrapping.{chunkify-Cuts}
use jsd_os.Chunks.Blocks.{file_bytes, blocks}
use jsd_os.Chunks.Blocks.Joined.{in_words, word_next, word_next_bounded, in_words-file_bytes}
use jsd_os.Ext2.{Ext2Fs, Inode, read, get_block_n, read_blocks, read_chunks_of, ext2_read}

-- Where a block of a file starts on the partition.
abbrev pub block_place : Ext2Fs → Inode → ℕ → ℕ
block_place fs i n = get_block_n fs i n * fs.block_size

read_blocks-blocks :
    (fs : Ext2Fs) (i : Inode) (count n : ℕ)
    → n + count < word
    → read_blocks count n i fs ≡ blocks fs.disk (block_place fs i) fs.block_size count n
unfolding read_blocks read add32
read_blocks-blocks fs i zero n fits = refl
read_blocks-blocks fs i (suc count) n fits =
    let wrapped : add32 n 1 ≡ n + 1 = omega (arith, fits) in
    ap (λ l. read fs (get_block_n fs i n) 0 fs.block_size ++ l)
      (ap (λ x. read_blocks count x i fs) wrapped
        ∙ read_blocks-blocks fs i count (n + 1) (omega (arith, fits)))

-- What a read does with the chunks, when the blocks' numbers do not wrap.
read_chunks_of-in_words :
    (fs : Ext2Fs) (i : Inode) (start : ℕ) (chunks : FsChunks)
    → word_next start chunks + chunks.num_full_chunks < word
    → read_chunks_of start chunks i fs
      ≡ in_words fs.disk (block_place fs i) fs.block_size start chunks
unfolding read_chunks_of read
read_chunks_of-in_words fs i start chunks bounded =
    let before : List ℕ =
      if chunks.start_size == 0
      then []
      else read fs (get_block_n fs i (add32 start chunks.start_chunk)) chunks.start_offset
          chunks.start_size in
    let after : List ℕ =
      if chunks.end_size == 0
      then []
      else read fs (get_block_n fs i (add32 (word_next start chunks) chunks.num_full_chunks)) 0
          chunks.end_size in
    ap (λ l. before ++ (l ++ after))
      (read_blocks-blocks fs i chunks.num_full_chunks (word_next start chunks) bounded)

-- `ext2_read` returns the bytes of the file from the position on, each the byte that the block of its
-- position has on the partition, whatever the position and size, where the block size is the power of two
-- that the driver keeps and the end of the range does not wrap.
pub ext2_read-file_bytes :
    (fs : Ext2Fs) (i : Inode) (start_cluster offset size : ℕ)
    → fs.block_size ≡ 2 ^ fs.log2_block_size
    → start_cluster * fs.block_size + offset + size < word
    → ext2_read start_cluster offset size i fs
      ≡ file_bytes fs.disk
          (block_place fs i)
          fs.block_size
          size
          (start_cluster * fs.block_size + offset)
unfolding ext2_read
ext2_read-file_bytes fs i start_cluster offset size whole bounded =
    let chunks : FsChunks =
      filesystem_chunkify offset size (fs.block_size - 1) fs.log2_block_size in
    let pos : 0 < fs.block_size =
      subst (λ x. 0 < x) (sym whole) (one-le-pow fs.log2_block_size 2 (omega arith)) in
    let cuts : Cuts offset size fs.block_size chunks =
      subst (λ b. Cuts offset size b (filesystem_chunkify offset size (b - 1) fs.log2_block_size))
        (sym whole) (chunkify-Cuts offset size fs.log2_block_size (omega (arith, bounded))) in
    read_chunks_of-in_words fs i start_cluster chunks (
      word_next_bounded fs.disk (block_place fs i) fs.block_size pos start_cluster offset size
        chunks cuts bounded)
    ∙ in_words-file_bytes fs.disk (block_place fs i) fs.block_size pos start_cluster offset size
        chunks cuts bounded
