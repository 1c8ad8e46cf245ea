-- ===== src/Chunks/Wrapping.antt =====
-- kernel/filesystem/util.h: the cut in the code's word arithmetic.
use native.Mathlib.Nat.{one-le-pow, div-le_self, div-add-mod', mod-lt, mul-mod_left}
use jsd_os.Prelude.{ℕ, ◌+◌, ◌-◌, ◌*◌, ◌/◌, ◌%◌, ◌^◌, ◌≤◌, ◌<◌, ◌≡◌, arith}
use jsd_os.Prelude.Words.{word, u32, add32, sub32, mul32, add32-eq, sub32-eq}
use jsd_os.Prelude.Bits.{bit_and_low}
use jsd_os.Chunks.{FsChunks, file_word, filesystem_chunkify, filesystem_chunkify_npow, round_up}
use jsd_os.Chunks.Split.{Cuts, split, split-Cuts}

module _ (offset length size : ℕ) (pos : 0 < size) (bounded : offset + length < word) where
  abbrev cut : FsChunks
  cut = split offset length size

  -- The three differences and the sum of the code do not wrap.
  no_wrap :
      (sub32 length cut.end_size ≡ length - cut.end_size)
      × (add32 cut.start_size cut.end_size ≡ cut.start_size + cut.end_size)
      × (sub32 length (cut.start_size + cut.end_size) ≡ length - (cut.start_size + cut.end_size))
  no_wrap =
      let c = split-Cuts size pos offset length in
      (
        sub32-eq length cut.end_size (omega (arith, c.complete)) (omega arith),
        add32-eq cut.start_size cut.end_size (omega (arith, c.complete)),
        sub32-eq length (cut.start_size + cut.end_size) (omega (arith, c.complete)) (omega arith),
      )

  npow-split : filesystem_chunkify_npow offset length size ≡ cut
  unfolding filesystem_chunkify_npow
  npow-split = rw (add32-eq offset length bounded, no_wrap.0, no_wrap.1, no_wrap.2)

  -- `filesystem_chunkify_npow` cuts a range that does not wrap exactly, whatever the chunk size.
  pub npow-Cuts : Cuts offset length size (filesystem_chunkify_npow offset length size)
  npow-Cuts = rw npow-split (split-Cuts size pos offset length)

module _ (offset length k : ℕ) (bounded : offset + length < word) where
  pos : 0 < 2 ^ k
  pos = one-le-pow k 2 (omega arith)

  chunkify-split : filesystem_chunkify offset length (2 ^ k - 1) k ≡ split offset length (2 ^ k)
  unfolding filesystem_chunkify
  chunkify-split =
      let last : (offset + length) % file_word ≡ offset + length = omega arith in
      let low : u32 (offset + length) ≡ offset + length = omega arith in
      let start : u32 offset ≡ offset = omega arith in
      let first_chunk : u32 (offset / 2 ^ k) ≡ offset / 2 ^ k =
        omega (arith, div-le_self offset (2 ^ k)) in
      let last_chunk : u32 ((offset + length) / 2 ^ k) ≡ (offset + length) / 2 ^ k =
        omega (arith, div-le_self (offset + length) (2 ^ k)) in
      let wraps = no_wrap offset length (2 ^ k) pos bounded in
      rw (
        last,
        low,
        start,
        first_chunk,
        last_chunk,
        bit_and_low k (offset + length),
        bit_and_low k offset,
        wraps.0,
        bit_and_low k _,
        wraps.1,
        wraps.2,
      )

  -- `filesystem_chunkify` cuts a range whose end, of a 64-bit offset and a length, is below 2 ^ 32
  -- exactly at the multiples of a power of two: the first part, the whole chunks and the last part follow
  -- one another and make up the range.
  pub chunkify-Cuts : Cuts offset length (2 ^ k) (filesystem_chunkify offset length (2 ^ k - 1) k)
  chunkify-Cuts = rw chunkify-split (split-Cuts (2 ^ k) pos offset length)

  -- The shifts and masks of `filesystem_chunkify` do what the divisions of the other variant do, for a
  -- range that does not wrap.
  pub chunkify-npow :
      filesystem_chunkify offset length (2 ^ k - 1) k
      ≡ filesystem_chunkify_npow offset length (2 ^ k)
  chunkify-npow = rw (chunkify-split, npow-split offset length (2 ^ k) pos bounded)

-- `round_up` gives the least multiple of `align` that is not below `x`, where the sum does not wrap.
pub round_up_lem :
    (x align : ℕ)
    → 0 < align
    → x + align ≤ word
    → (x ≤ round_up x align) × (round_up x align < x + align) × (round_up x align % align ≡ 0)
unfolding round_up mul32 add32 sub32
round_up_lem x align p h =
    let one : (align + word - 1) % word ≡ align - 1 = omega arith in
    let sum : (x + (align - 1)) % word ≡ x + (align - 1) = omega arith in
    let d = div-add-mod' (x + (align - 1)) align in
    let l = mod-lt (x + (align - 1)) p in
    let whole : (x + (align - 1)) / align * align % word ≡ (x + (align - 1)) / align * align =
      omega (arith, d) in
    rw (one, sum, whole)
      (omega (arith, d, l), omega (arith, d, l), mul-mod_left ((x + (align - 1)) / align) align)
