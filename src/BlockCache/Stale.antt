-- ===== src/BlockCache/Stale.antt =====
-- kernel/filesystem/drives.cpp: a direct write of blocks and the slots that `block_invalidate` meets.
use jsd_os.Prelude.{
  ℕ, zero, suc, ◌+◌, ◌-◌, ◌*◌, ◌%◌, ◌^◌, ◌≤◌, ◌<◌, ◌≡◌, refl, ap, sym, ◌∙◌, Bool, true, false, some,
  arith, ℕ_discrete, subst,
}
use mathlib.Core.Path.{ap₂}
use native.Mathlib.Nat.{mod-lt}
use jsd_os.Prelude.Words.{add32, word, ◌<<<◌}
use jsd_os.Chunks.{FsChunks}
use jsd_os.BlockCache.{
  Memory, memcpy, CachedBlock, Drive, write_blocks, refresh_oldest_item, load_item, load_block,
}
use jsd_os.BlockCache.Represents.{line, base}
use jsd_os.BlockCache.Loading.{evict-medium}
use jsd_os.BlockCache.Disk.{skips, invalidate_slot, each_slot, block_invalidate, Cursor, write_full}

-- All but the valid bits of the cache is as before.
record OnlyValid (d e : Drive) : Type 0 where
  log2_is : e.block_size_log2 ≡ d.block_size_log2
  ratio_is : e.num_blocks_per_cache ≡ d.num_blocks_per_cache
  size_is : e.cache_size ≡ d.cache_size
  last_is : e.last_index ≡ d.last_index
  index_is : (i : ℕ) → (e.cache i).index ≡ (d.cache i).index
  bytes_is : (i : ℕ) → (e.cache i).bytes ≡ (d.cache i).bytes
  dirty_is : (i : ℕ) → (e.cache i).dirty ≡ (d.cache i).dirty

OnlyValid-step :
    (d e : Drive) (index num i : ℕ) → OnlyValid d e → OnlyValid d (invalidate_slot index num i e)
unfolding invalidate_slot
OnlyValid-step d e index num i o = record {
  log2_is = ground (arith, o.log2_is);
  ratio_is = ground (arith, o.ratio_is);
  size_is = ground (arith, o.size_is);
  last_is = ground (arith, o.last_is);
  index_is = λ j. ground (arith, o.index_is j);
  bytes_is = λ j. ground (arith, o.bytes_is j);
  dirty_is = λ j. ground (arith, o.dirty_is j);
}

OnlyValid-each :
    (d e : Drive) (index num left i : ℕ)
    → OnlyValid d e
    → OnlyValid d (each_slot left i (invalidate_slot index num) e)
unfolding each_slot
OnlyValid-each d e index num zero i o = o
OnlyValid-each d e index num (suc left) i o =
    OnlyValid-each d (invalidate_slot index num i e) index num left (i + 1)
      (OnlyValid-step d e index num i o)

OnlyValid-refl : (d : Drive) → OnlyValid d d
OnlyValid-refl d = record {
  log2_is = refl;
  ratio_is = refl;
  size_is = refl;
  last_is = refl;
  index_is = λ _. refl;
  bytes_is = λ _. refl;
  dirty_is = λ _. refl;
}

invalidate-OnlyValid : (d : Drive) (index num : ℕ) → OnlyValid d (block_invalidate index num d)
unfolding block_invalidate
invalidate-OnlyValid d index num = OnlyValid-each d d index num d.cache_size 0 (OnlyValid-refl d)

abbrev pub oldest : Drive → CachedBlock
oldest d = d.cache (refresh_oldest_item d).0

-- A miss writes the oldest slot back if it is dirty, valid or not.
load-evicts :
    (d : Drive) (buffer : Memory) (block : ℕ) (whole : Bool) (a : ℕ) (bytes : Memory)
    → (oldest d).bytes ≡ some bytes
    → (oldest d).dirty ≡ true
    → base d (oldest d) ≤ a
    → a < base d (oldest d) + line d
    → (load_block d buffer block whole).1.medium a ≡ bytes (a - base d (oldest d))
unfolding load_block load_item refresh_oldest_item
load-evicts d buffer block whole a bytes held dirty low high =
    let fresh : Drive = (refresh_oldest_item d).1 in
    evict-medium fresh buffer (oldest d) a (λ _. ground (arith, held))
    ∙ ground (arith, held, dirty, low, high)

-- A slot that is not valid stays so, and a slot that the range does not pass over becomes so.
invalid-stays :
    (d : Drive) (index num k i : ℕ)
    → (d.cache k).valid ≡ false
    → ((invalidate_slot index num i d).cache k).valid ≡ false
unfolding invalidate_slot
invalid-stays d index num k i gone = ground (arith, gone)

invalid-each :
    (index num k left i : ℕ) (d : Drive)
    → (d.cache k).valid ≡ false
    → ((each_slot left i (invalidate_slot index num) d).cache k).valid ≡ false
unfolding each_slot
invalid-each index num k zero i d gone = gone
invalid-each index num k (suc left) i d gone =
    invalid-each index num k left (i + 1) (invalidate_slot index num i d)
      (invalid-stays d index num k i gone)

invalidates_here :
    (d e : Drive) (index num k i : ℕ)
    → skips d index num (d.cache k) ≡ false
    → OnlyValid d e
    → i ≡ k
    → ((invalidate_slot index num i e).cache k).valid ≡ false
unfolding invalidate_slot skips
invalidates_here d e index num k i met o here =
    let index_same = o.index_is k in
    let ratio_same = o.ratio_is in
    let met_here : skips e index num (e.cache i) ≡ false =
      ap (λ j. skips e index num (e.cache j)) here ∙ rw (index_same, ratio_same) met in
    ground (arith, met_here, here)

invalidates :
    (d e : Drive) (index num k left i : ℕ)
    → skips d index num (d.cache k) ≡ false
    → OnlyValid d e
    → i ≤ k
    → k < i + left
    → ((each_slot left i (invalidate_slot index num) e).cache k).valid ≡ false
unfolding each_slot
invalidates d e index num k zero i met o low high = absurd (omega (arith, low, high))
invalidates d e index num k (suc left) i met o low high = elim (ℕ_discrete i k) [
  | yes here ↦
      invalid-each index num k left (i + 1) (invalidate_slot index num i e)
        (invalidates_here d e index num k i met o here)
  | no n ↦
      invalidates d (invalidate_slot index num i e) index num k left (i + 1) met
        (OnlyValid-step d e index num i o) (omega (arith, low, n)) (omega (arith, high))
]

module _ (buffer buf : Memory) (c : FsChunks) (s : Cursor) (direct : s.drive.needs_buffer ≡ false)
    (many : 1 < c.num_full_chunks) where
  abbrev before : Drive
  before = s.drive

  abbrev emptied : Drive
  emptied = block_invalidate s.block c.num_full_chunks s.drive

  abbrev after : Drive
  after = (write_full buffer buf c s).drive

  after-eq : after ≡ write_blocks emptied s.block buf s.at c.num_full_chunks
  unfolding write_full
  after-eq = ground (arith, direct, many)

  kept_slot : OnlyValid before after
  unfolding write_blocks
  kept_slot =
      let o = invalidate-OnlyValid before s.block c.num_full_chunks in
      subst (OnlyValid before) (sym after-eq) (record {
        log2_is = o.log2_is;
        ratio_is = o.ratio_is;
        size_is = o.size_is;
        last_is = o.last_is;
        index_is = o.index_is;
        bytes_is = o.bytes_is;
        dirty_is = o.dirty_is;
      })

  slot-eq : (refresh_oldest_item after).0 ≡ (refresh_oldest_item before).0
  unfolding refresh_oldest_item
  slot-eq = ap₂ (λ x n. add32 x 1 % n) kept_slot.last_is kept_slot.size_is

  -- Where the driver needs no buffers, `write_full` puts two or more whole blocks on the medium and makes
  -- the oldest slot invalid whose line meets or adjoins them; if that slot was dirty, the next line that
  -- is loaded still writes its old bytes over the medium. The cache has a slot, and neither the range nor
  -- the slot's line wraps.
  pub stale_write_back :
      (block : ℕ) (whole : Bool) (bytes : Memory)
      → 0 < s.drive.cache_size
      → s.block + c.num_full_chunks < word
      → (oldest s.drive).index + s.drive.num_blocks_per_cache < word
      → (oldest s.drive).index ≤ s.block + c.num_full_chunks
      → s.block ≤ (oldest s.drive).index + s.drive.num_blocks_per_cache
      → (oldest s.drive).bytes ≡ some bytes
      → (oldest s.drive).dirty ≡ true
      → let w = (write_full buffer buf c s).drive in
        ((oldest w).valid ≡ false)
        × ((a : ℕ)
            → s.block <<< s.drive.block_size_log2 ≤ a
            → a
              < (s.block <<< s.drive.block_size_log2)
                + (c.num_full_chunks <<< s.drive.block_size_log2)
            → w.medium a ≡ buf (s.at + (a - (s.block <<< s.drive.block_size_log2))))
        × ((a : ℕ)
            → base s.drive (oldest s.drive) ≤ a
            → a < base s.drive (oldest s.drive) + line s.drive
            → (load_block w buffer block whole).1.medium a
              ≡ bytes (a - base s.drive (oldest s.drive)))
  unfolding write_blocks memcpy refresh_oldest_item block_invalidate skips add32
  stale_write_back block whole bytes slots no_wrap it_fits low high held dirty =
      let k : ℕ = (refresh_oldest_item before).0 in
      let o = kept_slot in
      let k_small : k < s.drive.cache_size = mod-lt (add32 s.drive.last_index 1) slots in
      let met : skips before s.block c.num_full_chunks (before.cache k) ≡ false =
        ground (arith, no_wrap, it_fits, low, high) in
      let gone : (emptied.cache k).valid ≡ false =
        invalidates before before s.block c.num_full_chunks k s.drive.cache_size 0 met
          (OnlyValid-refl before) (omega arith) (omega (arith, k_small)) in
      let valid_after : (after.cache k).valid ≡ false =
        ap (λ d. (d.cache k).valid) after-eq ∙ gone in
      let bytes_after = ap (λ j. (after.cache j).bytes) slot-eq ∙ o.bytes_is k in
      let dirty_after = ap (λ j. (after.cache j).dirty) slot-eq ∙ o.dirty_is k in
      let index_after = ap (λ j. (after.cache j).index) slot-eq ∙ o.index_is k in
      let base_after : base after (oldest after) ≡ base before (oldest before) =
        ap₂ (λ x n. x * 2 ^ n) index_after o.log2_is in
      let line_after : line after ≡ line before = ap₂ (λ x n. x * 2 ^ n) o.ratio_is o.log2_is in
      let log2_emptied = (invalidate-OnlyValid before s.block c.num_full_chunks).log2_is in
      (
        ap (λ j. (after.cache j).valid) slot-eq ∙ valid_after,
        λ a from to. ap (λ d. d.medium a) after-eq ∙ rw log2_emptied (ground (arith, from, to)),
        λ a from to.
            load-evicts after buffer block whole a bytes (bytes_after ∙ held) (dirty_after ∙ dirty)
              (omega (arith, base_after, from)) (omega (arith, base_after, line_after, to))
            ∙ ap (λ x. bytes (a - x)) base_after,
      )
