-- ===== src/BlockCache/Represents.antt =====
-- What a drive and its cache stand for: one flat memory. Most of it is on the device; the rest is in
-- the dirty slots.
use jsd_os.Prelude.{
  ℕ, zero, suc, ◌+◌, ◌*◌, ◌%◌, ◌^◌, ◌≤◌, ◌<◌, ◌≡◌, ◌≢◌, ◌⊎◌, Bool, true, false, none, some, arith,
  ℕ_discrete,
}
use jsd_os.Prelude.Words.{word}
use jsd_os.Physical.Align.{IsPowerOfTwo}
use jsd_os.BlockCache.{Memory, CachedBlock, Drive, slot_bytes, find_block}

-- The bytes of a cached line, and where the line of a slot begins on the device.
abbrev pub line : Drive → ℕ
line d = d.num_blocks_per_cache * 2 ^ d.block_size_log2

abbrev pub base : Drive → CachedBlock → ℕ
base d b = b.index * 2 ^ d.block_size_log2

-- The sizes of a drive.
pub record IsSized (d : Drive) : Type 0 where
  pub size_pow : d.block_size ≡ 2 ^ d.block_size_log2
  pub ratio_pow : IsPowerOfTwo d.num_blocks_per_cache
  pub line_fits : line d < word
  pub slots : (0 < d.cache_size) × (d.cache_size < word) × (d.last_index < d.cache_size)

-- A slot that is dirty, and has address `a` of the device in its line.
abbrev pub HeldBack : Drive → ℕ → ℕ → Type 0
HeldBack d i a =
    (i < d.cache_size)
    × ((d.cache i).dirty ≡ true)
    × (base d (d.cache i) ≤ a)
    × (a < base d (d.cache i) + line d)

-- The cache and the device stand for `m`, slot `s` aside where `blank` says so: that slot is about to
-- be overwritten as a whole.
pub record Stands (d : Drive) (m : Memory) (s : ℕ) (blank : Bool) : Type 0 where
  pub lines :
      (i o : ℕ)
      → i < d.cache_size
      → (d.cache i).valid ≡ true
      → (i ≢ s) ⊎ (blank ≡ false)
      → o < line d
      → slot_bytes (d.cache i) o ≡ m (base d (d.cache i) + o)
  pub behind : (a : ℕ) → (d.medium a ≡ m a) ⊎ ((i : ℕ) × HeldBack d i a)
  pub unique :
      (i j : ℕ)
      → i < d.cache_size
      → j < d.cache_size
      → (d.cache i).valid ≡ true
      → (d.cache j).valid ≡ true
      → (d.cache i).index ≡ (d.cache j).index
      → i ≡ j
  pub aligned :
      (i : ℕ)
      → i < d.cache_size
      → (d.cache i).valid ≡ true
      → (d.cache i).index % d.num_blocks_per_cache ≡ 0
  pub kept :
      (i : ℕ)
      → i < d.cache_size
      → (d.cache i).dirty ≡ true
      → ((d.cache i).valid ≡ true) × ((d.cache i).bytes ≢ none)

-- The drive stands for the memory `m`.
abbrev pub Represents : Drive → Memory → Type 0
Represents d m = Stands d m 0 false

module _ (block : ℕ) (cache : ℕ → CachedBlock) where
  pub find_block-some :
      (left i s : ℕ)
      → find_block left i block cache ≡ some s
      → (i ≤ s) × (s < i + left) × ((cache s).index ≡ block) × ((cache s).valid ≡ true)
  unfolding find_block
  find_block-some zero i s e = cc
  find_block-some (suc left) i s e = ground (arith, find_block-some left (i + 1) s)

  pub find_block-none :
      (left i j : ℕ)
      → find_block left i block cache ≡ none
      → i ≤ j
      → j < i + left
      → (cache j).valid ≡ true
      → (cache j).index ≢ block
  unfolding find_block
  find_block-none zero i j e h k v = absurd (omega arith)
  find_block-none (suc left) i j e h k v = elim (ℕ_discrete i j) [
    | yes same ↦
        let valid : (cache i).valid ≡ true = rw same v in
        rw (← same) (λ q. ground (arith, valid, q))
    | no other ↦ ground (arith, find_block-none left (i + 1) j)
  ]
