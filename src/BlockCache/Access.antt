-- ===== src/BlockCache/Access.antt =====
-- kernel/filesystem/drives.cpp: reads and writes of bytes in one slot of the cache.
use native.Mathlib.Nat.{mul-mod_left}
use jsd_os.Prelude.{
  ℕ, ◌+◌, ◌-◌, ◌*◌, ◌/◌, ◌%◌, ◌^◌, ◌≤◌, ◌<◌, ◌≡◌, ◌≢◌, ◌⊎◌, inl, inr, refl, Bool, true, false, some,
  arith, ◌&&◌, ltb, leb, ℕ_discrete, Option-cases, Bool-cases, sym,
}
use jsd_os.Prelude.Words.{word, sub32}
use jsd_os.Chunks.{align_power_2}
use jsd_os.Physical.Align.{clear_low, pow-pos, pow-lt-word}
use jsd_os.BlockCache.{
  Memory, update, CachedBlock, Drive, slot_bytes, memcpy, find_block, load_block, block_rw,
  refresh_oldest_item,
}
use jsd_os.BlockCache.Lines.{lines_apart}
use jsd_os.BlockCache.Represents.{
  IsSized, line, base, Stands, Represents, HeldBack, find_block-some, find_block-none,
}
use jsd_os.BlockCache.Loading.{slot-lt, load-Stands, load-slot, slot, loaded}

update_self : (cache : ℕ → CachedBlock) (s : ℕ) (c : CachedBlock) → update cache s c s ≡ c
update_self cache s c = ground arith

update-other :
    (cache : ℕ → CachedBlock) (s i : ℕ) (c : CachedBlock) → s ≢ i → update cache s c i ≡ cache i
update-other cache s i c ne = ground arith

-- Writing `n` bytes at `at` of a slot's line.
module _ (d : Drive) (m : Memory) (s : ℕ) (blank : Bool) (r : Stands d m s blank)
    (s-lt : s < d.cache_size) (valid : (d.cache s).valid ≡ true) (at n : ℕ) (fits : at + n ≤ line d)
    (whole : blank ≡ true → n ≡ line d) (buf : Memory) (from : ℕ) where
  abbrev pub written : CachedBlock
  written = record (d.cache s) {
    bytes = some (memcpy (slot_bytes (d.cache s)) at buf from n);
    dirty = true;
  }

  abbrev pub after : Drive
  after = record d { cache = update d.cache s written }

  abbrev pub meaning : Memory
  meaning = memcpy m (base d (d.cache s) + at) buf from n

  own_lines : (o : ℕ) → o < line d → slot_bytes written o ≡ meaning (base d (d.cache s) + o)
  unfolding memcpy
  own_lines o h = ground (arith, whole, r.lines s o s-lt valid)

  other_lines :
      (i o : ℕ)
      → i ≢ s
      → i < d.cache_size
      → (d.cache i).valid ≡ true
      → o < line d
      → slot_bytes (d.cache i) o ≡ meaning (base d (d.cache i) + o)
  unfolding memcpy
  other_lines i o ne h v k =
      let apart =
        lines_apart (d.cache i).index (d.cache s).index d.num_blocks_per_cache
          (2 ^ d.block_size_log2) (base d (d.cache i) + o) (r.aligned i h v)
          (r.aligned s s-lt valid) (λ e. ne (r.unique i s h s-lt v valid e))
          (omega arith, omega arith) in
      ground (arith, apart, r.lines i o h v (inl ne) k)

  after-behind : (a : ℕ) → (d.medium a ≡ meaning a) ⊎ ((i : ℕ) × HeldBack after i a)
  unfolding memcpy
  after-behind a = elim (Bool-cases (leb start a && ltb a (start + n))) [
    | inl new ↦ inr (s, ground (arith, new))
    | inr old ↦ elim (r.behind a) [
      | inl e ↦ inl (ground (arith, old, e))
      | inr (i, h) ↦ inr (i, ground (arith, h))
    ]
  ]
    where
      start : ℕ
      start = base d (d.cache s) + at

  after-lines :
      (i o : ℕ)
      → i < after.cache_size
      → (after.cache i).valid ≡ true
      → (i ≢ 0) ⊎ (false ≡ false)
      → o < line after
      → slot_bytes (after.cache i) o ≡ meaning (base after (after.cache i) + o)
  after-lines i o h v which k = elim (ℕ_discrete s i) [
    | yes same ↦ rw (← same) (rw (update_self d.cache s written) (own_lines o k))
    | no other ↦
        let e = update-other d.cache s i written other in
        rw e (other_lines i o (λ q. other (sym q)) h (rw e at v) k)
  ]

  pub Represents-after : Represents after meaning
  Represents-after = record {
    lines = after-lines;
    behind = after-behind;
    unique = λ i j hi hj vi vj e. ground (arith, r.unique i j hi hj);
    aligned = λ i h v. ground (arith, r.aligned i h);
    kept = λ i h v. ground (arith, r.kept i h, valid);
  }

-- The sizes of a drive, which no access changes.
pub record SameSizes (d e : Drive) : Type 0 where
  pub same_size : e.block_size ≡ d.block_size
  pub same_log2 : e.block_size_log2 ≡ d.block_size_log2
  pub same_ratio : e.num_blocks_per_cache ≡ d.num_blocks_per_cache
  pub same_buffer : e.needs_buffer ≡ d.needs_buffer
  pub same_slots : e.cache_size ≡ d.cache_size
  pub last_lt : e.last_index < d.cache_size

-- The slot `out.0` of the drive `out.1` holds the line of `block`.
pub record Ready (d : Drive) (m : Memory) (block : ℕ) (blank : Bool) (out : ℕ × Drive)
    : Type 0 where
  pub sizes : SameSizes d out.1
  pub in_cache : out.0 < out.1.cache_size
  pub stands : Stands out.1 m out.0 blank
  pub holds : (out.1.cache out.0).index ≡ block
  pub is_valid : (out.1.cache out.0).valid ≡ true

module _ (d : Drive) (m buffer : Memory) (g : IsSized d) (r : Represents d m) where
  weaken : (s : ℕ) (blank : Bool) → Stands d m s blank
  weaken s blank = record {
    lines = λ i o h v which k. r.lines i o h v (inr refl) k;
    behind = r.behind;
    unique = r.unique;
    aligned = r.aligned;
    kept = r.kept;
  }

  load-Ready :
      (block : ℕ) (whole : Bool) (at_line : block % d.num_blocks_per_cache ≡ 0)
      → (absent : (i : ℕ) → i < d.cache_size → (d.cache i).valid ≡ true → (d.cache i).index ≢ block)
      → Ready d m block whole (load_block d buffer block whole)
  unfolding load_block refresh_oldest_item
  load-Ready block whole at_line absent =
      let s : ℕ = slot d m buffer r block whole g at_line absent in
      let c : CachedBlock × Memory = loaded d m buffer r block whole g at_line absent in
      let facts = load-slot d m buffer r block whole g at_line absent in
      let own = update_self d.cache s c.0 in
      record {
        sizes = record {
          same_size = refl;
          same_log2 = refl;
          same_ratio = refl;
          same_buffer = refl;
          same_slots = refl;
          last_lt = slot-lt d m buffer r block whole g at_line absent;
        };
        in_cache = slot-lt d m buffer r block whole g at_line absent;
        stands = load-Stands d m buffer r block whole g at_line absent;
        holds = rw own facts.0;
        is_valid = rw own facts.1;
      }

  module _ (index : ℕ) (whole : Bool) (small : index < word) where
    abbrev pub first : ℕ
    first = index / d.num_blocks_per_cache * d.num_blocks_per_cache

    first_of_line : align_power_2 index d.num_blocks_per_cache ≡ first
    unfolding align_power_2 sub32
    first_of_line =
        let p = g.ratio_pow in
        let mask : (d.num_blocks_per_cache + word - 1) % word ≡ d.num_blocks_per_cache - 1 =
          omega (arith, pow-lt-word p, pow-pos p) in
        let all : word - 1 - (d.num_blocks_per_cache - 1) ≡ word - d.num_blocks_per_cache =
          omega (arith, pow-pos p) in
        rw (mask, all) (clear_low index p small)

    pub block_rw-Ready : Ready d m first whole (block_rw d buffer index whole)
    unfolding block_rw
    block_rw-Ready = elim (Option-cases (find_block d.cache_size 0 first d.cache)) [
      | inl miss ↦
          let at_line : first % d.num_blocks_per_cache ≡ 0 =
            mul-mod_left (index / d.num_blocks_per_cache) d.num_blocks_per_cache in
          let absent = λ (i : ℕ) (h : i < d.cache_size) (v : (d.cache i).valid ≡ true).
            find_block-none first d.cache d.cache_size 0 i miss (omega arith) (omega arith) v in
          rw (first_of_line, miss, block_rw, first_of_line) (load-Ready first whole at_line absent)
      | inr (s, hit) ↦
          let found = find_block-some first d.cache d.cache_size 0 s hit in
          rw (first_of_line, hit, block_rw)
            (record {
              sizes = record {
                same_size = refl;
                same_log2 = refl;
                same_ratio = refl;
                same_buffer = refl;
                same_slots = refl;
                last_lt = g.slots.2;
              };
              in_cache = omega (arith, found);
              stands = weaken s whole;
              holds = found.2;
              is_valid = found.3;
            })
    ]
