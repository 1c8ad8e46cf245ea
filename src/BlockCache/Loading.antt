-- ===== src/BlockCache/Loading.antt =====
-- kernel/filesystem/drives.cpp: how `block_rw` finds or loads a block.
use native.Mathlib.Nat.{mod-lt}
use jsd_os.Prelude.{
  ℕ, ◌+◌, ◌-◌, ◌*◌, ◌%◌, ◌^◌, ◌<◌, ◌≡◌, ◌≢◌, ◌⊎◌, inl, inr, refl, ◌∙◌, Bool, true, false, none,
  arith, ◌&&◌, ltb, leb, if◌then◌else◌, Bool-cases,
}
use jsd_os.Prelude.Words.{add32}
use jsd_os.BlockCache.{
  Memory, update, CachedBlock, Drive, slot_bytes, memcpy, evict, load_item, load_block,
  refresh_oldest_item, write_blocks,
}
use jsd_os.BlockCache.Lines.{lines_apart}
use jsd_os.BlockCache.Represents.{IsSized, line, base, Stands, Represents, HeldBack}

-- Is address `a` in the line of the slot?
abbrev pub covers : Drive → CachedBlock → ℕ → Bool
covers d item a = leb (base d item) a && ltb a (base d item + line d)

pub evict-medium :
    (d : Drive) (buffer : Memory) (item : CachedBlock) (a : ℕ)
    → (item.dirty ≡ true → item.bytes ≢ none)
    → (evict d buffer item).1 a
      ≡ (if item.dirty && covers d item a then slot_bytes item (a - base d item) else d.medium a)
unfolding evict write_blocks memcpy
evict-medium d buffer item a h = ground arith

module _ (d : Drive) (m buffer : Memory) (r : Represents d m) where
  -- The device after slot `s` is written back.
  evict_behind :
      (s a : ℕ)
      → s < d.cache_size
      → ((evict d buffer (d.cache s)).1 a ≡ m a) ⊎ ((i : ℕ) × (i ≢ s) × HeldBack d i a)
  evict_behind s a h = elim (Bool-cases ((d.cache s).dirty && covers d (d.cache s) a)) [
    | inl out ↦ inl (
        evict-medium d buffer (d.cache s) a (λ t. (r.kept s h t).1)
        ∙ ground (arith, out, r.kept s h, r.lines s (a - base d (d.cache s)) h))
    | inr still ↦ elim (r.behind a) [
      | inl e ↦
          inl
            (evict-medium d buffer (d.cache s) a (λ t. (r.kept s h t).1) ∙ ground (arith, still, e))
      | inr (i, held) ↦ inr (i, λ same. ground (arith, still, held, same), held)
    ]
  ]

  -- A slot whose contents are replaced by a line of `m`, or by nothing that counts yet.
  module _ (s : ℕ) (c : CachedBlock) (medium : Memory) (last : ℕ) (blank : Bool)
      (s-lt : s < d.cache_size) (at_line : c.index % d.num_blocks_per_cache ≡ 0)
      (clean : c.dirty ≡ false) (valid : c.valid ≡ true) (held : c.bytes ≢ none)
      (absent : (i : ℕ) → i < d.cache_size → (d.cache i).valid ≡ true → (d.cache i).index ≢ c.index)
      (own : (o : ℕ) → blank ≡ false → o < line d → slot_bytes c o ≡ m (base d c + o))
      (behind : (a : ℕ) → (medium a ≡ m a) ⊎ ((i : ℕ) × (i ≢ s) × HeldBack d i a)) where
    abbrev replaced : Drive
    replaced = record d { medium = medium; last_index = last; cache = update d.cache s c }

    replaced-behind : (a : ℕ) → (medium a ≡ m a) ⊎ ((i : ℕ) × HeldBack replaced i a)
    replaced-behind a = elim (behind a) [
      | inl e ↦ inl e
      | inr (i, ne, h) ↦ inr (i, ground (arith, h, ne))
    ]

    Stands-replace : Stands replaced m s blank
    Stands-replace = record {
      lines = λ i o h v which k. ground (arith, own o, r.lines i o h);
      behind = replaced-behind;
      unique = λ i j hi hj vi vj e. ground (arith, absent i hi, absent j hj, r.unique i j hi hj);
      aligned = λ i h v. ground (arith, r.aligned i h);
      kept = λ i h v. ground (arith, r.kept i h);
    }

  module _ (block : ℕ) (whole : Bool) (g : IsSized d) (at_line : block % d.num_blocks_per_cache ≡ 0)
      (absent : (i : ℕ)
        → i < d.cache_size
        → (d.cache i).valid ≡ true
        → (d.cache i).index ≢ block) where
    abbrev pub slot : ℕ
    slot = (refresh_oldest_item d).0

    pub slot-lt : slot < d.cache_size
    unfolding refresh_oldest_item
    slot-lt = mod-lt (add32 d.last_index 1) g.slots.0

    abbrev pub loaded : CachedBlock × Memory
    loaded = load_item (refresh_oldest_item d).1 buffer block whole (d.cache slot)

    load-medium : (a : ℕ) → loaded.1 a ≡ (evict d buffer (d.cache slot)).1 a
    unfolding load_item refresh_oldest_item evict
    load-medium a = ground arith

    load-clean : loaded.0.dirty ≡ false
    unfolding load_item
    load-clean = ground (arith, r.kept slot slot-lt)

    pub load-slot : (loaded.0.index ≡ block) × (loaded.0.valid ≡ true) × (loaded.0.bytes ≢ none)
    unfolding load_item
    load-slot = ground arith

    load-lines :
        (o : ℕ)
        → whole ≡ false
        → o < line d
        → slot_bytes loaded.0 o ≡ loaded.1 (block * 2 ^ d.block_size_log2 + o)
    unfolding load_item memcpy refresh_oldest_item
    load-lines o e h = ground arith

    -- No other slot holds bytes of the loaded line back.
    held_elsewhere : (i o : ℕ) → o < line d → ¬ HeldBack d i (block * 2 ^ d.block_size_log2 + o)
    held_elsewhere i o h held =
        let v = (r.kept i held.0 held.1).0 in
        lines_apart (d.cache i).index block d.num_blocks_per_cache (2 ^ d.block_size_log2) _
          (r.aligned i held.0 v) at_line (absent i held.0 v) (held.2, held.3)
          (omega arith, omega arith)

    load-behind : (a : ℕ) → (loaded.1 a ≡ m a) ⊎ ((i : ℕ) × (i ≢ slot) × HeldBack d i a)
    load-behind a = rw (load-medium a) (evict_behind slot a slot-lt)

    load-own :
        (o : ℕ)
        → whole ≡ false
        → o < line d
        → slot_bytes loaded.0 o ≡ m (block * 2 ^ d.block_size_log2 + o)
    load-own o e h = load-lines o e h ∙ (elim (load-behind (block * 2 ^ d.block_size_log2 + o)) [
      | inl q ↦ q
      | inr (i, ne, held) ↦ absurd (held_elsewhere i o h held)
    ])

    pub load-Stands : Stands (load_block d buffer block whole).1 m slot whole
    unfolding load_block load_item
    load-Stands =
        Stands-replace slot loaded.0 loaded.1 slot whole slot-lt at_line load-clean refl
          (load-slot.2) absent load-own load-behind
