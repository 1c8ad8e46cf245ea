-- ===== src/Fat/Table.antt =====
-- drivers/formats/fat.cpp: reading and writing the entries of the allocation table, of every type.
use native.Mathlib.Nat.{mod-lt, mod-eq_of_lt, mul-le-mul_right, suc-mul}
use jsd_os.Prelude.{
  ℕ, suc, ◌+◌, ◌-◌, ◌*◌, ◌%◌, ◌^◌, ◌≤◌, ◌<◌, ◌≡◌, ◌≢◌, ◌⊎◌, inl, inr, refl, ap, sym, ◌∙◌, bit_and,
  arith, dec_lt,
}
use jsd_os.Prelude.Words.{word, mul32}
use jsd_os.Prelude.Bits.{bit_and_low}
use jsd_os.BlockCache.{Memory, memcpy}
use jsd_os.Fat.Packed.{
  IsBytes, entry_at, entry_of, written_12, read_le-two, read_le-four, read_le-beside,
  get_entry_12-eq, set_entry_12-eq, entry_12_self, entry_12-other,
}
use jsd_os.Fat.{
  FatType, fat_12, fat_16, fat_32, ex_fat, fat_unknown, fat_entry_mask, fat_entry_size, Volume,
  read_le, le_bytes, read_word, write_word, get_entry, get_entry_12, set_entry, set_entry_12,
  fat_get_next_cluster, fat_set_next_cluster,
}

-- The width of an entry in bits.
abbrev pub fat_entry_bits : FatType → ℕ
fat_entry_bits fat_unknown = 0
fat_entry_bits fat_12 = 12
fat_entry_bits fat_16 = 16
fat_entry_bits fat_32 = 28
fat_entry_bits ex_fat = 32

get_of_type :
    (t : FatType) (cluster : ℕ) (v : Volume)
    → v.fat.type ≡ t
    → fat_get_next_cluster cluster v ≡ elim t [
      | fat_12 ↦ get_entry_12 cluster v
      | fat_16 ↦ get_entry fat_16 cluster v
      | fat_32 ↦ get_entry fat_32 cluster v
      | ex_fat ↦ get_entry ex_fat cluster v
      | fat_unknown ↦ v.fat.eof_value
    ]
unfolding fat_get_next_cluster
get_of_type fat_12 cluster v e = ground arith
get_of_type fat_16 cluster v e = ground arith
get_of_type fat_32 cluster v e = ground arith
get_of_type ex_fat cluster v e = ground arith
get_of_type fat_unknown cluster v e = ground arith

entries_apart :
    (x y size start : ℕ)
    → x ≢ y
    → (start + y * size + size ≤ start + x * size) ⊎ (start + x * size + size ≤ start + y * size)
entries_apart x y size start ne = elim (dec_lt x y) [
  | yes lt ↦ inr (omega (arith, mul-le-mul_right size lt, suc-mul x size))
  | no ge ↦
      let lt : suc y ≤ x = omega arith in
      inl (omega (arith, mul-le-mul_right size lt, suc-mul y size))
]

-- The table of a drive: of a known type, read and written at one place, with room for the entries.
pub record HasTable (t : FatType) (v : Volume) : Type 0 where
  pub known : t ≢ fat_unknown
  pub typed : v.fat.type ≡ t
  pub one_place : t ≡ fat_12 → v.fat.fat_block ≡ v.fat.reserved_sectors
  pub bytes : IsBytes v.bytes

module _ (cluster next : ℕ) (v : Volume) where
  wide_self :
      (t : FatType) (k : ℕ)
      → fat_entry_mask t ≡ 2 ^ k - 1
      → ((w : ℕ) (m : Memory) (a : ℕ)
          → w < 2 ^ k
          → read_le (memcpy m a (le_bytes w) 0 (fat_entry_size t)) a (fat_entry_size t) ≡ w)
      → 0 < 2 ^ k
      → get_entry t cluster (set_entry t cluster next v) ≡ next % 2 ^ k
  unfolding get_entry set_entry read_word write_word
  wide_self t k mask back pos =
      let low = mod-lt next pos in
      rw (mask, bit_and_low k next, back (next % 2 ^ k) v.bytes _ low, bit_and_low k (next % 2 ^ k))
        (mod-eq_of_lt low)

  -- An entry as it is read from the table after a 12-bit one is written.
  seen_12 :
      (other : ℕ)
      → v.fat.fat_block ≡ v.fat.reserved_sectors
      → (b : IsBytes v.bytes) → cluster < 0x1000_0000
      → other < 0x1000_0000
      → let start = v.fat.reserved_sectors * v.block_size in
        get_entry_12 other (set_entry_12 cluster next v)
        ≡ entry_of other
            (read_le (written_12 v.bytes start cluster next b) (start + entry_at other) 2)
  unfolding set_entry_12 write_word
  seen_12 other e b small small' =
      get_entry_12-eq other (set_entry_12 cluster next v) (omega arith)
      ∙ ap (λ x. entry_of other (read_le x (v.fat.fat_block * v.block_size + entry_at other) 2))
          (set_entry_12-eq cluster next v (omega arith) b)
      ∙ ap
          (λ x. entry_of other (
            read_le (written_12 v.bytes (v.fat.reserved_sectors * v.block_size) cluster next b)
              (x * v.block_size + entry_at other) 2))
          e

  wide_other :
      (t : FatType) (other : ℕ)
      → cluster * fat_entry_size t < word
      → other * fat_entry_size t < word
      → cluster ≢ other
      → get_entry t other (set_entry t cluster next v) ≡ get_entry t other v
  unfolding get_entry set_entry read_word write_word mul32
  wide_other t other small small' ne =
      let start : ℕ = v.fat.fat_block * v.block_size in
      let size : ℕ = fat_entry_size t in
      let at : cluster * size % word ≡ cluster * size = omega arith in
      let at' : other * size % word ≡ other * size = omega arith in
      rw (at, at')
        (ap (λ x. bit_and x (fat_entry_mask t))
          (read_le-beside v.bytes (start + cluster * size) (bit_and next (fat_entry_mask t)) size
            size (start + other * size) (entries_apart cluster other size start ne)))

  -- The value stored for a cluster below 2 ^ 28 is read back, cut to the width of an entry, in a table of
  -- any known type; for 12-bit entries the table is to begin at the block of the reserved sectors, as it
  -- does where a sector is one block.
  pub next-set_self :
      (t : FatType)
      → HasTable t v
      → cluster < 0x1000_0000
      → fat_get_next_cluster cluster (fat_set_next_cluster t cluster next v)
        ≡ next % 2 ^ fat_entry_bits t
  unfolding fat_set_next_cluster
  next-set_self fat_unknown h small = absurd (h.known refl)
  next-set_self fat_12 h small =
      get_of_type fat_12 cluster _ (unfold set_entry_12 write_word in h.typed)
      ∙ seen_12 cluster (h.one_place refl) h.bytes small small
      ∙ entry_12_self v.bytes (v.fat.reserved_sectors * v.block_size) cluster next h.bytes
  next-set_self fat_16 h small =
      get_of_type fat_16 cluster _ (unfold set_entry write_word in h.typed)
      ∙ wide_self fat_16 16 refl (λ w m a. read_le-two m a w) (omega arith)
  next-set_self fat_32 h small =
      get_of_type fat_32 cluster _ (unfold set_entry write_word in h.typed)
      ∙ wide_self fat_32 28 refl (λ w m a l. read_le-four m a w (omega arith)) (omega arith)
  next-set_self ex_fat h small =
      get_of_type ex_fat cluster _ (unfold set_entry write_word in h.typed)
      ∙ wide_self ex_fat 32 refl (λ w m a. read_le-four m a w) (omega arith)

  -- Writing the entry of one cluster changes the entry of no other cluster, in a table of any known type,
  -- 12-bit entries that share bytes included, where both clusters are below 2 ^ 28 and, for 12-bit
  -- entries, the table begins at the block of the reserved sectors.
  pub next-set_other :
      (t : FatType) (other : ℕ)
      → HasTable t v
      → cluster < 0x1000_0000
      → other < 0x1000_0000
      → cluster ≢ other
      → fat_get_next_cluster other (fat_set_next_cluster t cluster next v)
        ≡ fat_get_next_cluster other v
  unfolding fat_set_next_cluster
  next-set_other fat_unknown other h small small' ne = absurd (h.known refl)
  next-set_other fat_12 other h small small' ne =
      get_of_type fat_12 other _ (unfold set_entry_12 write_word in h.typed)
      ∙ seen_12 other (h.one_place refl) h.bytes small small'
      ∙ entry_12-other v.bytes (v.fat.reserved_sectors * v.block_size) cluster next h.bytes other ne
      ∙ ap (λ x. entry_of other (read_le v.bytes (x * v.block_size + entry_at other) 2))
          (sym (h.one_place refl))
      ∙ sym (get_entry_12-eq other v (omega arith))
      ∙ sym (get_of_type fat_12 other v h.typed)
  next-set_other fat_16 other h small small' ne =
      get_of_type fat_16 other _ (unfold set_entry write_word in h.typed)
      ∙ wide_other fat_16 other (omega arith) (omega arith) ne
      ∙ sym (get_of_type fat_16 other v h.typed)
  next-set_other fat_32 other h small small' ne =
      get_of_type fat_32 other _ (unfold set_entry write_word in h.typed)
      ∙ wide_other fat_32 other (omega arith) (omega arith) ne
      ∙ sym (get_of_type fat_32 other v h.typed)
  next-set_other ex_fat other h small small' ne =
      get_of_type ex_fat other _ (unfold set_entry write_word in h.typed)
      ∙ wide_other ex_fat other (omega arith) (omega arith) ne
      ∙ sym (get_of_type ex_fat other v h.typed)
