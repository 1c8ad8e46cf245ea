-- ===== src/Fat.antt =====
-- drivers/formats/fat.cpp: the file allocation table. `Volume` is the partition as `filesystem_read` and
-- `filesystem_write` show it: bytes from its first block on, with `fat_drive` in the same record.
-- Words are stored with the low byte first.
pub mod Packed
pub mod Table
pub mod Clusters
pub mod Boot
pub mod Entries
mod Examples
use jsd_os.Prelude.{
  ℕ, zero, suc, ◌+◌, ◌-◌, ◌*◌, ◌/◌, ◌%◌, ◌^◌, bit_and, bit_or, Bool, true, false, not, ◌&&◌, ◌||◌,
  List, [], ◌∷◌, ltb, leb, ◌==◌, if◌then◌else◌,
}
use jsd_os.Prelude.Words.{u16, u32, add32, sub32, mul32, ◌<<<◌, ◌>>>◌}
use jsd_os.BlockCache.{Memory, memcpy}

pub data FatType : Type 0 where
  fat_unknown fat_12 fat_16 fat_32 ex_fat : FatType

-- `fat_entry_mask`, and the size of `fat_entry_type_t`.
abbrev pub fat_entry_mask : FatType → ℕ
fat_entry_mask fat_unknown = 0
fat_entry_mask fat_12 = 0xfff
fat_entry_mask fat_16 = 0xffff
fat_entry_mask fat_32 = 0xfff_ffff
fat_entry_mask ex_fat = 0xffff_ffff

abbrev pub fat_entry_size : FatType → ℕ
fat_entry_size fat_32 = 4
fat_entry_size ex_fat = 4
fat_entry_size _ = 2

pub record ClusterSpan : Type 0 where
  pub first_cluster : ℕ
  pub num_clusters : ℕ

pub record FatDrive : Type 0 where
  pub fats_size : ℕ
  pub root_location : ℕ
  pub datasector : ℕ
  pub cluster_size : ℕ
  pub cluster_size_log2 : ℕ
  pub sectors_per_cluster : ℕ
  pub sectors_per_cluster_log2 : ℕ
  pub bytes_per_sector : ℕ
  pub root_entries : ℕ
  pub reserved_sectors : ℕ
  pub num_clusters : ℕ
  pub blocks_per_sector : ℕ
  pub blocks_per_sector_log2 : ℕ
  pub fat_block : ℕ
  pub eof_value : ℕ
  pub type : FatType
  pub free_clusters : List ClusterSpan

pub record Volume : Type 0 where
  pub block_size : ℕ
  pub bytes : Memory
  pub fat : FatDrive

-- The word of `n` bytes at an address, and its bytes.
pub read_le : Memory → ℕ → ℕ → ℕ
read_le m a zero = 0
read_le m a (suc n) = m a + 0x100 * read_le m (a + 1) n

abbrev pub le_bytes : ℕ → Memory
le_bytes value i = value / 0x100 ^ i % 0x100

-- filesystem_read(fd, block, offset, &value, n) and filesystem_write of the same.
pub read_word : Volume → ℕ → ℕ → ℕ → ℕ
unfolding read_le
read_word v block offset n = read_le v.bytes (block * v.block_size + offset) n

pub write_word : Volume → ℕ → ℕ → ℕ → ℕ → Volume
unfolding memcpy
write_word v block offset n value = record v {
  bytes = memcpy v.bytes (block * v.block_size + offset) (le_bytes value) 0 n;
}

-- `fat_get_next_cluster<T>`, and its specialisation to 12-bit entries.
pub get_entry : FatType → ℕ → Volume → ℕ
unfolding read_word
get_entry t cluster v =
    let offset : ℕ = mul32 cluster (fat_entry_size t) in
    bit_and (read_word v v.fat.fat_block offset (fat_entry_size t)) (fat_entry_mask t)

pub get_entry_12 : ℕ → Volume → ℕ
unfolding read_word
get_entry_12 cluster v =
    let value : ℕ = read_word v v.fat.fat_block (add32 cluster (cluster / 2)) 2 in
    if bit_and cluster 1 == 0 then bit_and value 0xfff else value >>> 4

-- `fat_set_next_cluster<T>`, and its specialisation to 12-bit entries.
pub set_entry : FatType → ℕ → ℕ → Volume → Volume
unfolding write_word
set_entry t cluster next v =
    let offset : ℕ = mul32 cluster (fat_entry_size t) in
    write_word v v.fat.fat_block offset (fat_entry_size t) (bit_and next (fat_entry_mask t))

pub set_entry_12 : ℕ → ℕ → Volume → Volume
unfolding read_word write_word
set_entry_12 cluster next v =
    let offset : ℕ = add32 cluster (cluster / 2) in
    let fat_sector : ℕ = v.fat.reserved_sectors in
    let value : ℕ = read_word v fat_sector offset 2 in
    write_word v fat_sector offset 2 (
      if bit_and cluster 1 == 0
      then bit_or (bit_and value 0xf000) (bit_and next 0xfff)
      else bit_or (bit_and value 0xf) (u16 (next <<< 4)))

-- `fat_get_next_cluster`, with a failed assertion as the end of the chain.
pub fat_get_next_cluster : ℕ → Volume → ℕ
unfolding get_entry get_entry_12
fat_get_next_cluster cluster v = elim v.fat.type [
  | fat_12 ↦ get_entry_12 cluster v
  | fat_16 ↦ get_entry fat_16 cluster v
  | fat_32 ↦ get_entry fat_32 cluster v
  | ex_fat ↦ get_entry ex_fat cluster v
  | fat_unknown ↦ v.fat.eof_value
]

pub fat_set_next_cluster : FatType → ℕ → ℕ → Volume → Volume
unfolding set_entry set_entry_12
fat_set_next_cluster fat_12 cluster next v = set_entry_12 cluster next v
fat_set_next_cluster fat_16 cluster next v = set_entry fat_16 cluster next v
fat_set_next_cluster fat_32 cluster next v = set_entry fat_32 cluster next v
fat_set_next_cluster ex_fat cluster next v = set_entry ex_fat cluster next v
fat_set_next_cluster fat_unknown cluster next v = v
