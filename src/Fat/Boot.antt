-- ===== src/Fat/Boot.antt =====
-- drivers/formats/fat.cpp: the boot block, and where a cluster lies. The fields of `bpb` and of
-- `fat32_ext_bpb` behind it are read at their offsets.
use jsd_os.Prelude.{
  ℕ, zero, suc, ◌+◌, ◌-◌, ◌*◌, ◌/◌, ◌%◌, ◌^◌, bit_and, Bool, true, false, not, ◌&&◌, ◌||◌, List, [],
  ltb, ◌==◌, if◌then◌else◌,
}
use jsd_os.Prelude.Words.{u32, add32, sub32, mul32, ◌<<<◌}
use jsd_os.BlockCache.{Memory}
use jsd_os.Fat.{FatType, fat_12, fat_16, fat_32, ex_fat, fat_unknown, FatDrive, read_le}
pub mod Kinds
pub mod Layout

pub data MountStatus : Type 0 where
  mount_success unknown_filesystem mount_failure drive_not_supported : MountStatus

-- std::has_single_bit, and std::countr_zero of a 32-bit value.
unfoldable pub has_single_bit : ℕ → Bool
has_single_bit n = not (n == 0) && (bit_and n (n - 1) == 0)

pub countr_zero_below : ℕ → ℕ → ℕ
countr_zero_below zero n = 0
countr_zero_below (suc bits) n =
    let rest : ℕ = countr_zero_below bits (n / 2) in if n % 2 == 1 then 0 else suc rest

pub countr_zero : ℕ → ℕ
unfolding countr_zero_below
countr_zero n = countr_zero_below 32 n

pub fat_cluster_to_block : FatDrive → ℕ → ℕ
unfolding sub32 add32
fat_cluster_to_block d cluster = u32 (
    add32 (u32 (sub32 cluster 2 <<< d.sectors_per_cluster_log2)) d.datasector
    <<< d.blocks_per_sector_log2)

-- The type of the table by the number of clusters, and the value that ends a chain in it.
pub record Kind : Type 0 where
  pub type : FatType
  pub eof_value : ℕ

pub fat_kind : ℕ → ℕ → Kind
fat_kind bytes_per_sector total_clusters =
    if bytes_per_sector == 0
    then record { type = ex_fat; eof_value = 0xffff_fff8 }
    else if ltb total_clusters 0xff5
    then record { type = fat_12; eof_value = 0xff8 }
    else if ltb total_clusters 0xfff5
    then record { type = fat_16; eof_value = 0xfff8 }
    else record { type = fat_32; eof_value = 0xfff_fff8 }

pub record Mounted : Type 0 where
  pub status : MountStatus
  pub drive : FatDrive

-- The drive that the fields of an accepted boot block make; a number of sectors to a cluster that is 0
-- would divide by zero.
pub drive_of_block : Memory → FatDrive → ℕ → FatDrive
unfolding read_le add32 sub32 mul32 countr_zero fat_kind
drive_of_block buffer d block_size =
    let bytes_per_sector : ℕ = read_le buffer 11 2 in
    let sectors_per_cluster : ℕ = read_le buffer 13 1 in
    let reserved_sectors : ℕ = read_le buffer 14 2 in
    let root_entries : ℕ = read_le buffer 17 2 in
    let root_size : ℕ = 32 * root_entries / bytes_per_sector in
    let fats_size : ℕ = read_le buffer 16 1 * read_le buffer 22 2 in
    let root_location : ℕ = add32 fats_size reserved_sectors in
    let datasector : ℕ = add32 root_location root_size in
    let cluster_size : ℕ = sectors_per_cluster * bytes_per_sector in
    let blocks_per_sector : ℕ = bytes_per_sector / block_size in
    let total_sectors : ℕ =
      if read_le buffer 19 2 == 0 then read_le buffer 32 4 else read_le buffer 19 2 in
    let total_clusters : ℕ = sub32 total_sectors datasector / sectors_per_cluster in
    let kind : Kind = fat_kind bytes_per_sector total_clusters in
    record d {
      fats_size = fats_size;
      root_location = elim kind.type [
        | ex_fat ↦ read_le buffer 44 4
        | fat_32 ↦ read_le buffer 44 4
        | _ ↦ root_location
      ];
      datasector = datasector;
      cluster_size = cluster_size;
      cluster_size_log2 = countr_zero cluster_size;
      sectors_per_cluster = sectors_per_cluster;
      sectors_per_cluster_log2 = countr_zero sectors_per_cluster;
      bytes_per_sector = bytes_per_sector;
      root_entries = root_entries;
      reserved_sectors = reserved_sectors;
      num_clusters = total_clusters;
      blocks_per_sector = blocks_per_sector;
      blocks_per_sector_log2 = countr_zero blocks_per_sector;
      fat_block = mul32 reserved_sectors blocks_per_sector;
      eof_value = kind.eof_value;
      type = kind.type;
    }

unfoldable pub fat_read_bios_block : Memory → FatDrive → ℕ → Mounted
unfolding read_le has_single_bit drive_of_block
fat_read_bios_block buffer d block_size =
    if not (buffer 0 == 0xeb) || not (buffer 2 == 0x90)
    then record { status = unknown_filesystem; drive = d }
    else if not (has_single_bit (read_le buffer 11 2))
    then record { status = mount_failure; drive = d }
    else if ltb (read_le buffer 11 2) block_size
    then record { status = drive_not_supported; drive = d }
    else record { status = mount_success; drive = drive_of_block buffer d block_size }
