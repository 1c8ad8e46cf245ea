-- ===== src/Fat/Boot/Kinds.antt =====
-- drivers/formats/fat.cpp: the type that `fat_read_bios_block` gives a drive.
use jsd_os.Prelude.{ℕ, ◌≤◌, ◌<◌, ◌≡◌, ◌⊎◌, sym, subst, true, arith}
use jsd_os.BlockCache.{Memory}
use jsd_os.Fat.{FatType, fat_12, fat_16, fat_32, FatDrive, read_le}
use jsd_os.Fat.Boot.{mount_success, has_single_bit, fat_kind, drive_of_block, fat_read_bios_block}

-- The three kinds of table, by the number of clusters.
abbrev pub IsKind : FatType → ℕ → ℕ → Type 0
IsKind type eof_value num_clusters =
    ((type ≡ fat_12) × (eof_value ≡ 0xff8) × (num_clusters < 0xff5))
    ⊎ (((type ≡ fat_16) × (eof_value ≡ 0xfff8) × (0xff5 ≤ num_clusters) × (num_clusters < 0xfff5))
        ⊎ ((type ≡ fat_32) × (eof_value ≡ 0xfff_fff8) × (0xfff5 ≤ num_clusters)))

table-IsKind :
    (bytes clusters : ℕ)
    → 0 < bytes
    → IsKind (fat_kind bytes clusters).type (fat_kind bytes clusters).eof_value clusters
unfolding fat_kind
table-IsKind bytes clusters pos = ground arith

IsKindOf : FatDrive → Type 0
IsKindOf d = IsKind d.type d.eof_value d.num_clusters

made-IsKind :
    (buffer : Memory) (d : FatDrive) (block_size : ℕ)
    → 0 < read_le buffer 11 2
    → IsKindOf (drive_of_block buffer d block_size)
unfolding IsKindOf drive_of_block
made-IsKind buffer d block_size pos = table-IsKind (read_le buffer 11 2) _ pos

single_bit-pos : (n : ℕ) → has_single_bit n ≡ true → 0 < n
unfolding has_single_bit
single_bit-pos n e = ground arith

-- A block that is accepted has sectors of some bytes, and its drive is the one its fields make.
accepted :
    (buffer : Memory) (d : FatDrive) (block_size : ℕ)
    → (fat_read_bios_block buffer d block_size).status ≡ mount_success
    → (0 < read_le buffer 11 2)
      × ((fat_read_bios_block buffer d block_size).drive ≡ drive_of_block buffer d block_size)
unfolding fat_read_bios_block
accepted buffer d block_size ok =
    let pos = single_bit-pos (read_le buffer 11 2) in (ground (arith, pos), ground arith)

-- A boot block that is accepted makes a drive of 12, 16 or 32-bit entries by its number of clusters, with
-- that type's value at the end of a chain, and never an exFAT drive.
pub bios_block-IsKind :
    (buffer : Memory) (d : FatDrive) (block_size : ℕ)
    → (fat_read_bios_block buffer d block_size).status ≡ mount_success
    → let made = (fat_read_bios_block buffer d block_size).drive in
      IsKind made.type made.eof_value made.num_clusters
unfolding IsKindOf
bios_block-IsKind buffer d block_size ok =
    let (pos, made) = accepted buffer d block_size ok in
    subst IsKindOf (sym made) (made-IsKind buffer d block_size pos)
