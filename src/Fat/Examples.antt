-- ===== src/Fat/Examples.antt =====
-- The theorems on drivers/formats/fat.cpp at concrete volumes, boot blocks and files.
use jsd_os.Prelude.{
  ◌==◌, if◌then◌else◌, ◌*◌, ℕ, ◌+◌, ◌%◌, ◌^◌, ◌≤◌, ◌≡◌, ◌≢◌, inl, inr, refl, subst, false, [],
  arith,
}
use jsd_os.Fat.{
  read_le, FatType, fat_12, fat_16, get_entry, fat_unknown, FatDrive, Volume, fat_get_next_cluster,
  fat_set_next_cluster,
}
use jsd_os.Fat.Table.{HasTable, next-set_self, next-set_other}
use jsd_os.Prelude.{zero, suc, ◌*◌, ◌<◌}
use jsd_os.Chunks.Blocks.{file_bytes}
use jsd_os.Fat.Clusters.Reading.{cluster_place, fat_read}
use jsd_os.Fat.Clusters.Reading.Contents.{chain, fat_read-file_bytes}
use jsd_os.Fat.Clusters.{
  fat_get_relative_cluster, write_to_fat, fat_allocate_clusters, fat_cluster_is_free,
  skip_allocated,
}
use jsd_os.Fat.Clusters.Chain.{write_to_fat-walk, write_to_fat-other}
use jsd_os.Fat.Clusters.Report.{IsFull, allocate_full}
use jsd_os.Fat.Boot.{mount_success, has_single_bit, fat_cluster_to_block, fat_read_bios_block}
use jsd_os.Fat.Entries.{FileData, Tm, fat_file_location, fat_create_dir_entry}
use jsd_os.Fat.Entries.Location.{file_location-create}
use jsd_os.Fat.Boot.Kinds.{IsKind, bios_block-IsKind}
use jsd_os.Fat.Boot.Layout.{cluster_to_block-apart}
use jsd_os.BlockCache.{Memory}
use jsd_os.Prelude.Words.{add32, sub32, mul32}

abbrev drive_of : FatType → ℕ → ℕ → FatDrive
drive_of t eof clusters = record {
  fats_size = 9;
  root_location = 10;
  datasector = 24;
  cluster_size = 512;
  cluster_size_log2 = 9;
  sectors_per_cluster = 1;
  sectors_per_cluster_log2 = 0;
  bytes_per_sector = 512;
  root_entries = 224;
  reserved_sectors = 1;
  num_clusters = clusters;
  blocks_per_sector = 1;
  blocks_per_sector_log2 = 0;
  fat_block = 1;
  eof_value = eof;
  type = t;
  free_clusters = [];
}

-- A volume whose every byte is the same.
abbrev volume_of : FatType → ℕ → ℕ → ℕ → Volume
volume_of t eof clusters byte = record {
  block_size = 512;
  bytes = λ _. byte;
  fat = drive_of t eof clusters;
}

abbrev floppy : Volume
floppy = volume_of fat_12 0xff8 10 0x55

fat_12-known : fat_12 ≢ fat_unknown
fat_12-known e = subst (λ t. elim t [ fat_12 ↦ ℕ | _ ↦ ⊥ ]) e 0

floppy-HasTable : HasTable fat_12 floppy
floppy-HasTable = record {
  known = fat_12-known;
  typed = refl;
  one_place = λ _. refl;
  bytes = λ _. omega arith;
}

next-set_self_example :
    fat_get_next_cluster 3 (fat_set_next_cluster fat_12 3 0x1234 floppy) ≡ 0x1234 % 2 ^ 12
next-set_self_example = next-set_self 3 0x1234 floppy fat_12 floppy-HasTable (omega arith)

next-set_other_example :
    fat_get_next_cluster 2 (fat_set_next_cluster fat_12 3 0xabc floppy)
    ≡ fat_get_next_cluster 2 floppy
next-set_other_example =
    next-set_other 3 0xabc floppy fat_12 2 floppy-HasTable (omega arith) (omega arith) (omega arith)

write_to_fat-walk_example :
    (fat_get_relative_cluster 9 3 (write_to_fat 9 4 4 floppy).volume ≡ 4 + 2)
    × (fat_get_relative_cluster 9 4 (write_to_fat 9 4 4 floppy).volume
        ≡ (write_to_fat 9 4 4 floppy).last_cluster)
write_to_fat-walk_example =
    write_to_fat-walk fat_12 4 4 floppy floppy-HasTable (omega arith) (omega arith) (omega arith) 9
      (omega arith) (omega arith) 2 (inr (omega arith)) (omega arith) (omega arith)

write_to_fat-other_example :
    fat_get_next_cluster 2 (write_to_fat 9 4 4 floppy).volume ≡ fat_get_next_cluster 2 floppy
write_to_fat-other_example =
    write_to_fat-other fat_12 4 4 floppy floppy-HasTable (omega arith) (omega arith) (omega arith) 9
      (omega arith) (omega arith) 2 (omega arith) (omega arith) (inl (omega arith))

-- A table of 16-bit entries in which every cluster is the last of its chain.
abbrev full_volume : Volume
full_volume = record {
  block_size = 512;
  bytes = λ a. if a % 2 == 0 then 0xf8 else 0xff;
  fat = drive_of fat_16 0xfff8 3;
}

full_volume-IsFull : IsFull full_volume
unfolding fat_cluster_is_free fat_get_next_cluster get_entry mul32
full_volume-IsFull zero small = refl
full_volume-IsFull (suc zero) small = refl
full_volume-IsFull (suc (suc zero)) small = refl
full_volume-IsFull (suc (suc (suc c))) small = absurd (omega (arith, small))

allocate_full_example :
    (5000 ≤ (fat_allocate_clusters 2 5000 false full_volume).size)
    × ((fat_allocate_clusters 2 5000 false full_volume).volume
        ≡ (write_to_fat 2 0xfff8 1 full_volume).volume)
unfolding skip_allocated fat_get_next_cluster get_entry add32 sub32 mul32
allocate_full_example =
    allocate_full 2 5000 false full_volume (omega arith) (omega arith) (inr refl) refl
      full_volume-IsFull (omega arith)

-- The boot block of a floppy disk of 2880 sectors.
abbrev boot_block : Memory
boot_block a =
    if a == 0
    then 0xeb
    else if a == 2
    then 0x90
    else if a == 12
    then 2
    else if a == 13
    then 1
    else if a == 14
    then 1
    else if a == 16
    then 2
    else if a == 17
    then 224
    else if a == 19
    then 0x40
    else if a == 20
    then 0xb
    else if a == 22
    then 9
    else 0

boot_block-accepted :
    (fat_read_bios_block boot_block (drive_of fat_unknown 0 0) 512).status ≡ mount_success
unfolding fat_read_bios_block has_single_bit read_le
boot_block-accepted = refl

bios_block-IsKind_example :
    let made = (fat_read_bios_block boot_block (drive_of fat_unknown 0 0) 512).drive in
    IsKind made.type made.eof_value made.num_clusters
bios_block-IsKind_example =
    bios_block-IsKind boot_block (drive_of fat_unknown 0 0) 512 boot_block-accepted

cluster_to_block-apart_example :
    fat_cluster_to_block (drive_of fat_12 0xff8 10) 5 + 2 ^ 0 * 2 ^ 0
    ≤ fat_cluster_to_block (drive_of fat_12 0xff8 10) 6
cluster_to_block-apart_example =
    cluster_to_block-apart (drive_of fat_12 0xff8 10) 5 6 (omega arith) (omega arith) (omega arith)
      (omega arith)

abbrev new_year : Tm
new_year = record { tm_sec = 0; tm_min = 0; tm_hour = 0; tm_mday = 1; tm_mon = 0; tm_year = 100 }

-- A file whose first cluster is above 65535.
abbrev far_file : FileData
far_file = record { location_on_disk = 0x1_2345; size = 10; flags = 0 }

file_location-create_example :
    fat_file_location (fat_create_dir_entry far_file [] new_year) ≡ 0x1_2345 % 0x1_0000
file_location-create_example = file_location-create far_file [] new_year (omega arith)

-- A file of two clusters.
second_cluster : fat_get_next_cluster 3 floppy ≡ 0x555
unfolding fat_get_next_cluster
second_cluster = refl

two_clusters : (k : ℕ) → k * 512 < 10 + 600 → chain floppy 3 k < 0xff8
unfolding chain
two_clusters zero low = omega arith
two_clusters (suc zero) low = omega (arith, second_cluster)
two_clusters (suc (suc k)) low = absurd (omega (arith, low))

fat_read-file_bytes_example :
    (fat_read 3 10 600 0 floppy).contents
    ≡ file_bytes floppy.bytes (λ k. cluster_place floppy (chain floppy 3 k)) 512 600 10
fat_read-file_bytes_example =
    fat_read-file_bytes floppy 3 10 600 0 refl (omega arith) (omega arith) (ground arith)
      two_clusters
