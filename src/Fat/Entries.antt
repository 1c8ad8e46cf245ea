-- ===== src/Fat/Entries.antt =====
-- drivers/formats/fat.cpp: directory entries. `tm` has the fields of a date that is not before 1900; a
-- short name is a parameter of the entry.
use jsd_os.Prelude.{
  ℕ, ◌+◌, ◌-◌, ◌*◌, ◌/◌, ◌%◌, bit_and, bit_or, Bool, true, false, not, List, [], ◌∷◌, ◌==◌,
  if◌then◌else◌,
}
use jsd_os.Prelude.Words.{u8, u16, u32, ◌<<<◌, ◌>>>◌}
pub mod Flags
pub mod Location

pub record FatTime : Type 0 where
  pub date : ℕ
  pub time : ℕ

pub record Tm : Type 0 where
  pub tm_sec : ℕ
  pub tm_min : ℕ
  pub tm_hour : ℕ
  pub tm_mday : ℕ
  pub tm_mon : ℕ
  pub tm_year : ℕ

pub time_t_time_to_fat_time : Tm → FatTime
time_t_time_to_fat_time t = record {
  date = u16 (
      bit_or (bit_or (bit_and t.tm_mday 0x1f) (bit_and ((t.tm_mon + 1) <<< 5) 0x1e0))
        (bit_and ((t.tm_year + 80) <<< 9) 0xfe00));
  time = u16 (
      bit_or (bit_or (bit_and (t.tm_sec >>> 1) 0x1f) (bit_and (t.tm_sec <<< 5) 0x7e0))
        (bit_and (t.tm_hour <<< 11) 0x7e0));
}

-- `directory_attributes` and `file_flags`.
abbrev pub read_only : ℕ
read_only = 1

abbrev pub directory : ℕ
directory = 0x10

abbrev pub is_dir : ℕ
is_dir = 1

abbrev pub is_readonly : ℕ
is_readonly = 2

abbrev pub fat_root_dir_flag : ℕ
fat_root_dir_flag = 0x8000_0000

abbrev pub has : ℕ → ℕ → Bool
has flags flag = not (bit_and flags flag == 0)

pub fat_convert_flags : ℕ → Bool → ℕ
fat_convert_flags fat_flags is_root =
    let kind : ℕ =
      if has fat_flags directory
      then (if is_root then bit_or is_dir fat_root_dir_flag else is_dir)
      else 0 in
    if has fat_flags read_only then bit_or kind is_readonly else kind

pub to_fat_flags : ℕ → ℕ
to_fat_flags flags =
    let kind : ℕ = if has flags is_dir then directory else 0 in
    if has flags is_readonly then bit_or kind read_only else kind

pub record FatDirectoryEntry : Type 0 where
  pub name : List ℕ
  pub attributes : ℕ
  pub reserved : ℕ
  pub created_time_ms : ℕ
  pub created_time : ℕ
  pub created_date : ℕ
  pub accessed_date : ℕ
  pub first_cluster_hi : ℕ
  pub modified_time : ℕ
  pub modified_date : ℕ
  pub first_cluster : ℕ
  pub file_size : ℕ

pub fat_file_location : FatDirectoryEntry → ℕ
fat_file_location entry = bit_or entry.first_cluster (u32 (entry.first_cluster_hi <<< 16))

-- The file's place, size and flags.
pub record FileData : Type 0 where
  pub location_on_disk : ℕ
  pub size : ℕ
  pub flags : ℕ

pub fat_create_dir_entry : FileData → List ℕ → Tm → FatDirectoryEntry
unfolding time_t_time_to_fat_time to_fat_flags
fat_create_dir_entry file name created =
    let create : FatTime = time_t_time_to_fat_time created in
    record {
      name = name;
      attributes = to_fat_flags file.flags;
      reserved = 0;
      created_time_ms = 0;
      created_time = create.time;
      created_date = create.date;
      accessed_date = 0;
      first_cluster_hi = u16 (bit_and file.location_on_disk 0xffff_0000);
      modified_time = create.time;
      modified_date = create.date;
      first_cluster = u16 (bit_and file.location_on_disk 0xffff);
      file_size = u32 file.size;
    }

-- `fat_lfn_checksum`, a step for each character of the short name.
pub checksum_from : ℕ → List ℕ → ℕ
checksum_from sum [] = sum
checksum_from sum (c ∷ name) =
    checksum_from (u8 (u8 (bit_and sum 1 <<< 7) + u8 (sum >>> 1) + c)) name

pub fat_lfn_checksum : List ℕ → ℕ
unfolding checksum_from
fat_lfn_checksum name = checksum_from 0 name
