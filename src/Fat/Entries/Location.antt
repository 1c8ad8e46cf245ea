-- ===== src/Fat/Entries/Location.antt =====
-- drivers/formats/fat.cpp: the first cluster in a new directory entry.
use jsd_os.Prelude.{ℕ, ◌%◌, ◌<◌, ◌≡◌, ap, ◌∙◌, bit_and, List, arith}
use jsd_os.Prelude.Words.{u16, u32, word, ◌<<<◌}
use jsd_os.Prelude.Bits.{bit_and_low, bit_and_high, bit_or-zero}
use jsd_os.Fat.Entries.{FileData, Tm, fat_file_location, fat_create_dir_entry}

-- The location that a new directory entry is read to say is the file's location modulo 2 ^ 16, for any
-- location of 32 bits.
pub file_location-create :
    (file : FileData) (name : List ℕ) (created : Tm)
    → file.location_on_disk < word
    → fat_file_location (fat_create_dir_entry file name created) ≡ file.location_on_disk % 0x1_0000
unfolding fat_file_location fat_create_dir_entry
file_location-create file name created small =
    let x : ℕ = file.location_on_disk in
    let low : u16 (bit_and x 0xffff) ≡ x % 0x1_0000 = ap u16 (bit_and_low 16 x) ∙ omega arith in
    let high : u32 (u16 (bit_and x 0xffff_0000) <<< 16) ≡ 0 =
      ap (λ y. u32 (u16 y <<< 16)) (bit_and_high 16 16 x small) ∙ omega arith in
    rw (low, high) (bit_or-zero (x % 0x1_0000))
