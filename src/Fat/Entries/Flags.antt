-- ===== src/Fat/Entries/Flags.antt =====
-- drivers/formats/fat.cpp: the flags of a file and those of its directory entry.
use jsd_os.Prelude.{ℕ, ◌+◌, ◌*◌, ◌/◌, ◌%◌, ◌≡◌, ◌∙◌, bit_and, false, arith, ℕ_discrete}
use jsd_os.Prelude.Bits.{bit_and_low, bit_and_halves}
use jsd_os.Fat.Entries.{fat_convert_flags, to_fat_flags, is_dir, is_readonly}

second_bit : (x : ℕ) → bit_and x 2 ≡ x / 2 % 2 * 2
second_bit x = bit_and_halves x 2 ∙ omega (arith, bit_and_low 1 (x / 2))

-- The flags of a file come back from its directory entry, cut to the two that FAT has, the directory flag
-- and the read-only flag.
pub convert_flags-to_fat :
    (flags : ℕ)
    → fat_convert_flags (to_fat_flags flags) false ≡ bit_and flags (is_dir + is_readonly)
unfolding fat_convert_flags to_fat_flags
convert_flags-to_fat flags =
    let dir : bit_and flags 1 ≡ flags % 2 = bit_and_low 1 flags in
    let readonly : bit_and flags 2 ≡ flags / 2 % 2 * 2 = second_bit flags in
    let both : bit_and flags 3 ≡ flags % 4 = bit_and_low 2 flags in
    elim (ℕ_discrete (flags % 2) 0) [
      | yes no_dir ↦ elim (ℕ_discrete (flags / 2 % 2) 0) [
        | yes writable ↦ ground (arith, dir, readonly, both)
        | no fixed ↦ ground (arith, dir, readonly, both)
      ]
      | no a_dir ↦ elim (ℕ_discrete (flags / 2 % 2) 0) [
        | yes writable ↦ ground (arith, dir, readonly, both)
        | no fixed ↦ ground (arith, dir, readonly, both)
      ]
    ]
