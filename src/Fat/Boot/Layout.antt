-- ===== src/Fat/Boot/Layout.antt =====
-- drivers/formats/fat.cpp: the place of clusters by `fat_cluster_to_block`.
use native.Mathlib.Nat.{mul-le-mul_right, suc-mul, add-mul, one-le-pow}
use jsd_os.Prelude.{ℕ, suc, ◌+◌, ◌-◌, ◌*◌, ◌^◌, ◌≤◌, ◌<◌, ◌≡◌, arith}
use jsd_os.Prelude.Words.{u32, word, add32-eq, sub32-eq}
use jsd_os.Fat.{FatDrive}
use jsd_os.Fat.Boot.{fat_cluster_to_block}

le-times : (k x : ℕ) → 0 < k → x ≤ x * k
le-times k x pos = grind arith

block-eq :
    (d : FatDrive) (cluster : ℕ)
    → 2 ≤ cluster
    → cluster < word
    → ((cluster - 2) * 2 ^ d.sectors_per_cluster_log2 + d.datasector) * 2 ^ d.blocks_per_sector_log2
      < word
    → fat_cluster_to_block d cluster
      ≡ ((cluster - 2) * 2 ^ d.sectors_per_cluster_log2 + d.datasector)
        * 2 ^ d.blocks_per_sector_log2
unfolding fat_cluster_to_block
block-eq d cluster low small fits =
    let place : ℕ = (cluster - 2) * 2 ^ d.sectors_per_cluster_log2 in
    let wider : place + d.datasector ≤ (place + d.datasector) * 2 ^ d.blocks_per_sector_log2 =
      le-times (2 ^ d.blocks_per_sector_log2) (place + d.datasector)
        (one-le-pow d.blocks_per_sector_log2 2 (omega arith)) in
    let whole : u32 place ≡ place = omega (arith, wider) in
    rw (sub32-eq cluster 2 low small, whole, add32-eq place d.datasector (omega (arith, wider)))
      (omega (arith, fits))

-- The blocks of a cluster end before those of every later cluster begin, where the block of the later one
-- does not wrap.
pub cluster_to_block-apart :
    (d : FatDrive) (cluster later : ℕ)
    → 2 ≤ cluster
    → cluster < later
    → later < word
    → ((later - 2) * 2 ^ d.sectors_per_cluster_log2 + d.datasector) * 2 ^ d.blocks_per_sector_log2
      < word
    → fat_cluster_to_block d cluster + 2 ^ d.sectors_per_cluster_log2 * 2 ^ d.blocks_per_sector_log2
      ≤ fat_cluster_to_block d later
cluster_to_block-apart d cluster later low before small fits =
    let s : ℕ = 2 ^ d.sectors_per_cluster_log2 in
    let b : ℕ = 2 ^ d.blocks_per_sector_log2 in
    let step : suc (cluster - 2) ≤ later - 2 = omega arith in
    let sectors : (cluster - 2) * s + s ≤ (later - 2) * s =
      omega (arith, mul-le-mul_right s step, suc-mul (cluster - 2) s) in
    let sum : (cluster - 2) * s + d.datasector + s ≤ (later - 2) * s + d.datasector =
      omega (arith, sectors) in
    let blocks = mul-le-mul_right b sum in
    let parts = add-mul ((cluster - 2) * s + d.datasector) s b in
    rw
      (
        block-eq d cluster low (omega arith) (omega (arith, blocks, parts)),
        block-eq d later (omega arith) small fits,
      )
      (omega (arith, blocks, parts))
