-- ===== src/Ext2/Words.antt =====
-- drivers/formats/ext2.cpp: words on the partition.
use jsd_os.Prelude.{
  bytes_at, ℕ, ◌+◌, ◌*◌, ◌/◌, ◌%◌, ◌≤◌, ◌<◌, ◌≡◌, ◌≢◌, ◌⊎◌, inl, inr, refl, ap, ◌∙◌, ◌==◌,
  if◌then◌else◌, leb, Bool-cases, arith,
}
use jsd_os.Prelude.Words.{word}
use jsd_os.Ext2.{Ext2Fs, address, put_bytes, word_of, bytes_of, read32, write32}

-- The word at an address, and the partition after a word is written there.
abbrev pub load : (ℕ → ℕ) → ℕ → ℕ
load disk a = word_of (bytes_at 4 a disk)

abbrev pub store : ℕ → ℕ → (ℕ → ℕ) → ℕ → ℕ
store a v disk = put_bytes a (bytes_of v) disk

pub read32-load :
    (fs : Ext2Fs) (block offset : ℕ)
    → read32 fs block offset ≡ load fs.disk (address fs block offset)
unfolding read32
read32-load fs block offset = refl

pub write32-store :
    (fs : Ext2Fs) (block offset v : ℕ)
    → write32 fs block offset v ≡ record fs { disk = store (address fs block offset) v fs.disk }
unfolding write32
write32-store fs block offset v = refl

-- Two words that share no byte.
abbrev pub ApartWords : ℕ → ℕ → Type 0
ApartWords a b = (a + 4 ≤ b) ⊎ (b + 4 ≤ a)

store_byte :
    (a v x : ℕ) (disk : ℕ → ℕ)
    → store a v disk x ≡ (
        if x == a
        then v % 0x100
        else if x == a + 1
        then v / 0x100 % 0x100
        else if x == a + 2
        then v / 0x1_0000 % 0x100
        else if x == a + 3
        then v / 0x100_0000 % 0x100
        else disk x)
store_byte a v x disk = ground arith

pub load-store : (a v : ℕ) (disk : ℕ → ℕ) → v < word → load (store a v disk) a ≡ v
load-store a v disk small = ground (
  arith,
  store_byte a v a disk,
  store_byte a v (a + 1) disk,
  store_byte a v (a + 2) disk,
  store_byte a v (a + 3) disk,
)

store_other : (a v x : ℕ) (disk : ℕ → ℕ) → (x < a) ⊎ (a + 4 ≤ x) → store a v disk x ≡ disk x
store_other a v x disk out = ground (arith, out)

outside : (a b x : ℕ) → ApartWords a b → b ≤ x → x ≤ b + 3 → (x < a) ⊎ (a + 4 ≤ x)
outside a b x (inl before) low high = inr (omega (arith, before, low))
outside a b x (inr after) low high = inl (omega (arith, after, high))

pub load-store_other :
    (a v b : ℕ) (disk : ℕ → ℕ) → ApartWords a b → load (store a v disk) b ≡ load disk b
load-store_other a v b disk apart =
    let same = λ (x : ℕ) (low : b ≤ x) (high : x ≤ b + 3).
      store_other a v x disk (outside a b x apart low high) in
    omega (
      arith,
      same b (omega arith) (omega arith),
      same (b + 1) (omega arith) (omega arith),
      same (b + 1 + 1) (omega arith) (omega arith),
      same (b + 1 + 1 + 1) (omega arith) (omega arith),
    )

-- Words at multiples of four.
pub words_apart : (a b : ℕ) → a % 4 ≡ 0 → b % 4 ≡ 0 → a ≢ b → ApartWords a b
words_apart a b ha hb differ = elim (Bool-cases (leb a b)) [
  | inl low ↦ inl (ground (arith, ha, hb, low, differ))
  | inr high ↦ inr (ground (arith, ha, hb, high))
]

pub address_aligned :
    (fs : Ext2Fs) (block j : ℕ) → fs.block_size % 4 ≡ 0 → address fs block (j * 4) % 4 ≡ 0
address_aligned fs block j whole =
    let size : fs.block_size ≡ fs.block_size / 4 * 4 = omega (arith, whole) in
    let product : block * fs.block_size ≡ block * (fs.block_size / 4) * 4 =
      ap (◌*◌ block) size ∙ grind arith in
    omega (arith, product)
