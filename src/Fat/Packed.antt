-- ===== src/Fat/Packed.antt =====
-- drivers/formats/fat.cpp: words in memory, and the 12-bit entries, two of which share three bytes.
use jsd_os.Prelude.{
  ℕ, zero, suc, ◌+◌, ◌-◌, ◌*◌, ◌/◌, ◌%◌, ◌^◌, ◌≤◌, ◌<◌, ◌≡◌, ◌≢◌, ◌⊎◌, inl, inr, refl, ap, bit_and,
  arith, ◌==◌, if◌then◌else◌, ℕ_discrete,
}
use jsd_os.Prelude.Words.{word, u16, add32-eq, ◌<<<◌}
use jsd_os.Prelude.Bits.{bit_and_low, bit_and_high, bit_or_sum, bit_or_sum_right}
use jsd_os.BlockCache.{Memory, memcpy}
use jsd_os.Fat.{Volume, read_le, le_bytes, read_word, write_word, get_entry_12, set_entry_12}

-- Every byte of the volume is a byte.
abbrev pub IsBytes : Memory → Type 0
IsBytes m = (a : ℕ) → m a < 0x100

pub memcpy-at :
    (m : Memory) (a : ℕ) (s : Memory) (n i x : ℕ) → i < n → x ≡ a + i → memcpy m a s 0 n x ≡ s i
unfolding memcpy
memcpy-at m a s n i x h e = let same : 0 + (x - a) ≡ i = omega arith in ground (arith, ap s same)

pub memcpy-beside :
    (m : Memory) (a : ℕ) (s : Memory) (n x : ℕ) → (x < a) ⊎ (a + n ≤ x) → memcpy m a s 0 n x ≡ m x
unfolding memcpy
memcpy-beside m a s n x h = ground arith

module _ (m : Memory) (a w : ℕ) where
  pub read_le-two : w < 0x1_0000 → read_le (memcpy m a (le_bytes w) 0 2) a 2 ≡ w
  unfolding read_le
  read_le-two h = omega (
    arith,
    memcpy-at m a (le_bytes w) 2 0 a (omega arith) (omega arith),
    memcpy-at m a (le_bytes w) 2 1 (a + 1) (omega arith) (omega arith),
  )

  pub read_le-four : w < word → read_le (memcpy m a (le_bytes w) 0 4) a 4 ≡ w
  unfolding read_le
  read_le-four h = omega (
    arith,
    memcpy-at m a (le_bytes w) 4 0 a (omega arith) (omega arith),
    memcpy-at m a (le_bytes w) 4 1 (a + 1) (omega arith) (omega arith),
    memcpy-at m a (le_bytes w) 4 2 (a + 1 + 1) (omega arith) (omega arith),
    memcpy-at m a (le_bytes w) 4 3 (a + 1 + 1 + 1) (omega arith) (omega arith),
  )

  pub read_le-beside :
      (n k x : ℕ)
      → (x + k ≤ a) ⊎ (a + n ≤ x)
      → read_le (memcpy m a (le_bytes w) 0 n) x k ≡ read_le m x k
  unfolding read_le
  read_le-beside n zero x h = refl
  read_le-beside n (suc k) x h = omega (
    arith,
    memcpy-beside m a (le_bytes w) n x (ground arith),
    read_le-beside n k (x + 1) (ground arith),
  )

-- 12-bit entries as arithmetic: where one begins, what its word says, and what a write makes of it.
abbrev pub entry_at : ℕ → ℕ
entry_at cluster = cluster + cluster / 2

abbrev pub entry_of : ℕ → ℕ → ℕ
entry_of cluster value = if cluster % 2 == 0 then value % 0x1000 else value / 0x10

abbrev pub merged : ℕ → ℕ → ℕ → ℕ
merged cluster next value =
    if cluster % 2 == 0
    then value / 0x1000 * 0x1000 + next % 0x1000
    else next % 0x1000 * 0x10 + value % 0x10

pub get_entry_12-eq :
    (cluster : ℕ) (v : Volume)
    → cluster + cluster / 2 < word
    → get_entry_12 cluster v
      ≡ entry_of cluster (read_le v.bytes (v.fat.fat_block * v.block_size + entry_at cluster) 2)
unfolding get_entry_12 read_word
get_entry_12-eq cluster v h =
    let x : ℕ = read_le v.bytes (v.fat.fat_block * v.block_size + entry_at cluster) 2 in
    rw (bit_and_low 1 cluster, add32-eq cluster (cluster / 2) h, bit_and_low 12 x) refl

pub set_entry_12-eq :
    (cluster next : ℕ) (v : Volume)
    → cluster + cluster / 2 < word
    → IsBytes v.bytes
    → let place = v.fat.reserved_sectors * v.block_size + entry_at cluster in
      (set_entry_12 cluster next v).bytes
      ≡ memcpy v.bytes place (le_bytes (merged cluster next (read_le v.bytes place 2))) 0 2
unfolding set_entry_12 read_word write_word read_le
set_entry_12-eq cluster next v h b =
    let place : ℕ = v.fat.reserved_sectors * v.block_size + entry_at cluster in
    let x : ℕ = read_le v.bytes place 2 in
    let small : x < 0x1_0000 = omega (arith, b place, b (place + 1)) in
    let shifted : u16 (next <<< 4) ≡ next % 0x1000 * 2 ^ 4 = omega arith in
    let high : bit_and x 0xf000 ≡ x / 0x1000 * 2 ^ 12 = bit_and_high 4 12 x small in
    rw
      (
        bit_and_low 1 cluster,
        add32-eq cluster (cluster / 2) h,
        high,
        bit_and_low 12 next,
        bit_and_low 4 x,
        shifted,
        bit_or_sum 12 (x / 0x1000) (next % 0x1000) (omega arith),
        bit_or_sum_right 4 (next % 0x1000) (x % 0x10) (omega arith),
      )
      refl

module _ (m : Memory) (start cluster next : ℕ) (b : IsBytes m) where
  abbrev pub place : ℕ
  place = start + entry_at cluster

  abbrev pub word_12 : ℕ
  word_12 = merged cluster next (read_le m place 2)

  abbrev pub written_12 : Memory
  written_12 = memcpy m place (le_bytes word_12) 0 2

  word_12-lt : word_12 < 0x1_0000
  unfolding read_le
  word_12-lt = ground (arith, b place, b (place + 1))

  pub entry_12_self : entry_of cluster (read_le written_12 place 2) ≡ next % 0x1000
  entry_12_self = rw (read_le-two m place word_12 word_12-lt) (ground arith)

  -- The two bytes of another entry: both as before, or one of them shared, with its half kept.
  pub entry_12-other :
      (other : ℕ)
      → cluster ≢ other
      → entry_of other (read_le written_12 (start + entry_at other) 2)
        ≡ entry_of other (read_le m (start + entry_at other) 2)
  unfolding read_le
  entry_12-other other ne = elim (ℕ_discrete (cluster / 2) (other / 2)) [
    | yes pair ↦ elim (ℕ_discrete (cluster % 2) 0) [
      | yes even ↦
          let next_byte : start + entry_at other ≡ place + 1 = omega arith in
          let kept =
            memcpy-beside m place (le_bytes word_12) 2 (start + entry_at other + 1)
              (inr (omega arith)) in
          let shared =
            memcpy-at m place (le_bytes word_12) 2 1 (start + entry_at other) (omega arith)
              next_byte in
          let old = ap m next_byte in ground (arith, kept, shared, old, b place, b (place + 1))
      | no odd ↦
          let same_byte : start + entry_at other + 1 ≡ place = omega arith in
          let kept =
            memcpy-beside m place (le_bytes word_12) 2 (start + entry_at other)
              (inl (omega arith)) in
          let shared =
            memcpy-at m place (le_bytes word_12) 2 0 (start + entry_at other + 1) (omega arith)
              (omega arith) in
          let old = ap m same_byte in
          ground (arith, kept, shared, old, b place, b (place + 1), b (start + entry_at other))
    ]
    | no apart ↦
        ap (entry_of other)
          (read_le-beside m place word_12 2 2 (start + entry_at other) (ground arith))
  ]
