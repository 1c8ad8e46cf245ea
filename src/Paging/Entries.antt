-- ===== src/Paging/Entries.antt =====
-- kernel/memorymanager.cpp: the frame and the flags in an entry, and the bits of an entry of the directory.
use native.Mathlib.Nat.{pow-suc}
use jsd_os.Prelude.{
  ℕ, zero, suc, ◌+◌, ◌-◌, ◌≤◌, ◌*◌, ◌/◌, ◌%◌, ◌^◌, ◌<◌, ◌≡◌, ap, sym, ◌∙◌, min, max, bit_and,
  bit_or, true, not, ◌==◌, arith,
}
use jsd_os.Prelude.Words.{word}
use jsd_os.Prelude.Bits.{
  bit_and_halves, bit_or_halves, bit_and-zero, bit_and_low, bit_and_high, bit_or_sum, bit_or-zero,
  bit_or_sum_right,
}
use jsd_os.Paging.{
  has, without, page_address_mask, page_flags_mask, page_present, page_user, page_rw, page_reserved,
  page_map_on_access, page_allocated,
}

-- A mask below bit `k` sees the low `k` bits alone.
pub bit_and_below : (k q r b : ℕ) → r < 2 ^ k → b < 2 ^ k → bit_and (q * 2 ^ k + r) b ≡ bit_and r b
bit_and_below zero q r b hr hb =
    let none : b ≡ 0 = omega arith in rw none (bit_and-zero (q * 2 ^ 0 + r) ∙ sym (bit_and-zero r))
bit_and_below (suc k) q r b hr hb =
    let twice : q * 2 ^ suc k ≡ q * 2 ^ k * 2 = ap (◌*◌ q) (pow-suc 2 k) ∙ grind arith in
    let half : (q * 2 ^ suc k + r) / 2 ≡ q * 2 ^ k + r / 2 = omega (arith, twice) in
    let digit : (q * 2 ^ suc k + r) % 2 ≡ r % 2 = omega (arith, twice) in
    let size = pow-suc 2 k in
    bit_and_halves (q * 2 ^ suc k + r) b
    ∙ rw
        (half, digit, bit_and_below k q (r / 2) (b / 2) (omega (arith, size)) (omega (arith, size)))
        (sym (bit_and_halves r b))

module _ (p flags : ℕ) (p_small : p < word) (low : flags < 0x1000) where
  pub entry-eq : bit_or (bit_and p page_address_mask) flags ≡ p / 0x1000 * 0x1000 + flags
  entry-eq = rw (bit_and_high 20 12 p p_small) (bit_or_sum 12 (p / 0x1000) flags low)

  -- Its frame and its flags.
  pub entry_frame :
      bit_and (bit_or (bit_and p page_address_mask) flags) page_address_mask ≡ p / 0x1000 * 0x1000
  entry_frame =
      rw entry-eq (bit_and_high 20 12 (p / 0x1000 * 0x1000 + flags) (omega arith) ∙ omega arith)

  pub entry_has :
      (f : ℕ) → f < 0x1000 → has (bit_or (bit_and p page_address_mask) flags) f ≡ has flags f
  entry_has f small =
      rw entry-eq (ap (λ x. not (x == 0)) (bit_and_below 12 (p / 0x1000) flags f low small))

-- Bits 0 and 2 of a number.
bit_0 : (x : ℕ) → bit_and x 1 ≡ x % 2
bit_0 x = bit_and_low 1 x

bit_2 : (x : ℕ) → bit_and x 4 ≡ x / 2 / 2 % 2 * 4
bit_2 x = bit_and_halves x 4 ∙ omega (arith, bit_and_halves (x / 2) 2, bit_and_low 1 (x / 2 / 2))

pub or_bit_0 : (x y : ℕ) → bit_or x y % 2 ≡ max (x % 2) (y % 2)
or_bit_0 x y = omega (arith, bit_or_halves x y)

pub or_bit_2 : (x y : ℕ) → bit_or x y / 2 / 2 % 2 ≡ max (x / 2 / 2 % 2) (y / 2 / 2 % 2)
or_bit_2 x y =
    omega (
      arith,
      bit_or_halves x y,
      bit_or_halves (x / 2) (y / 2),
      bit_or_halves (x / 2 / 2) (y / 2 / 2),
    )

pub new_table_present :
    (a f : ℕ) → has (bit_or (bit_or (bit_or a page_present) page_rw) f) page_present ≡ true
new_table_present a f =
    let x : ℕ = bit_or a 1 in
    ground
      (arith, bit_0 (bit_or (bit_or x 2) f), or_bit_0 (bit_or x 2) f, or_bit_0 x 2, or_bit_0 a 1)

pub new_table_user :
    (a f : ℕ)
    → has f page_user ≡ true
    → has (bit_or (bit_or (bit_or a page_present) page_rw) f) page_user ≡ true
new_table_user a f h =
    let x : ℕ = bit_or (bit_or a 1) 2 in ground (arith, bit_2 (bit_or x f), bit_2 f, or_bit_2 x f)

and_bit_2 : (x y : ℕ) → bit_and x y / 2 / 2 % 2 ≡ min (x / 2 / 2 % 2) (y / 2 / 2 % 2)
and_bit_2 x y = omega (
  arith,
  bit_and_halves x y,
  bit_and_halves (x / 2) (y / 2),
  bit_and_halves (x / 2 / 2) (y / 2 / 2),
)

-- The user flag of the flags that a new table gets.
pub without_user : (flags : ℕ) → has (without flags 0xc00) page_user ≡ has flags page_user
without_user flags =
    ground (arith, bit_2 flags, bit_2 (bit_and flags 0xffff_f3ff), and_bit_2 flags 0xffff_f3ff)

-- Bits below bit `k` are put into the low `k` bits alone.
pub bit_or_below :
    (k q r b : ℕ) → r < 2 ^ k → b < 2 ^ k → bit_or (q * 2 ^ k + r) b ≡ q * 2 ^ k + bit_or r b
bit_or_below zero q r b hr hb =
    let none : b ≡ 0 = omega arith in
    let low : r ≡ 0 = omega arith in rw (none, low) (bit_or-zero (q * 2 ^ 0 + 0))
bit_or_below (suc k) q r b hr hb =
    let twice : q * 2 ^ suc k ≡ q * 2 ^ k * 2 = ap (◌*◌ q) (pow-suc 2 k) ∙ grind arith in
    let half : (q * 2 ^ suc k + r) / 2 ≡ q * 2 ^ k + r / 2 = omega (arith, twice) in
    let digit : (q * 2 ^ suc k + r) % 2 ≡ r % 2 = omega (arith, twice) in
    let size = pow-suc 2 k in
    bit_or_halves (q * 2 ^ suc k + r) b
    ∙ rw (half, digit, bit_or_below k q (r / 2) (b / 2) (omega (arith, size)) (omega (arith, size)))
        (omega (arith, twice, bit_or_halves r b))

-- A bit that is set already.
pub or_rw : (x : ℕ) → has x page_rw ≡ true → bit_or x 2 ≡ x
or_rw x set =
    let bit : x / 2 % 2 ≡ 1 = ground (arith, set, bit_and_halves x 2, bit_and_low 1 (x / 2)) in
    omega (arith, bit, bit_or_halves x 2, bit_or_halves (x / 2) 1, bit_or-zero (x / 2 / 2))

pub or_present_rw : (x : ℕ) → has x page_rw ≡ true → has (bit_or x page_present) page_rw ≡ true
or_present_rw x set =
    let bit : x / 2 % 2 ≡ 1 = ground (arith, set, bit_and_halves x 2, bit_and_low 1 (x / 2)) in
    ground (
      arith,
      bit,
      bit_or_halves x 1,
      bit_or-zero (x / 2),
      bit_and_halves (bit_or x 1) 2,
      bit_and_low 1 (bit_or x 1 / 2),
    )

-- The flags of an entry that a page keeps when it gets its frame.
pub kept_flags : (e : ℕ) → bit_and e (without page_flags_mask 0xc00) ≡ e % 0x400
kept_flags e = bit_and_low 10 e

pub page_value :
    (a f : ℕ)
    → a % 0x1000 ≡ 0
    → f < 0x400
    → bit_or (bit_or a f) page_present ≡ a + bit_or f page_present
page_value a f aligned low =
    let whole : a ≡ a / 0x1000 * 0x1000 = omega (arith, aligned) in
    ap (λ x. bit_or (bit_or x f) 1) whole
    ∙ ap (λ x. bit_or x 1) (bit_or_sum 12 (a / 0x1000) f (omega arith))
    ∙ bit_or_below 12 (a / 0x1000) f 1 (omega arith) (omega arith)
    ∙ ap (λ x. x + bit_or f 1) (sym whole)

pub or_present_small : (f : ℕ) → f < 0x400 → bit_or f page_present < 0x1000
or_present_small f low = omega (arith, bit_or_halves f 1, bit_or-zero (f / 2))

pub or_below : (k a b : ℕ) → a < 2 ^ k → b < 2 ^ k → bit_or a b < 2 ^ k
or_below zero a b ha hb =
    let left : a ≡ 0 = omega arith in
    let right : b ≡ 0 = omega arith in rw (left, right) (omega (arith, bit_or-zero 0))
or_below (suc k) a b ha hb =
    let size = pow-suc 2 k in
    let half = or_below k (a / 2) (b / 2) (omega (arith, size)) (omega (arith, size)) in
    omega (arith, size, half, bit_or_halves a b)

zero_and_below : (n b : ℕ) → b ≤ n → bit_and 0 b ≡ 0
zero_and_below zero b h = let none : b ≡ 0 = omega (arith, h) in rw none (bit_and-zero 0)
zero_and_below (suc n) b h =
    omega (arith, bit_and_halves 0 b, zero_and_below n (b / 2) (omega (arith, h)))

and_below : (k a b : ℕ) → a < 2 ^ k → bit_and a b < 2 ^ k
and_below zero a b ha =
    let left : a ≡ 0 = omega arith in rw left (omega (arith, zero_and_below b b (omega arith)))
and_below (suc k) a b ha =
    let size = pow-suc 2 k in
    let half = and_below k (a / 2) (b / 2) (omega (arith, size)) in
    omega (arith, size, half, bit_and_halves a b)

-- The frame in an entry of the directory.
pub new_table_frame :
    (a f : ℕ)
    → a < word
    → a % 0x1000 ≡ 0
    → f < 0x1000
    → bit_and (bit_or (bit_or (bit_or a page_present) page_rw) f) page_address_mask ≡ a
new_table_frame a f small aligned low =
    let whole : a ≡ a / 0x1000 * 0x1000 = omega (arith, aligned) in
    let size = or_below 12 3 f (omega arith) low in
    let value : bit_or (bit_or (bit_or a 1) 2) f ≡ a / 0x1000 * 0x1000 + bit_or 3 f =
      ap (λ x. bit_or (bit_or (bit_or x 1) 2) f) whole
      ∙ ap (λ x. bit_or (bit_or x 2) f) (bit_or_sum 12 (a / 0x1000) 1 (omega arith))
      ∙ ap (λ x. bit_or x f) (bit_or_below 12 (a / 0x1000) 1 2 (omega arith) (omega arith))
      ∙ bit_or_below 12 (a / 0x1000) 3 f (omega arith) low in
    rw value (
      bit_and_high 20 12 (a / 0x1000 * 0x1000 + bit_or 3 f) (omega (arith, size, small, aligned))
      ∙ omega (arith, size, aligned))

-- The flags of a table are flags.
pub without_below : (flags f : ℕ) → flags < 0x1000 → without flags f < 0x1000
without_below flags f low = and_below 12 flags (0xffff_ffff - f) low

bit_and_above :
    (k q r m : ℕ) → r < 2 ^ k → bit_and (q * 2 ^ k + r) (m * 2 ^ k) ≡ bit_and q m * 2 ^ k
bit_and_above zero q r m small =
    let none : r ≡ 0 = omega arith in
    rw none (
      ap (λ x. bit_and x (m * 1)) {x = q * 1 + 0} {y = q} (omega arith)
      ∙ ap (bit_and q) {x = m * 1} {y = m} (omega arith)
      ∙ omega arith)
bit_and_above (suc k) q r m small =
    let size = pow-suc 2 k in
    let twice : (x : ℕ) → x * 2 ^ suc k ≡ x * 2 ^ k * 2 = λ x. ap (◌*◌ x) size ∙ grind arith in
    let half : (q * 2 ^ suc k + r) / 2 ≡ q * 2 ^ k + r / 2 = omega (arith, twice q) in
    let half_mask : m * 2 ^ suc k / 2 ≡ m * 2 ^ k = omega (arith, twice m) in
    let rest = bit_and_above k q (r / 2) m (omega (arith, size)) in
    bit_and_halves (q * 2 ^ suc k + r) (m * 2 ^ suc k)
    ∙ rw (half, half_mask, rest) (omega (arith, twice m, twice (bit_and q m)))

-- The flags of a page that is mapped when it is used.
module _ (f : ℕ) (low : f < 0x400) where
  pub lazy_flags : bit_or (bit_or f page_reserved) page_map_on_access ≡ 0xc00 + f
  lazy_flags =
      ap (λ x. bit_or x 0x400) (bit_or_sum_right 11 1 f (omega arith))
      ∙ bit_or_below 11 1 f 0x400 (omega arith) (omega arith)
      ∙ ap (λ x. 0x800 + x) (bit_or_sum_right 10 1 f low)
      ∙ omega arith

  pub lazy_on_access : has (0xc00 + f) page_map_on_access ≡ true
  lazy_on_access = ap (λ x. not (x == 0)) (bit_and_above 10 3 f 1 low)

  pub lazy_reserved : has (0xc00 + f) page_reserved ≡ true
  lazy_reserved = ap (λ x. not (x == 0)) (bit_and_above 10 3 f 2 low)

  pub lazy_present : has (0xc00 + f) page_present ≡ has f page_present
  lazy_present = ap (λ x. not (x == 0)) (bit_and_below 10 3 f 1 low (omega arith))

-- An entry that is present is allocated.
pub present_allocated : (e : ℕ) → has e page_present ≡ true → has e page_allocated ≡ true
present_allocated e set = ground (arith, set, bit_0 e, bit_and_halves e 0x801)

pub or_present : (e f : ℕ) → has f page_present ≡ true → has (bit_or e f) page_present ≡ true
or_present e f set = ground (arith, set, bit_0 f, bit_0 (bit_or e f), or_bit_0 e f)

pub low_present : (flags : ℕ) → has (flags % 0x400) page_present ≡ has flags page_present
low_present flags = ground (arith, bit_0 flags, bit_0 (flags % 0x400))
