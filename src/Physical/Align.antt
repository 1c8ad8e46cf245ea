-- ===== src/Physical/Align.antt =====
-- common/util.h: `align_addr`.
use native.Mathlib.Nat.{one-le-pow, pow-suc, div-add-mod', mod-lt, mul-mod_left}
use jsd_os.Prelude.{
  ℕ, suc, ◌+◌, ◌-◌, ◌*◌, ◌/◌, ◌%◌, ◌^◌, ◌≤◌, ◌<◌, bit_and, ◌≡◌, ap, subst, ◌∙◌, arith,
}
use jsd_os.Prelude.Words.{word, add32, sub32}
use jsd_os.Prelude.Bits.{bit_and_high, pow-add}
use jsd_os.Physical.{align_addr}

-- `align` is a power of two of a 32-bit `size_t`: one bit is set, with `above` bits over it.
pub record IsPowerOfTwo (align : ℕ) : Type 0 where
  pub above : ℕ
  pub log2 : ℕ
  pub width : suc above + log2 ≡ 32
  pub is_pow : align ≡ 2 ^ log2

pub pow-pos : {align : ℕ} → IsPowerOfTwo align → 0 < align
pow-pos p = rw p.is_pow (one-le-pow p.log2 2 (omega arith))

pow-split : {align : ℕ} (p : IsPowerOfTwo align) → word ≡ 2 ^ p.above * 2 ^ p.log2 * 2
pow-split p =
    ap (λ n. 2 ^ n) {x = 32} {y = suc p.above + p.log2} (omega (arith, p.width))
    ∙ pow-add (suc p.above) p.log2
    ∙ omega (arith, ap (λ (t : ℕ). t * 2 ^ p.log2) (pow-suc 2 p.above))

pub pow-lt-word : {align : ℕ} → IsPowerOfTwo align → align < word
pow-lt-word p =
    let q : 0 < 2 ^ p.above = one-le-pow p.above 2 (omega arith) in
    let r : 0 < 2 ^ p.log2 = one-le-pow p.log2 2 (omega arith) in
    rw p.is_pow (rw (pow-split p) (grind arith))

pub clear_low :
    (x : ℕ) {align : ℕ}
    → IsPowerOfTwo align
    → x < word
    → bit_and x (word - align) ≡ x / align * align
clear_low x p h = rw p.is_pow (
    subst (λ n. x < 2 ^ n → bit_and x (2 ^ n - 2 ^ p.log2) ≡ x / 2 ^ p.log2 * 2 ^ p.log2) p.width
      (bit_and_high (suc p.above) p.log2 x) h)

pub align_addr-eq :
    (addr : ℕ) {align : ℕ}
    → IsPowerOfTwo align
    → addr + align ≤ word
    → align_addr addr align ≡ (addr + (align - 1)) / align * align
unfolding align_addr add32 sub32
align_addr-eq addr {align} p h =
    let pos : 0 < align = pow-pos p in
    let mask : (align + word - 1) % word ≡ align - 1 = omega (arith, pow-lt-word p) in
    let low : (addr + (align - 1)) % word ≡ addr + (align - 1) = omega arith in
    let all : word - 1 - (align - 1) ≡ word - align = omega arith in
    rw (mask, low, all) (clear_low (addr + (align - 1)) p (omega arith))

-- For a power of two and a sum that does not wrap, `align_addr` gives the least multiple of `align` that
-- is not below `addr`.
pub align_addr_lem :
    (addr : ℕ) {align : ℕ}
    → IsPowerOfTwo align
    → addr + align ≤ word
    → (addr ≤ align_addr addr align)
      × (align_addr addr align < addr + align)
      × (align_addr addr align % align ≡ 0)
align_addr_lem addr {align} p h =
    let pos : 0 < align = pow-pos p in
    rw (align_addr-eq addr p h) (
      omega (arith, div-add-mod' (addr + (align - 1)) align, mod-lt (addr + (align - 1)) pos),
      omega (arith, div-add-mod' (addr + (align - 1)) align, mod-lt (addr + (align - 1)) pos),
      mul-mod_left ((addr + (align - 1)) / align) align,
    )
