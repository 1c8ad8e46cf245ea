-- ===== src/Prelude/Bits.antt =====
-- `&` and `|` at variables: a low mask is a remainder, a high mask clears the remainder, and `|` of
-- disjoint fields is their sum, at every width.
use Prim.Native.Nat.{digits, bitwise, bit_and-bitwise, bit_or-bitwise}
use native.Mathlib.Nat.{
  pow-suc, one-le-pow, mod-lt, mod-eq_of_lt, div-add-mod', div-lt_iff_lt-mul, zero-add, suc-add,
}
use jsd_os.Prelude.{
  ℕ, zero, suc, ◌+◌, ◌-◌, ◌*◌, ◌/◌, ◌%◌, ◌^◌, ◌≤◌, ◌<◌, min, max, bit_and, bit_or, ◌≡◌, refl, ap,
  ◌∙◌, arith,
}

-- The native operations mean a recursion on binary digits with fuel; any fuel that is enough will do.
module _ (rest : ℕ → ℕ) (digit : ℕ → ℕ → ℕ) where
  digits_enough : (n m a b : ℕ) → a ≤ n → a ≤ m → digits rest digit n a b ≡ digits rest digit m a b
  digits_enough zero zero a b p q = refl
  digits_enough zero (suc m) zero b p q = refl
  digits_enough zero (suc m) (suc a) b p q = absurd (omega arith)
  digits_enough (suc n) zero zero b p q = refl
  digits_enough (suc n) zero (suc a) b p q = absurd (omega arith)
  digits_enough (suc n) (suc m) zero b p q = refl
  digits_enough (suc n) (suc m) (suc a) b p q =
      rw (digits_enough n m (suc a / 2) (b / 2) (omega arith) (omega arith))

  low_digit :
      (a b : ℕ)
      → bitwise rest digit (suc a) b
        ≡ bitwise rest digit (suc a / 2) (b / 2) * 2 + digit (suc a % 2) (b % 2)
  low_digit a b =
      omega (arith, digits_enough a (suc a / 2) (suc a / 2) (b / 2) (omega arith) (omega arith))

pub bit_and_halves : (m n : ℕ) → bit_and m n ≡ bit_and (m / 2) (n / 2) * 2 + min (m % 2) (n % 2)
bit_and_halves zero n = simp bit_and-bitwise (omega arith)
bit_and_halves (suc m) n = simp bit_and-bitwise (low_digit (λ y. 0) min m n)

pub bit_or_halves : (m n : ℕ) → bit_or m n ≡ bit_or (m / 2) (n / 2) * 2 + max (m % 2) (n % 2)
bit_or_halves zero n = simp bit_or-bitwise (omega arith)
bit_or_halves (suc m) n = simp bit_or-bitwise (low_digit (λ y. y) max m n)

bit_and-zero_below : (n a : ℕ) → a ≤ n → bit_and a 0 ≡ 0
bit_and-zero_below n zero h = refl
bit_and-zero_below zero (suc a) h = absurd (omega arith)
bit_and-zero_below (suc n) (suc a) h =
    omega (arith, bit_and_halves (suc a) 0, bit_and-zero_below n (suc a / 2) (omega arith))

pub bit_and-zero : (a : ℕ) → bit_and a 0 ≡ 0
bit_and-zero a = bit_and-zero_below a a (omega arith)

bit_or-zero_below : (n a : ℕ) → a ≤ n → bit_or a 0 ≡ a
bit_or-zero_below n zero h = refl
bit_or-zero_below zero (suc a) h = absurd (omega arith)
bit_or-zero_below (suc n) (suc a) h =
    omega (arith, bit_or_halves (suc a) 0, bit_or-zero_below n (suc a / 2) (omega arith))

pub bit_or-zero : (a : ℕ) → bit_or a 0 ≡ a
bit_or-zero a = bit_or-zero_below a a (omega arith)

twice_pow : (q k : ℕ) → q * 2 ^ suc k ≡ 2 * (q * 2 ^ k)
twice_pow q k = omega (arith, ap (λ (t : ℕ). q * t) (pow-suc 2 k))

-- (q << k) | r, where r fits below bit k.
pub bit_or_sum : (k q r : ℕ) → r < 2 ^ k → bit_or (q * 2 ^ k) r ≡ q * 2 ^ k + r
bit_or_sum zero q r fits = ground (arith, bit_or-zero q)
bit_or_sum (suc k) q r fits =
    ground
      (arith, bit_or_halves (q * 2 ^ suc k) r, twice_pow q k, bit_or_sum k q (r / 2) (omega arith))

-- x & ((1 << k) - 1), of x given by its two parts.
low_part : (k q r : ℕ) → r < 2 ^ k → bit_and (q * 2 ^ k + r) (2 ^ k - 1) ≡ r
low_part zero q r fits = rw bit_and-zero (omega arith)
low_part (suc k) q r fits = ground (
  arith,
  bit_and_halves (q * 2 ^ suc k + r) (2 ^ suc k - 1),
  twice_pow q k,
  pow-suc 2 k,
  low_part k q (r / 2) (omega arith),
)

pub bit_and_low : (k a : ℕ) → bit_and a (2 ^ k - 1) ≡ a % 2 ^ k
bit_and_low k a = ground (arith, one-le-pow k 2, low_part k (a / 2 ^ k) (a % 2 ^ k))

-- x & (m << k), of x given by its two parts.
high_part : (k q r m : ℕ) → r < 2 ^ k → bit_and (q * 2 ^ k + r) (m * 2 ^ k) ≡ bit_and q m * 2 ^ k
high_part zero q r m fits =
    let whole : q * 2 ^ 0 + r ≡ q = omega arith in
    let mask : m * 2 ^ 0 ≡ m = omega arith in rw (whole, mask) (omega arith)
high_part (suc k) q r m fits = ground (
  arith,
  bit_and_halves (q * 2 ^ suc k + r) (m * 2 ^ suc k),
  twice_pow q k,
  twice_pow m k,
  twice_pow (bit_and q m) k,
  high_part k q (r / 2) m (omega arith),
)

pub pow-add : (j k : ℕ) → 2 ^ (j + k) ≡ 2 ^ j * 2 ^ k
pow-add zero k = ground (arith, ap (λ n. 2 ^ n) (zero-add k))
pow-add (suc j) k =
    rw (suc-add j k)
      (omega (arith, pow-suc 2 (j + k), pow-add j k, ap (λ (t : ℕ). t * 2 ^ k) (pow-suc 2 j)))

two_pos : 0 < 2
two_pos = omega arith

pred-mul : (p q : ℕ) → 0 < p → (p - 1) * q ≡ p * q - q
pred-mul zero q h = absurd (omega arith)
pred-mul (suc p) q h = let e : suc p - 1 ≡ p = omega arith in rw e (omega arith)

-- x & ~((1 << k) - 1) in a word of j + k bits.
pub bit_and_high :
    (j k a : ℕ) → a < 2 ^ (j + k) → bit_and a (2 ^ (j + k) - 2 ^ k) ≡ a / 2 ^ k * 2 ^ k
bit_and_high j k a fits =
    let mask : 2 ^ (j + k) - 2 ^ k ≡ (2 ^ j - 1) * 2 ^ k =
      omega (arith, pow-add j k, pred-mul (2 ^ j) (2 ^ k) (one-le-pow j 2 two_pos)) in
    let parts : a ≡ a / 2 ^ k * 2 ^ k + a % 2 ^ k = omega (arith, div-add-mod' a (2 ^ k)) in
    let small : a / 2 ^ k < 2 ^ j =
      (div-lt_iff_lt-mul (one-le-pow k 2 two_pos)).1 (rw (pow-add j k) at fits) in
    rw mask (
      ap (λ x. bit_and x ((2 ^ j - 1) * 2 ^ k)) parts
      ∙ high_part k (a / 2 ^ k) (a % 2 ^ k) (2 ^ j - 1) (mod-lt a (one-le-pow k 2 two_pos))
      ∙ ap (λ x. x * 2 ^ k) (bit_and_low j (a / 2 ^ k) ∙ mod-eq_of_lt small))

pub zero-bit_or : (b : ℕ) → bit_or 0 b ≡ b
zero-bit_or b = simp bit_or-bitwise (omega arith)

-- r | (q << k), where r fits below bit k.
pub bit_or_sum_right : (k q r : ℕ) → r < 2 ^ k → bit_or r (q * 2 ^ k) ≡ q * 2 ^ k + r
bit_or_sum_right zero q r fits =
    let none : r ≡ 0 = omega arith in rw none (zero-bit_or (q * 2 ^ 0) ∙ omega arith)
bit_or_sum_right (suc k) q r fits = ground (
  arith,
  bit_or_halves r (q * 2 ^ suc k),
  twice_pow q k,
  bit_or_sum_right k q (r / 2) (omega arith),
)
