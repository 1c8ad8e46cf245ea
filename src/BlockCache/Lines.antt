-- ===== src/BlockCache/Lines.antt =====
-- Lines that begin at multiples of their length do not overlap.
use native.Mathlib.Nat.{div-add-mod', mul-le-mul_right, add-mul}
use jsd_os.Prelude.{ℕ, ◌+◌, ◌*◌, ◌/◌, ◌%◌, ◌≤◌, ◌<◌, ◌≡◌, ◌≢◌, arith, dec_lt}

next_multiple : (p q r : ℕ) → p * r < q * r → p * r + r ≤ q * r
next_multiple p q r h = let lt : p < q = grind arith in grind arith

multiple_gap : (x y r : ℕ) → x % r ≡ 0 → y % r ≡ 0 → x < y → x + r ≤ y
multiple_gap x y r ex ey h = omega (
  arith,
  div-add-mod' x r,
  div-add-mod' y r,
  next_multiple (x / r) (y / r) r (omega (arith, div-add-mod' x r, div-add-mod' y r)),
)

scaled : (x y r b : ℕ) → x + r ≤ y → x * b + r * b ≤ y * b
scaled x y r b h = omega (arith, mul-le-mul_right b h, add-mul x r b)

pub lines_apart :
    (x y r b a : ℕ)
    → x % r ≡ 0
    → y % r ≡ 0
    → x ≢ y
    → (x * b ≤ a) × (a < x * b + r * b)
    → (y * b ≤ a) × (a < y * b + r * b)
    → ⊥
lines_apart x y r b a ex ey ne hx hy = elim (dec_lt x y) [
  | yes lt ↦ absurd (omega (arith, scaled x y r b (multiple_gap x y r ex ey lt)))
  | no ge ↦ absurd (omega (arith, scaled y x r b (multiple_gap y x r ey ex (omega arith))))
]
