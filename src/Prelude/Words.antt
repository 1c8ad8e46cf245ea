-- ===== src/Prelude/Words.antt =====
-- The unsigned words of the kernel's 32-bit target: casts, wrapping sums, shifts and masks.
use jsd_os.Prelude.{ℕ, ◌+◌, ◌-◌, ◌*◌, ◌/◌, ◌%◌, ◌^◌, ◌≤◌, ◌<◌, ◌≡◌, arith}

abbrev pub u8 : ℕ → ℕ
u8 n = n % 0x100

abbrev pub u16 : ℕ → ℕ
u16 n = n % 0x1_0000

abbrev pub u32 : ℕ → ℕ
u32 n = n % 0x1_0000_0000

-- 2 ^ 32: the size of the address space.
abbrev pub word : ℕ
word = 0x1_0000_0000

-- x * y, x - y and x + y of two `size_t` values.
unfoldable pub mul32 : ℕ → ℕ → ℕ
mul32 x y = x * y % word

unfoldable pub sub32 : ℕ → ℕ → ℕ
sub32 x y = (x + word - y) % word

-- Where nothing wraps, the word operations are those of the numbers.
pub sub32-eq : (x y : ℕ) → y ≤ x → x < word → sub32 x y ≡ x - y
unfolding sub32
sub32-eq x y h k = omega arith

unfoldable pub add32 : ℕ → ℕ → ℕ
add32 x y = (x + y) % word

pub add32-eq : (x y : ℕ) → x + y < word → add32 x y ≡ x + y
unfolding add32
add32-eq x y h = omega arith

infixl 75 ◌<<<◌ ◌>>>◌
abbrev pub ◌<<<◌ : ℕ → ℕ → ℕ
x <<< k = x * 2 ^ k

abbrev pub ◌>>>◌ : ℕ → ℕ → ℕ
x >>> k = x / 2 ^ k
