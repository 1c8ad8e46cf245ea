-- ===== src/Unicode/Fuel.antt =====
-- kernel/util/unicode.h: how much input the decoders take.
use jsd_os.Prelude.{
  ℕ, zero, suc, ◌+◌, ◌-◌, ◌≤◌, ◌≡◌, refl, ap, List, [], ◌∷◌, length, arith, bit_and, bit_or,
}
use jsd_os.Prelude.Words.{u32, sub32, ◌<<<◌, ◌>>>◌}
use jsd_os.Unicode.{
  Decoded, decode_all, countl_one, utf8_decode_from, utf8_decode_char, utf16_decode_from,
  utf16_decode_char,
}

utf8_rest :
    (num_chars next_output : ℕ) (units : List ℕ)
    → length (utf8_decode_from num_chars next_output units).rest ≤ length units - 1
unfolding utf8_decode_from
utf8_rest num_chars next_output [] = omega arith
utf8_rest num_chars next_output (c ∷ units) =
    let ones : ℕ = countl_one c in
    let next : ℕ = bit_or (u32 (next_output <<< 6)) (bit_and c 0x3f) in
    ground (
      arith,
      utf8_rest (num_chars - 1) next units,
      utf8_rest (sub32 ones 1) (bit_and c (0xff >>> (ones + 1))) units,
    )

utf16_rest :
    (next_output : ℕ) (units : List ℕ)
    → length (utf16_decode_from next_output units).rest ≤ length units - 1
unfolding utf16_decode_from
utf16_rest next_output [] = omega arith
utf16_rest next_output (c ∷ units) =
    ground (arith, utf16_rest (bit_and c 0x3ff) units, utf16_rest next_output units)

-- A decoder that takes a unit at least where there is one.
abbrev pub Consumes : (List ℕ → Decoded) → Type 0
Consumes decode_char = (units : List ℕ) → length (decode_char units).rest ≤ length units - 1

decode_all_enough :
    (decode_char : List ℕ → Decoded) (fuel more : ℕ) (units : List ℕ)
    → Consumes decode_char
    → length units ≤ fuel
    → length units ≤ more
    → decode_all decode_char fuel units ≡ decode_all decode_char more units
unfolding decode_all
decode_all_enough decode_char fuel more [] consumes enough enough' = refl
decode_all_enough decode_char zero more (c ∷ units) consumes enough enough' = absurd (omega arith)
decode_all_enough decode_char (suc fuel) zero (c ∷ units) consumes enough enough' =
    absurd (omega arith)
decode_all_enough decode_char (suc fuel) (suc more) (c ∷ units) consumes enough enough' =
    let d : Decoded = decode_char (c ∷ units) in
    let less = consumes (c ∷ units) in
    ap (◌∷◌ d.ch) (
      decode_all_enough decode_char fuel more d.rest consumes (omega (arith, less))
        (omega (arith, less)))

-- On any input, well formed or not, the decoding loops end within as many rounds as there are units: more
-- fuel changes nothing.
pub decode_all-fuel :
    (fuel : ℕ) (units : List ℕ)
    → length units ≤ fuel
    → (decode_all utf8_decode_char fuel units ≡ decode_all utf8_decode_char (length units) units)
      × (decode_all utf16_decode_char fuel units
          ≡ decode_all utf16_decode_char (length units) units)
unfolding utf8_decode_char utf16_decode_char
decode_all-fuel fuel units enough = (
  decode_all_enough _ fuel (length units) units (utf8_rest 0 0) enough (omega arith),
  decode_all_enough _ fuel (length units) units (utf16_rest 0) enough (omega arith),
)
