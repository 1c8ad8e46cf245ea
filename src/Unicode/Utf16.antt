-- ===== src/Unicode/Utf16.antt =====
-- kernel/util/unicode.h: one character in UTF-16.
use jsd_os.Prelude.{
  ℕ, ◌+◌, ◌-◌, ◌*◌, ◌/◌, ◌%◌, ◌^◌, ◌≤◌, ◌<◌, ◌≡◌, ◌⊎◌, ap, ◌∙◌, bit_and, bit_or, List, [], ◌∷◌,
  ◌++◌, dec_le, arith,
}
use jsd_os.Prelude.Words.{u32, add32, ◌<<<◌, ◌>>>◌}
use jsd_os.Prelude.Bits.{bit_and_low, bit_and_high, bit_or_sum}
use jsd_os.Unicode.{utf16_encode_char, utf16_decode_from, utf16_decode_char}

-- The characters UTF-16 can say: no surrogates, and nothing above U+10FFFF.
abbrev pub IsScalar : ℕ → Type 0
IsScalar c = ((c < 0xd800) ⊎ (0xdfff < c)) × (c ≤ 0x10_ffff)

high_first :
    (x next : ℕ) (units : List ℕ)
    → x < 0x400
    → utf16_decode_from next ((0xd800 + x) ∷ units) ≡ utf16_decode_from x units
unfolding utf16_decode_from
high_first x next units h =
    let top : bit_and (0xd800 + x) 0xfc00 ≡ 0xd800 =
      bit_and_high 6 10 (0xd800 + x) (omega arith) ∙ omega arith in
    let low : bit_and (0xd800 + x) 0x3ff ≡ x = bit_and_low 10 (0xd800 + x) ∙ omega arith in
    ground (arith, top, low)

low_last :
    (x next : ℕ) (units : List ℕ)
    → x < 0x400
    → next < 0x400
    → utf16_decode_from next ((0xdc00 + x) ∷ units)
      ≡ record { ch = next * 0x400 + x + 0x1_0000; rest = units }
unfolding utf16_decode_from add32
low_last x next units h small =
    let top : bit_and (0xdc00 + x) 0xfc00 ≡ 0xdc00 =
      bit_and_high 6 10 (0xdc00 + x) (omega arith) ∙ omega arith in
    let low : bit_and (0xdc00 + x) 0x3ff ≡ x = bit_and_low 10 (0xdc00 + x) ∙ omega arith in
    let shift : u32 (next <<< 10) ≡ next * 2 ^ 10 = omega arith in
    ground (arith, top, low, shift, bit_or_sum 10 next x h)

module _ (c : ℕ) where
  encode-one : c ≤ 0xffff → utf16_encode_char c ≡ c ∷ []
  unfolding utf16_encode_char
  encode-one h = ground arith

  encode-two :
      0xffff < c
      → c ≤ 0x10_ffff
      → utf16_encode_char c
        ≡ (0xd800 + (c - 0x1_0000) / 0x400) ∷ (0xdc00 + (c - 0x1_0000) % 0x400) ∷ []
  unfolding utf16_encode_char
  encode-two low high =
      let d : ℕ = c - 0x1_0000 in
      let first : bit_or 0xd800 (bit_and (d >>> 10) 0x3ff) ≡ 0xd800 + d / 0x400 =
        rw (bit_and_low 10 (d >>> 10))
          (bit_or_sum 10 54 (d / 0x400 % 0x400) (omega arith) ∙ omega arith) in
      let second : bit_or 0xdc00 (bit_and d 0x3ff) ≡ 0xdc00 + d % 0x400 =
        rw (bit_and_low 10 d) (bit_or_sum 10 55 (d % 0x400) (omega arith)) in
      ground (arith, first, second)

module _ (c : ℕ) (units : List ℕ) where
  decode-one :
      c ≤ 0xffff
      → (c < 0xd800) ⊎ (0xdfff < c)
      → utf16_decode_char (c ∷ units) ≡ record { ch = c; rest = units }
  unfolding utf16_decode_char utf16_decode_from
  decode-one h out = ground arith

  decode-two :
      0xffff < c
      → c ≤ 0x10_ffff
      → utf16_decode_char
          ((0xd800 + (c - 0x1_0000) / 0x400) ∷ (0xdc00 + (c - 0x1_0000) % 0x400) ∷ units)
        ≡ record { ch = c; rest = units }
  unfolding utf16_decode_char
  decode-two low high =
      let d : ℕ = c - 0x1_0000 in
      let whole : d / 0x400 * 0x400 + d % 0x400 + 0x1_0000 ≡ c = omega arith in
      high_first (d / 0x400) 0 ((0xdc00 + d % 0x400) ∷ units) (omega arith)
      ∙ low_last (d % 0x400) (d / 0x400) units (omega arith) (omega arith)
      ∙ ap (λ x. record { ch = x; rest = units }) whole

  -- A scalar value is decoded from its encoding, and what follows it is left.
  pub decode-encode_char :
      IsScalar c
      → utf16_decode_char (utf16_encode_char c ++ units) ≡ record { ch = c; rest = units }
  decode-encode_char (out, h) = elim (dec_le c 0xffff) [
    | yes one ↦ rw (encode-one c one) (decode-one one out)
    | no more ↦ rw (encode-two c (omega arith) h) (decode-two (omega arith) h)
  ]
