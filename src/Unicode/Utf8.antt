-- ===== src/Unicode/Utf8.antt =====
-- kernel/util/unicode.h: one character in UTF-8.
use jsd_os.Prelude.{
  ℕ, suc, ◌+◌, ◌-◌, ◌*◌, ◌/◌, ◌%◌, ◌^◌, ◌≤◌, ◌<◌, ◌≡◌, refl, ap, ◌∙◌, bit_and, bit_or, List, [],
  ◌∷◌, ◌++◌, dec_le, arith,
}
use jsd_os.Prelude.Words.{u32, sub32, ◌<<<◌, ◌>>>◌}
use jsd_os.Prelude.Bits.{bit_and_low, bit_and_high, bit_or_sum}
use jsd_os.Unicode.{utf8_encode_char, Decoded, countl_one, utf8_decode_from, utf8_decode_char}

abbrev decoded : ℕ → List ℕ → Decoded
decoded c units = record { ch = c; rest = units }

-- A continuation byte carries six bits.
cont_next :
    (k next x : ℕ) (units : List ℕ)
    → x < 0x40
    → next < 0x400_0000
    → utf8_decode_from (suc (suc k)) next ((0x80 + x) ∷ units)
      ≡ utf8_decode_from (suc k) (next * 0x40 + x) units
unfolding utf8_decode_from
cont_next k next x units small fits =
    let high : bit_and (0x80 + x) 0x80 ≡ 0x80 =
      bit_and_high 1 7 (0x80 + x) (omega arith) ∙ omega arith in
    let top : bit_and (0x80 + x) 0xc0 ≡ 0x80 =
      bit_and_high 2 6 (0x80 + x) (omega arith) ∙ omega arith in
    let low : bit_and (0x80 + x) 0x3f ≡ x = bit_and_low 6 (0x80 + x) ∙ omega arith in
    let shift : u32 (next <<< 6) ≡ next * 2 ^ 6 = omega arith in
    ground (arith, high, top, low, shift, bit_or_sum 6 next x small)

cont_last :
    (next x : ℕ) (units : List ℕ)
    → x < 0x40
    → next < 0x400_0000
    → utf8_decode_from 1 next ((0x80 + x) ∷ units) ≡ record { ch = next * 0x40 + x; rest = units }
unfolding utf8_decode_from
cont_last next x units small fits =
    let high : bit_and (0x80 + x) 0x80 ≡ 0x80 =
      bit_and_high 1 7 (0x80 + x) (omega arith) ∙ omega arith in
    let top : bit_and (0x80 + x) 0xc0 ≡ 0x80 =
      bit_and_high 2 6 (0x80 + x) (omega arith) ∙ omega arith in
    let low : bit_and (0x80 + x) 0x3f ≡ x = bit_and_low 6 (0x80 + x) ∙ omega arith in
    let shift : u32 (next <<< 6) ≡ next * 2 ^ 6 = omega arith in
    ground (arith, high, top, low, shift, bit_or_sum 6 next x small)

-- A byte that leads a sequence of `ones` bytes.
lead :
    (ones next c : ℕ) (units : List ℕ)
    → 0xc0 ≤ c
    → c < 0x100
    → countl_one c ≡ suc (suc ones)
    → c % 2 ^ (8 - (ones + 3)) ≡ next
    → 0xff >>> (suc (suc ones) + 1) ≡ 2 ^ (8 - (ones + 3)) - 1
    → utf8_decode_char (c ∷ units) ≡ utf8_decode_from (suc ones) next units
unfolding utf8_decode_char utf8_decode_from sub32
lead ones next c units low byte counted rest mask =
    let high : bit_and c 0x80 ≡ 0x80 = bit_and_high 1 7 c byte ∙ omega arith in
    let top : bit_and c 0xc0 ≡ 0xc0 = bit_and_high 2 6 c byte ∙ omega arith in
    let value : bit_and c (0xff >>> (suc (suc ones) + 1)) ≡ next =
      ap (bit_and c) mask ∙ bit_and_low (8 - (ones + 3)) c ∙ rest in
    ground (arith, high, top, counted, value)

-- The bytes of a character as sums.
encode-one : (c : ℕ) → c ≤ 0x7f → utf8_encode_char c ≡ c ∷ []
unfolding utf8_encode_char
encode-one c h = ground arith

module _ (c : ℕ) where
  six : (x : ℕ) → bit_or 0x80 (bit_and x 0x3f) ≡ 0x80 + x % 0x40
  six x = rw (bit_and_low 6 x) (bit_or_sum 6 2 (x % 0x40) (omega arith))

  encode-two :
      0x7f < c → c ≤ 0x7ff → utf8_encode_char c ≡ (0xc0 + c / 0x40) ∷ (0x80 + c % 0x40) ∷ []
  unfolding utf8_encode_char
  encode-two low high =
      let first : bit_or 0xc0 (bit_and (c >>> 6) 0x1f) ≡ 0xc0 + c / 0x40 =
        rw (bit_and_low 5 (c >>> 6))
          (bit_or_sum 5 6 (c / 0x40 % 0x20) (omega arith) ∙ omega arith) in
      ground (arith, first, six c)

  encode-three :
      0x7ff < c
      → c ≤ 0xffff
      → utf8_encode_char c ≡ (0xe0 + c / 0x1000) ∷ (0x80 + c / 0x40 % 0x40) ∷ (0x80 + c % 0x40) ∷ []
  unfolding utf8_encode_char
  encode-three low high =
      let first : bit_or 0xe0 (bit_and (c >>> 12) 0xf) ≡ 0xe0 + c / 0x1000 =
        rw (bit_and_low 4 (c >>> 12))
          (bit_or_sum 4 14 (c / 0x1000 % 0x10) (omega arith) ∙ omega arith) in
      ground (arith, first, six (c / 0x40), six c)

  encode-four :
      0xffff < c
      → c ≤ 0x10_ffff
      → utf8_encode_char c
        ≡ (0xf0 + c / 0x4_0000)
          ∷ (0x80 + c / 0x1000 % 0x40)
          ∷ (0x80 + c / 0x40 % 0x40)
          ∷ (0x80 + c % 0x40)
          ∷ []
  unfolding utf8_encode_char
  encode-four low high =
      let first : bit_or 0xf0 (bit_and (c >>> 18) 7) ≡ 0xf0 + c / 0x4_0000 =
        rw (bit_and_low 3 (c >>> 18))
          (bit_or_sum 3 30 (c / 0x4_0000 % 8) (omega arith) ∙ omega arith) in
      ground (arith, first, six (c / 0x1000), six (c / 0x40), six c)

module _ (c : ℕ) (units : List ℕ) where
  decode-one : c ≤ 0x7f → utf8_decode_char (c ∷ units) ≡ decoded c units
  unfolding utf8_decode_char utf8_decode_from
  decode-one h =
      let high : bit_and c 0x80 ≡ 0 = bit_and_high 1 7 c (omega arith) ∙ omega arith in
      ground (arith, high)

  decode-two :
      0x7f < c
      → c ≤ 0x7ff
      → utf8_decode_char ((0xc0 + c / 0x40) ∷ (0x80 + c % 0x40) ∷ units) ≡ decoded c units
  unfolding countl_one
  decode-two low high =
      lead 0 (c / 0x40) (0xc0 + c / 0x40) _ (omega arith) (omega arith) (ground arith) (omega arith)
        refl
      ∙ cont_last (c / 0x40) (c % 0x40) units (omega arith) (omega arith)
      ∙ ap (λ x. decoded x units) (omega arith)

  decode-three :
      0x7ff < c
      → c ≤ 0xffff
      → utf8_decode_char
          ((0xe0 + c / 0x1000) ∷ (0x80 + c / 0x40 % 0x40) ∷ (0x80 + c % 0x40) ∷ units)
        ≡ decoded c units
  unfolding countl_one
  decode-three low high =
      lead 1 (c / 0x1000) (0xe0 + c / 0x1000) _ (omega arith) (omega arith) (ground arith)
        (omega arith) refl
      ∙ cont_next 0 (c / 0x1000) (c / 0x40 % 0x40) _ (omega arith) (omega arith)
      ∙ cont_last (c / 0x1000 * 0x40 + c / 0x40 % 0x40) (c % 0x40) units (omega arith) (omega arith)
      ∙ ap (λ x. decoded x units) (omega arith)

  decode-four :
      0xffff < c
      → c ≤ 0x10_ffff
      → utf8_decode_char (
          (0xf0 + c / 0x4_0000)
          ∷ (0x80 + c / 0x1000 % 0x40)
          ∷ (0x80 + c / 0x40 % 0x40)
          ∷ (0x80 + c % 0x40)
          ∷ units)
        ≡ decoded c units
  unfolding countl_one
  decode-four low high =
      let top : ℕ = c / 0x4_0000 in
      let next : ℕ = top * 0x40 + c / 0x1000 % 0x40 in
      lead 2 top (0xf0 + top) _ (omega arith) (omega arith) (ground arith) (omega arith) refl
      ∙ cont_next 1 top (c / 0x1000 % 0x40) _ (omega arith) (omega arith)
      ∙ cont_next 0 next (c / 0x40 % 0x40) _ (omega arith) (omega arith)
      ∙ cont_last (next * 0x40 + c / 0x40 % 0x40) (c % 0x40) units (omega arith) (omega arith)
      ∙ ap (λ x. decoded x units) (omega arith)

  -- A character of the Unicode range is decoded from its encoding, and what follows it is left.
  pub decode-encode_char :
      c ≤ 0x10_ffff
      → utf8_decode_char (utf8_encode_char c ++ units) ≡ record { ch = c; rest = units }
  decode-encode_char h = elim (dec_le c 0x7f) [
    | yes one ↦ rw (encode-one c one) (decode-one one)
    | no more ↦ elim (dec_le c 0x7ff) [
      | yes two ↦ rw (encode-two c (omega arith) two) (decode-two (omega arith) two)
      | no more' ↦ elim (dec_le c 0xffff) [
        | yes three ↦ rw (encode-three c (omega arith) three) (decode-three (omega arith) three)
        | no more'' ↦ rw (encode-four c (omega arith) h) (decode-four (omega arith) h)
      ]
    ]
  ]
