-- ===== src/Unicode.antt =====
-- kernel/util/unicode.h: UTF-8 and UTF-16. A string is the list of its units as unsigned numbers, an
-- output iterator the list it appends; a decoder returns the character and the units behind it.
mod Examples
use jsd_os.Prelude.{
  ℕ, zero, suc, ◌+◌, ◌-◌, ◌*◌, ◌/◌, ◌%◌, ◌^◌, ◌≤◌, ◌<◌, ◌≡◌, bit_and, bit_or, Bool, true, false,
  not, ◌&&◌, ◌||◌, List, [], ◌∷◌, ◌++◌, ltb, leb, ◌==◌, if◌then◌else◌, length,
}
use jsd_os.Prelude.Words.{u8, u16, u32, add32, sub32, ◌<<<◌, ◌>>>◌}
pub mod Utf8
pub mod Utf16
pub mod Transcoding
pub mod Fuel

pub utf8_encode_char : ℕ → List ℕ
utf8_encode_char c =
    if leb c 0x7f
    then u8 c ∷ []
    else if leb c 0x7ff
    then bit_or 0xc0 (bit_and (c >>> 6) 0x1f) ∷ bit_or 0x80 (bit_and c 0x3f) ∷ []
    else if leb c 0xffff
    then bit_or 0xe0 (bit_and (c >>> 12) 0xf)
      ∷ bit_or 0x80 (bit_and (c >>> 6) 0x3f)
      ∷ bit_or 0x80 (bit_and c 0x3f)
      ∷ []
    else if leb c 0x10_ffff
    then bit_or 0xf0 (bit_and (c >>> 18) 7)
      ∷ bit_or 0x80 (bit_and (c >>> 12) 0x3f)
      ∷ bit_or 0x80 (bit_and (c >>> 6) 0x3f)
      ∷ bit_or 0x80 (bit_and c 0x3f)
      ∷ []
    else 0xef ∷ 0xbf ∷ 0xbd ∷ []

-- The loop of an encoder over its input.
pub encode_all : (ℕ → List ℕ) → List ℕ → List ℕ
encode_all encode_char [] = []
encode_all encode_char (c ∷ input) = encode_char c ++ encode_all encode_char input

pub utf8_encode : List ℕ → List ℕ
unfolding encode_all utf8_encode_char
utf8_encode input = encode_all utf8_encode_char input

-- `decode_result`.
pub record Decoded : Type 0 where
  pub ch : ℕ
  pub rest : List ℕ

-- std::countl_one of a byte.
pub countl_one : ℕ → ℕ
countl_one c =
    if ltb c 0x80
    then 0
    else if ltb c 0xc0
    then 1
    else if ltb c 0xe0
    then 2
    else if ltb c 0xf0
    then 3
    else if ltb c 0xf8
    then 4
    else if ltb c 0xfc
    then 5
    else if ltb c 0xfe
    then 6
    else if ltb c 0xff
    then 7
    else 8

-- The loop of `utf8_decode_char`, with `num_chars` and `next_output`.
pub utf8_decode_from : ℕ → ℕ → List ℕ → Decoded
unfolding countl_one
utf8_decode_from num_chars next_output [] = record { ch = 0; rest = [] }
utf8_decode_from num_chars next_output (c ∷ units) = elim (bit_and c 0x80 == 0) [
  | true ↦ record { ch = c; rest = units }
  | false ↦ elim (bit_and c 0xc0 == 0x80 && not (num_chars == 0)) [
    | true ↦
        let next : ℕ = bit_or (u32 (next_output <<< 6)) (bit_and c 0x3f) in
        elim (num_chars - 1 == 0) [
          | true ↦ record { ch = next; rest = units }
          | false ↦ utf8_decode_from (num_chars - 1) next units
        ]
    | false ↦
        let ones : ℕ = countl_one c in
        utf8_decode_from (sub32 ones 1) (bit_and c (0xff >>> (ones + 1))) units
  ]
]

pub utf8_decode_char : List ℕ → Decoded
unfolding utf8_decode_from
utf8_decode_char units = utf8_decode_from 0 0 units

-- A loop that decodes to the end of its input, on fuel.
pub decode_all : (List ℕ → Decoded) → ℕ → List ℕ → List ℕ
decode_all decode_char fuel [] = []
decode_all decode_char zero (c ∷ units) = []
decode_all decode_char (suc fuel) (c ∷ units) =
    let d : Decoded = decode_char (c ∷ units) in d.ch ∷ decode_all decode_char fuel d.rest

pub utf16_encode_char : ℕ → List ℕ
utf16_encode_char c =
    if leb c 0xffff
    then u16 c ∷ []
    else let d : ℕ = c - 0x1_0000 in
      bit_or 0xd800 (bit_and (d >>> 10) 0x3ff) ∷ bit_or 0xdc00 (bit_and d 0x3ff) ∷ []

pub utf16_encode : List ℕ → List ℕ
unfolding encode_all utf16_encode_char
utf16_encode input = encode_all utf16_encode_char input

-- The loop of `utf16_decode_char`; a unit between the surrogates' ranges does not occur.
pub utf16_decode_from : ℕ → List ℕ → Decoded
utf16_decode_from next_output [] = record { ch = 0; rest = [] }
utf16_decode_from next_output (c ∷ units) = elim (ltb c 0xd800 || ltb 0xdfff c) [
  | true ↦ record { ch = c; rest = units }
  | false ↦ elim (bit_and c 0xfc00 == 0xdc00) [
    | true ↦ record {
      ch = add32 (bit_or (u32 (next_output <<< 10)) (bit_and c 0x3ff)) 0x1_0000;
      rest = units;
    }
    | false ↦ elim (bit_and c 0xfc00 == 0xd800) [
      | true ↦ utf16_decode_from (bit_and c 0x3ff) units
      | false ↦ utf16_decode_from next_output units
    ]
  ]
]

pub utf16_decode_char : List ℕ → Decoded
unfolding utf16_decode_from
utf16_decode_char units = utf16_decode_from 0 units

-- The loops that decode one form and encode the other.
pub transcode_all : (List ℕ → Decoded) → (ℕ → List ℕ) → ℕ → List ℕ → List ℕ
transcode_all decode_char encode_char fuel [] = []
transcode_all decode_char encode_char zero (c ∷ units) = []
transcode_all decode_char encode_char (suc fuel) (c ∷ units) =
    let d : Decoded = decode_char (c ∷ units) in
    encode_char d.ch ++ transcode_all decode_char encode_char fuel d.rest

pub utf16_to_utf8 : List ℕ → List ℕ
unfolding transcode_all utf16_decode_char utf8_encode_char
utf16_to_utf8 input = transcode_all utf16_decode_char utf8_encode_char (length input) input

pub utf8_to_utf16 : List ℕ → List ℕ
unfolding transcode_all utf8_decode_char utf16_encode_char
utf8_to_utf16 input = transcode_all utf8_decode_char utf16_encode_char (length input) input
