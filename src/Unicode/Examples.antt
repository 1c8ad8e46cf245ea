-- ===== src/Unicode/Examples.antt =====
-- The theorems on kernel/util/unicode.h at a concrete text: "a", U+E9, U+20AC and U+1F600.
use jsd_os.Prelude.{ℕ, ◌≡◌, inl, inr, List, [], ◌∷◌, length, arith}
use jsd_os.Unicode.{
  decode_all, utf8_encode, encode_all, utf8_encode_char, utf8_decode_char, utf16_encode,
  utf16_to_utf8, utf8_to_utf16, utf16_decode_char,
}
use jsd_os.Unicode.Utf16.{IsScalar}
use jsd_os.Unicode.Transcoding.{All, IsChar, decode_all-encode_all, transcode-encode}
use jsd_os.Unicode.Fuel.{decode_all-fuel}

abbrev text : List ℕ
text = 0x61 ∷ 0xe9 ∷ 0x20ac ∷ 0x1_f600 ∷ []

text-IsChar : All IsChar text
text-IsChar = (omega arith, (omega arith, (omega arith, (omega arith, tt))))

text-IsScalar : All IsScalar text
text-IsScalar = (
  (inl (omega arith), omega arith),
  (
    (inl (omega arith), omega arith),
    ((inl (omega arith), omega arith), ((inr (omega arith), omega arith), tt)),
  ),
)

decode_all-encode_all_example :
    decode_all utf8_decode_char 20 (encode_all utf8_encode_char text) ≡ text
decode_all-encode_all_example =
    decode_all-encode_all 20 text text-IsChar (unfold encode_all utf8_encode_char in omega arith)

transcode-encode_example :
    (utf16_to_utf8 (utf16_encode text) ≡ utf8_encode text)
    × (utf8_to_utf16 (utf8_encode text) ≡ utf16_encode text)
transcode-encode_example = transcode-encode text text-IsScalar

-- Input that is no UTF-8: a continuation byte with no lead, and a lead at the end.
abbrev stray : List ℕ
stray = 0x80 ∷ 0x41 ∷ 0xe2 ∷ []

decode_all-fuel_example :
    (decode_all utf8_decode_char 9 stray ≡ decode_all utf8_decode_char (length stray) stray)
    × (decode_all utf16_decode_char 9 stray ≡ decode_all utf16_decode_char (length stray) stray)
decode_all-fuel_example = decode_all-fuel 9 stray (omega arith)
