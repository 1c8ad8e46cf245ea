-- ===== src/Unicode/Transcoding.antt =====
-- kernel/util/unicode.h: the loops over whole strings.
use jsd_os.Prelude.{
  ℕ, zero, suc, ◌≤◌, ◌<◌, ◌≡◌, refl, ap, ◌∙◌, List, [], ◌∷◌, ◌++◌, length, length-append, arith,
}
use jsd_os.Unicode.{
  Decoded, encode_all, decode_all, transcode_all, utf8_encode_char, utf8_encode, utf8_decode_char,
  utf16_encode_char, utf16_encode, utf16_decode_char, utf16_to_utf8, utf8_to_utf16,
}
use jsd_os.Unicode.Utf8
use jsd_os.Unicode.Utf16
use jsd_os.Unicode.Utf16.{IsScalar}

-- Every character of a string.
abbrev pub All : (ℕ → Type 0) → List ℕ → Type 0
All P [] = Unit
All P (c ∷ cs) = P c × All P cs

-- The Unicode range.
abbrev pub IsChar : ℕ → Type 0
IsChar c = c ≤ 0x10_ffff

All-map : {P Q : ℕ → Type 0} → ((c : ℕ) → P c → Q c) → (s : List ℕ) → All P s → All Q s
All-map f [] a = tt
All-map f (c ∷ cs) (p, a) = (f c p, All-map f cs a)

-- A decoder that reads back, before whatever follows, the characters of a kind that an encoder writes.
record Reads (P : ℕ → Type 0) (encode_char : ℕ → List ℕ) (decode_char : List ℕ → Decoded)
    : Type 0 where
  back :
      (c : ℕ) (units : List ℕ)
      → P c
      → decode_char (encode_char c ++ units) ≡ record { ch = c; rest = units }
  some_unit : (c : ℕ) → 0 < length (encode_char c)

module _ (P : ℕ → Type 0) (encode_char : ℕ → List ℕ) (decode_char : List ℕ → Decoded)
    (r : Reads P encode_char decode_char) where
  decode_step :
      (fuel : ℕ) (units rest : List ℕ) (c : ℕ)
      → 0 < length units
      → decode_char (units ++ rest) ≡ record { ch = c; rest = rest }
      → decode_all decode_char (suc fuel) (units ++ rest) ≡ c ∷ decode_all decode_char fuel rest
  unfolding decode_all
  decode_step fuel [] rest c some_units e = absurd (omega arith)
  decode_step fuel (u ∷ us) rest c some_units e =
      ap (λ d. d.ch ∷ decode_all decode_char fuel d.rest) e

  decode-encode :
      (fuel : ℕ) (s : List ℕ)
      → All P s
      → length (encode_all encode_char s) ≤ fuel
      → decode_all decode_char fuel (encode_all encode_char s) ≡ s
  unfolding encode_all decode_all
  decode-encode fuel [] a enough = refl
  decode-encode zero (c ∷ cs) (p, a) enough =
      absurd
        (omega (arith, r.some_unit c, length-append (encode_char c) (encode_all encode_char cs)))
  decode-encode (suc fuel) (c ∷ cs) (p, a) enough =
      decode_step fuel (encode_char c) (encode_all encode_char cs) c (r.some_unit c) (r.back c _ p)
      ∙ ap (◌∷◌ c) (
          decode-encode fuel cs a (
            omega
              (arith, r.some_unit c, length-append (encode_char c) (encode_all encode_char cs))))

-- Any transcoding loop is the decoding loop followed by the encoding one.
transcode-decode :
    (decode_char : List ℕ → Decoded) (encode_char : ℕ → List ℕ) (fuel : ℕ) (units : List ℕ)
    → transcode_all decode_char encode_char fuel units
      ≡ encode_all encode_char (decode_all decode_char fuel units)
unfolding transcode_all encode_all decode_all
transcode-decode decode_char encode_char fuel [] = refl
transcode-decode decode_char encode_char zero (c ∷ units) = refl
transcode-decode decode_char encode_char (suc fuel) (c ∷ units) =
    let d : Decoded = decode_char (c ∷ units) in
    ap (◌++◌ (encode_char d.ch)) (transcode-decode decode_char encode_char fuel d.rest)

Reads-utf8 : Reads IsChar utf8_encode_char utf8_decode_char
unfolding utf8_encode_char
Reads-utf8 = record { back = Utf8.decode-encode_char; some_unit = λ c. ground arith }

Reads-utf16 : Reads IsScalar utf16_encode_char utf16_decode_char
unfolding utf16_encode_char
Reads-utf16 = record { back = Utf16.decode-encode_char; some_unit = λ c. ground arith }

-- The decoding loop over the UTF-8 form of a text of characters up to U+10FFFF collects the characters of
-- the text, for any fuel from the length of that form on.
pub decode_all-encode_all :
    (fuel : ℕ) (s : List ℕ)
    → All IsChar s
    → length (encode_all utf8_encode_char s) ≤ fuel
    → decode_all utf8_decode_char fuel (encode_all utf8_encode_char s) ≡ s
decode_all-encode_all = decode-encode IsChar utf8_encode_char utf8_decode_char Reads-utf8

-- For a text of scalar values, `utf16_to_utf8` takes its UTF-16 form to its UTF-8 form, and
-- `utf8_to_utf16` takes the one back to the other.
pub transcode-encode :
    (s : List ℕ)
    → All IsScalar s
    → (utf16_to_utf8 (utf16_encode s) ≡ utf8_encode s)
      × (utf8_to_utf16 (utf8_encode s) ≡ utf16_encode s)
unfolding utf16_to_utf8 utf8_to_utf16 utf16_encode utf8_encode
transcode-encode s a = (
  transcode-decode utf16_decode_char utf8_encode_char _ (utf16_encode s)
      ∙ ap (encode_all utf8_encode_char) (
          decode-encode IsScalar utf16_encode_char utf16_decode_char Reads-utf16 _ s a
            (omega arith)),
  transcode-decode utf8_decode_char utf16_encode_char _ (utf8_encode s)
      ∙ ap (encode_all utf16_encode_char)
          (decode_all-encode_all _ s (All-map (λ c p. p.1) s a) (omega arith)),
)
