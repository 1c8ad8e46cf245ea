-- ===== src/Ext2/Bytes.antt =====
-- drivers/formats/ext2.cpp: bytes that are written to the partition and read from it.
use jsd_os.Prelude.{
  bytes_at, ℕ, zero, suc, ◌+◌, ◌≤◌, ◌<◌, ◌≡◌, refl, ap, ◌∙◌, List, [], ◌∷◌, length, arith,
}
use jsd_os.Ext2.{put_bytes}

pub length-bytes_at : (count a : ℕ) (disk : ℕ → ℕ) → length (bytes_at count a disk) ≡ count
length-bytes_at zero a disk = refl
length-bytes_at (suc count) a disk = ap suc (length-bytes_at count (a + 1) disk)

pub put_bytes_below : (l : List ℕ) (a x : ℕ) (disk : ℕ → ℕ) → x < a → put_bytes a l disk x ≡ disk x
put_bytes_below [] a x disk low = refl
put_bytes_below (b ∷ rest) a x disk low =
    ground (arith, low, put_bytes_below rest (a + 1) x disk (omega (arith, low)))

pub bytes_at-same :
    (count a : ℕ) (f g : ℕ → ℕ)
    → ((x : ℕ) → a ≤ x → f x ≡ g x)
    → bytes_at count a f ≡ bytes_at count a g
bytes_at-same zero a f g same = refl
bytes_at-same (suc count) a f g same =
    ap (λ x. x ∷ bytes_at count (a + 1) f) (same a (omega arith))
    ∙ ap (λ l. g a ∷ l) (bytes_at-same count (a + 1) f g (λ x low. same x (omega (arith, low))))

-- Bytes that are written are read back.
pub bytes_at-put_bytes :
    (l : List ℕ) (a : ℕ) (disk : ℕ → ℕ) → bytes_at (length l) a (put_bytes a l disk) ≡ l
bytes_at-put_bytes [] a disk = refl
bytes_at-put_bytes (b ∷ rest) a disk =
    let head : put_bytes a (b ∷ rest) disk a ≡ b = ground arith in
    ap (λ x. x ∷ bytes_at (length rest) (a + 1) (put_bytes a (b ∷ rest) disk)) head
    ∙ ap (λ l. b ∷ l)
        (bytes_at-same (length rest) (a + 1) (put_bytes a (b ∷ rest) disk)
            (put_bytes (a + 1) rest disk) (λ x low. ground (arith, low))
          ∙ bytes_at-put_bytes rest (a + 1) disk)

pub put_bytes_above :
    (l : List ℕ) (a x : ℕ) (disk : ℕ → ℕ) → a + length l ≤ x → put_bytes a l disk x ≡ disk x
put_bytes_above [] a x disk high = refl
put_bytes_above (b ∷ rest) a x disk high =
    ground (arith, high, put_bytes_above rest (a + 1) x disk (omega (arith, high)))
