-- ===== src/Chunks/Blocks.antt =====
-- kernel/filesystem/util.h: what the chunks of a range make of a file, for a driver that finds a block of the
-- file by its number.
pub mod Joined
use native.Mathlib.Nat.{
  mul-add-div_right, div-eq_of_lt, mul-add-mod_self_right, mod-eq_of_lt, one-le-pow,
}
use jsd_os.Prelude.{
  ℕ, zero, suc, ◌+◌, ◌-◌, ◌*◌, ◌/◌, ◌%◌, ◌^◌, ◌≤◌, ◌<◌, ◌≡◌, ◌⊎◌, inl, inr, refl, ap, sym, ◌∙◌,
  List, [], ◌∷◌, ◌++◌, ◌==◌, if◌then◌else◌, ℕ_discrete, subst, true, false, arith,
}
use jsd_os.Prelude.Words.{word}
use jsd_os.Prelude.{bytes_at}
use jsd_os.Chunks.{FsChunks}
use jsd_os.Chunks.Split.{Cuts}

-- `disk` is the bytes of the partition, and block `n` of the file starts at `place n`.
module _ (disk place : ℕ → ℕ) (bs : ℕ) where
  -- The byte of a file at a position, and the bytes from a position on.
  abbrev pub file_byte : ℕ → ℕ
  file_byte k = disk (place (k / bs) + k % bs)

  abbrev pub file_bytes : ℕ → ℕ → List ℕ
  file_bytes zero k = []
  file_bytes (suc count) k = file_byte k ∷ file_bytes count (k + 1)

  pub file_bytes-append :
      (a b k : ℕ) → file_bytes (a + b) k ≡ file_bytes a k ++ file_bytes b (k + a)
  file_bytes-append zero b k =
      ap (λ c. file_bytes c k) {x = 0 + b} {y = b} (omega arith)
      ∙ ap (file_bytes b) {x = k} {y = k + 0} (omega arith)
  file_bytes-append (suc a) b k =
      ap (λ c. file_bytes c k) {x = suc a + b} {y = suc (a + b)} (omega arith)
      ∙ ap (λ l. file_byte k ∷ l)
          (file_bytes-append a b (k + 1)
            ∙ ap (λ x. file_bytes a (k + 1) ++ file_bytes b x) {x = k + 1 + a} {y = k + suc a}
                (omega arith))

  -- The bytes of whole blocks, one after the other.
  abbrev pub blocks : ℕ → ℕ → List ℕ
  blocks zero n = []
  blocks (suc count) n = bytes_at bs (place n + 0) disk ++ blocks count (n + 1)

  module _ (pos : 0 < bs) where
    block-byte :
        (n offset : ℕ) → offset < bs → file_byte (n * bs + offset) ≡ disk (place n + offset)
    block-byte n offset inside =
        let quotient : (n * bs + offset) / bs ≡ n =
          mul-add-div_right pos n offset ∙ omega (arith, div-eq_of_lt inside) in
        let remainder : (n * bs + offset) % bs ≡ offset =
          mul-add-mod_self_right n bs offset ∙ mod-eq_of_lt inside in
        ap (λ q. disk (place q + (n * bs + offset) % bs)) quotient
        ∙ ap (λ r. disk (place n + r)) remainder

    -- The bytes in one block of the file.
    in_block :
        (count n offset : ℕ)
        → offset + count ≤ bs
        → bytes_at count (place n + offset) disk ≡ file_bytes count (n * bs + offset)
    in_block zero n offset fits = refl
    in_block (suc count) n offset fits =
        let rest : bytes_at count (place n + offset + 1) disk
            ≡ file_bytes count (n * bs + offset + 1) =
          ap (λ a. bytes_at count a disk) (omega arith)
          ∙ in_block count n (offset + 1) (omega (arith, fits))
          ∙ ap (file_bytes count) (omega arith) in
        ap (λ x. x ∷ bytes_at count (place n + offset + 1) disk)
          (sym (block-byte n offset (omega (arith, fits))))
        ∙ ap (λ l. file_byte (n * bs + offset) ∷ l) rest

    pub read-in_block :
        (n offset count : ℕ)
        → offset + count ≤ bs
        → bytes_at count (place n + offset) disk ≡ file_bytes count (n * bs + offset)
    read-in_block n offset count fits = in_block count n offset fits

    pub blocks_lem : (count n : ℕ) → blocks count n ≡ file_bytes (count * bs) (n * bs)
    blocks_lem zero n = ap (λ c. file_bytes c (n * bs)) {x = 0} {y = 0 * bs} (omega arith)
    blocks_lem (suc count) n =
        let here : bytes_at bs (place n + 0) disk ≡ file_bytes bs (n * bs) =
          read-in_block n 0 bs (omega arith) ∙ ap (file_bytes bs) (omega arith) in
        let rest : blocks count (n + 1) ≡ file_bytes (count * bs) (n * bs + bs) =
          blocks_lem count (n + 1) ∙ ap (file_bytes (count * bs)) (grind arith) in
        ap (λ l. l ++ blocks count (n + 1)) here
        ∙ ap (λ l. file_bytes bs (n * bs) ++ l) rest
        ∙ sym (file_bytes-append bs (count * bs) (n * bs))
        ∙ ap (λ c. file_bytes c (n * bs)) (grind arith)

    pub le-blocks : (x : ℕ) → x ≤ x * bs
    le-blocks x =
        let size : bs ≡ (bs - 1) + 1 = omega (arith, pos) in
        let product : x * bs ≡ x * (bs - 1) + x = ap (◌*◌ x) size ∙ grind arith in
        omega (arith, product)
