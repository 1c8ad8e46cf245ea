-- ===== src/Chunks/Blocks/Joined.antt =====
-- kernel/filesystem/util.h: the chunks of a range, put together.
use jsd_os.Prelude.{
  ℕ, ◌+◌, ◌*◌, ◌≤◌, ◌<◌, ◌≡◌, ◌≢◌, ◌⊎◌, inl, inr, ap, sym, ◌∙◌, List, [], ◌++◌, ◌==◌, if◌then◌else◌,
  ℕ_discrete, subst, true, false, arith,
}
use jsd_os.Prelude.Words.{word, add32}
use jsd_os.Prelude.{bytes_at}
use jsd_os.Chunks.{FsChunks}
use jsd_os.Chunks.Split.{Cuts}
use jsd_os.Chunks.Blocks.{
  file_bytes, file_bytes-append, blocks, read-in_block, blocks_lem, le-blocks,
}

-- The number of the block behind the first part, in the code's arithmetic.
abbrev pub word_next : ℕ → FsChunks → ℕ
word_next start chunks =
    if chunks.start_size == 0
    then add32 start chunks.start_chunk
    else add32 (add32 start chunks.start_chunk) 1

-- The parts of a range, with the code's arithmetic on the numbers of blocks.
abbrev pub in_words : (ℕ → ℕ) → (ℕ → ℕ) → ℕ → ℕ → FsChunks → List ℕ
in_words disk place bs start chunks =
    (if chunks.start_size == 0
      then []
      else bytes_at chunks.start_size (place (add32 start chunks.start_chunk) + chunks.start_offset)
          disk)
    ++ (blocks disk place bs chunks.num_full_chunks (word_next start chunks)
        ++ (if chunks.end_size == 0
            then []
            else bytes_at chunks.end_size
                (place (add32 (word_next start chunks) chunks.num_full_chunks) + 0) disk))

module _ (disk place : ℕ → ℕ) (bs : ℕ) (pos : 0 < bs) where
  -- The parts of a read, from the cut of its range.
  module _ (start offset size : ℕ) (chunks : FsChunks) (cuts : Cuts offset size bs chunks)
      (bounded : start * bs + offset + size < word) where
    base : ℕ
    base = start * bs + offset

    first : ℕ
    first = start + chunks.start_chunk

    next : ℕ
    unfolding first
    next = if chunks.start_size == 0 then first else first + 1

    first_lem : (first * bs + chunks.start_offset ≡ base) × (first ≤ base)
    unfolding first base
    first_lem =
        let product : (start + chunks.start_chunk) * bs ≡ start * bs + chunks.start_chunk * bs =
          grind arith in
        (
          omega (arith, product, cuts.located),
          omega (
            arith,
            product,
            cuts.located,
            le-blocks disk place bs pos (start + chunks.start_chunk),
          ),
        )

    start_part :
        (if chunks.start_size == 0
          then []
          else bytes_at chunks.start_size (place first + chunks.start_offset) disk)
        ≡ file_bytes disk place bs chunks.start_size base
    start_part = elim (ℕ_discrete chunks.start_size 0) [
      | yes nothing ↦
          let test : (chunks.start_size == 0) ≡ true = ground (arith, nothing) in
          ap
            (λ b.
              if b then [] else bytes_at chunks.start_size (place first + chunks.start_offset) disk)
            test
          ∙ ap (λ m. file_bytes disk place bs m base) (sym nothing)
      | no more ↦
          let test : (chunks.start_size == 0) ≡ false = ground (arith, more) in
          ap
            (λ b.
              if b then [] else bytes_at chunks.start_size (place first + chunks.start_offset) disk)
            test
          ∙ read-in_block disk place bs pos first chunks.start_offset chunks.start_size
              cuts.start_fits
          ∙ ap (file_bytes disk place bs chunks.start_size) first_lem.0
    ]

    -- Nothing is left, or the rest begins with a block.
    rest_place :
        (chunks.num_full_chunks ≡ 0) × (chunks.end_size ≡ 0)
        ⊎ (next * bs ≡ base + chunks.start_size)
    unfolding next
    rest_place = elim cuts.start_ends [
      | inl whole ↦ inl (
        omega (arith, whole, cuts.complete, le-blocks disk place bs pos chunks.num_full_chunks),
        omega (arith, whole, cuts.complete),
      )
      | inr (inl ends) ↦
          let test : (chunks.start_size == 0) ≡ false = ground (arith, ends, cuts.offset_lt) in
          let step : (first + 1) * bs ≡ first * bs + bs = grind arith in
          inr (
            ap (λ b. (if b then first else first + 1) * bs) test
            ∙ omega (arith, step, first_lem.0, ends))
      | inr (inr (at_start, nothing)) ↦
          let test : (chunks.start_size == 0) ≡ true = ground (arith, nothing) in
          inr (
            ap (λ b. (if b then first else first + 1) * bs) test
            ∙ omega (arith, first_lem.0, at_start, nothing))
    ]

    next_le : next ≤ base + chunks.start_size
    unfolding next
    next_le = ground (arith, first_lem.1)

    next_bounded : next + chunks.num_full_chunks < word
    unfolding base
    next_bounded =
        omega (
          arith,
          next_le,
          le-blocks disk place bs pos chunks.num_full_chunks,
          cuts.complete,
          bounded,
        )

    last : ℕ
    unfolding next
    last = next + chunks.num_full_chunks

    last_part :
        (if chunks.end_size == 0 then [] else bytes_at chunks.end_size (place last + 0) disk)
        ≡ file_bytes disk place bs chunks.end_size (last * bs)
    last_part = elim (ℕ_discrete chunks.end_size 0) [
      | yes nothing ↦
          let test : (chunks.end_size == 0) ≡ true = ground (arith, nothing) in
          ap (λ b. if b then [] else bytes_at chunks.end_size (place last + 0) disk) test
          ∙ ap (λ m. file_bytes disk place bs m (last * bs)) (sym nothing)
      | no more ↦
          let test : (chunks.end_size == 0) ≡ false = ground (arith, more) in
          ap (λ b. if b then [] else bytes_at chunks.end_size (place last + 0) disk) test
          ∙ read-in_block disk place bs pos last 0 chunks.end_size (omega (arith, cuts.end_lt))
          ∙ ap (file_bytes disk place bs chunks.end_size) (omega arith)
    ]

    rest_part :
        blocks disk place bs chunks.num_full_chunks next
          ++ file_bytes disk place bs chunks.end_size (last * bs)
        ≡ file_bytes disk place bs
            (chunks.num_full_chunks * bs + chunks.end_size)
            (base + chunks.start_size)
    unfolding last
    rest_part =
        let full : ℕ = chunks.num_full_chunks * bs in
        elim rest_place [
          | inl (no_blocks, no_end) ↦
              let none : full ≡ 0 * bs = ap (λ m. m * bs) no_blocks in
              ap
                (λ m.
                  blocks disk place bs m next
                  ++ file_bytes disk place bs chunks.end_size (last * bs))
                no_blocks
              ∙ ap (λ m. file_bytes disk place bs m (last * bs)) no_end
              ∙ ap (λ m. file_bytes disk place bs m (base + chunks.start_size)) {x = 0}
                  {y = full + chunks.end_size} (omega (arith, none, no_end))
          | inr at_block ↦
              let after_blocks : (next + chunks.num_full_chunks) * bs
                  ≡ base + chunks.start_size + full =
                grind (arith, at_block) in
              ap (λ l. l ++ file_bytes disk place bs chunks.end_size (last * bs))
                (blocks_lem disk place bs pos chunks.num_full_chunks next
                  ∙ ap (file_bytes disk place bs full) at_block)
              ∙ ap
                  (λ x.
                    file_bytes disk place bs full (base + chunks.start_size)
                    ++ file_bytes disk place bs chunks.end_size x)
                  after_blocks
              ∙ sym
                  (file_bytes-append disk place bs full chunks.end_size (base + chunks.start_size))
        ]

    -- The parts, put together.
    joined : List ℕ
    unfolding first next last
    joined =
        (if chunks.start_size == 0
          then []
          else bytes_at chunks.start_size (place first + chunks.start_offset) disk)
        ++ (blocks disk place bs chunks.num_full_chunks next
            ++ (if chunks.end_size == 0
                then []
                else bytes_at chunks.end_size (place last + 0) disk))

    joined_lem : joined ≡ file_bytes disk place bs size base
    unfolding joined
    joined_lem =
        let rest : ℕ = chunks.num_full_chunks * bs + chunks.end_size in
        ap
          (λ l.
            l
            ++ (blocks disk place bs chunks.num_full_chunks next
                ++ (if chunks.end_size == 0
                    then []
                    else bytes_at chunks.end_size (place last + 0) disk)))
          start_part
        ∙ ap
            (λ l.
              file_bytes disk place bs chunks.start_size base
              ++ (blocks disk place bs chunks.num_full_chunks next ++ l))
            last_part
        ∙ ap (λ l. file_bytes disk place bs chunks.start_size base ++ l) rest_part
        ∙ sym (file_bytes-append disk place bs chunks.start_size rest base)
        ∙ ap (λ m. file_bytes disk place bs m base) (omega (arith, cuts.complete))

    -- No number of a block wraps.
    first-eq : add32 start chunks.start_chunk ≡ first
    unfolding add32 first base
    first-eq = omega (arith, first_lem.1, bounded)

    next-eq : (if chunks.start_size == 0 then first else add32 first 1) ≡ next
    unfolding add32 next base
    next-eq = ground (arith, first_lem.1, bounded, cuts.complete)

    last-eq : add32 next chunks.num_full_chunks ≡ last
    unfolding add32 last
    last-eq = omega (arith, next_bounded)

    word_next-eq : word_next start chunks ≡ next
    word_next-eq = ap (λ f. if chunks.start_size == 0 then f else add32 f 1) first-eq ∙ next-eq

    pub word_next_bounded : word_next start chunks + chunks.num_full_chunks < word
    word_next_bounded =
        subst (λ x. x + chunks.num_full_chunks < word) (sym word_next-eq) next_bounded

    -- The parts, by the number of the first, the next and the last block.
    by_numbers : ℕ → ℕ → ℕ → List ℕ
    by_numbers f nx l =
        (if chunks.start_size == 0
          then []
          else bytes_at chunks.start_size (place f + chunks.start_offset) disk)
        ++ (blocks disk place bs chunks.num_full_chunks nx
            ++ (if chunks.end_size == 0 then [] else bytes_at chunks.end_size (place l + 0) disk))

    pub in_words-file_bytes :
        in_words disk place bs start chunks ≡ file_bytes disk place bs size (start * bs + offset)
    unfolding by_numbers joined base
    in_words-file_bytes =
        ap
          (λ f.
            by_numbers f (word_next start chunks)
              (add32 (word_next start chunks) chunks.num_full_chunks))
          first-eq
        ∙ ap (λ nx. by_numbers first nx (add32 nx chunks.num_full_chunks)) word_next-eq
        ∙ ap (by_numbers first next) last-eq
        ∙ joined_lem

    -- The blocks of the parts begin inside the range.
    block_inside : (j : ℕ) → j < chunks.num_full_chunks → (next + j) * bs < base + size
    block_inside j small =
        let product : (next + j) * bs ≡ next * bs + j * bs = grind arith in
        let grows : (j + 1) * bs ≤ chunks.num_full_chunks * bs = grind (arith, small) in
        let step : (j + 1) * bs ≡ j * bs + bs = grind arith in
        elim rest_place [
          | inl (no_blocks, _) ↦ absurd (omega (arith, no_blocks, small))
          | inr at_block ↦ omega (arith, product, grows, step, at_block, cuts.complete, pos)
        ]

    last_inside : chunks.end_size ≢ 0 → last * bs < base + size
    unfolding last
    last_inside some_bytes =
        let product : (next + chunks.num_full_chunks) * bs
            ≡ next * bs + chunks.num_full_chunks * bs =
          grind arith in
        elim rest_place [
          | inl (_, no_end) ↦ absurd (some_bytes no_end)
          | inr at_block ↦ omega (arith, product, at_block, cuts.complete, some_bytes)
        ]

    pub word_first-inside :
        0 < size → add32 start chunks.start_chunk * bs < start * bs + offset + size
    unfolding base
    word_first-inside positive =
        subst (λ x. x * bs < base + size) (sym first-eq) (omega (arith, first_lem.0, positive))

    pub word_block-inside :
        (j : ℕ)
        → j < chunks.num_full_chunks
        → (word_next start chunks + j) * bs < start * bs + offset + size
    unfolding base
    word_block-inside j small =
        subst (λ x. (x + j) * bs < base + size) (sym word_next-eq) (block_inside j small)

    pub word_last-inside :
        chunks.end_size ≢ 0
        → (word_next start chunks + chunks.num_full_chunks) * bs < start * bs + offset + size
    unfolding base last
    word_last-inside some_bytes =
        subst (λ x. (x + chunks.num_full_chunks) * bs < base + size) (sym word_next-eq)
          (last_inside some_bytes)

    pub word_second :
        chunks.start_size ≢ 0
        → add32 (add32 start chunks.start_chunk) 1 ≡ add32 start chunks.start_chunk + 1
    unfolding base add32
    word_second some_bytes =
        ap (λ x. add32 x 1) first-eq
        ∙ omega (arith, first_lem.1, bounded, cuts.complete, some_bytes)
        ∙ ap (λ x. x + 1) (sym first-eq)
