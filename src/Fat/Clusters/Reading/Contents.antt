-- ===== src/Fat/Clusters/Reading/Contents.antt =====
-- drivers/formats/fat.cpp: the bytes that `fat_read` gives.
use native.Mathlib.Nat.{one-le-pow}
use jsd_os.Prelude.{
  ℕ, zero, suc, ◌+◌, ◌-◌, ◌*◌, ◌%◌, ◌^◌, ◌≤◌, ◌<◌, ◌≡◌, refl, ap, sym, ◌∙◌, bit_and, Bool, true,
  false, not, ◌&&◌, List, [], ◌++◌, bytes_at, ltb, leb, ◌==◌, if◌then◌else◌, subst, ℕ_discrete,
  arith,
}
use jsd_os.Prelude.Words.{word, add32}
use jsd_os.Chunks.{FsChunks, filesystem_chunkify}
use jsd_os.Chunks.Split.{Cuts}
use jsd_os.Chunks.Wrapping.{chunkify-Cuts}
use jsd_os.Chunks.Blocks.{file_bytes, blocks, le-blocks}
use jsd_os.Chunks.Blocks.Joined.{
  word_next, word_next_bounded, in_words-file_bytes, word_first-inside, word_block-inside,
  word_last-inside, word_second,
}
use jsd_os.Fat.{Volume, fat_get_next_cluster}
use jsd_os.Fat.Entries.{fat_root_dir_flag}
use jsd_os.Fat.Clusters.{fat_get_relative_cluster, has_fixed_root}
use jsd_os.Fat.Clusters.Reading.{
  FileRead, cluster_place, read_clusters, read_from_cluster, fat_read,
}

-- The clusters of a file, from its first on.
unfoldable pub chain : Volume → ℕ → ℕ → ℕ
chain v cluster zero = cluster
chain v cluster (suc n) = chain v (fat_get_next_cluster cluster v) n

chain-suc : (v : Volume) (c n : ℕ) → chain v c (suc n) ≡ fat_get_next_cluster (chain v c n) v
unfolding chain
chain-suc v c zero = refl
chain-suc v c (suc n) = chain-suc v (fat_get_next_cluster c v) n

relative-chain :
    (v : Volume) (c n : ℕ)
    → ((k : ℕ) → k ≤ n → chain v c k < v.fat.eof_value)
    → fat_get_relative_cluster c n v ≡ chain v c n
unfolding fat_get_relative_cluster chain
relative-chain v c zero inside = refl
relative-chain v c (suc n) inside =
    let next : ℕ = fat_get_next_cluster c v in
    let test : ltb next v.fat.eof_value ≡ true = ground (arith, inside 1 (omega arith)) in
    ap (λ b. if b then fat_get_relative_cluster next n v else next) test
    ∙ relative-chain v next n (λ k small. inside (suc k) (omega (arith, small)))

module _ (v : Volume) (c : ℕ) where
  place : ℕ → ℕ
  unfolding chain
  place k = cluster_place v (chain v c k)

  clusters_lem :
      (n b : ℕ)
      → ((j : ℕ) → j < n → chain v c (b + j) < v.fat.eof_value)
      → ((read_clusters n (chain v c b) v).cluster ≡ chain v c (b + n))
        × ((read_clusters n (chain v c b) v).contents ≡ blocks v.bytes place v.fat.cluster_size n b)
  unfolding read_clusters place
  clusters_lem zero b inside = (ap (chain v c) {x = b} {y = b + 0} (omega arith), refl)
  clusters_lem (suc n) b inside =
      let here : chain v c b < v.fat.eof_value =
        subst (λ x. chain v c x < v.fat.eof_value) {x = b + 0} {y = b} (omega arith)
          (inside 0 (omega arith)) in
      let test : ltb (chain v c b) v.fat.eof_value ≡ true = ground (arith, here) in
      let step : fat_get_next_cluster (chain v c b) v ≡ chain v c (b + 1) =
        sym (chain-suc v c b) ∙ ap (chain v c) {x = suc b} {y = b + 1} (omega arith) in
      let (cluster, contents) = clusters_lem n (b + 1) (λ j small.
        subst (λ x. chain v c x < v.fat.eof_value) {x = b + suc j} {y = b + 1 + j} (omega arith)
          (inside (suc j) (omega (arith, small)))) in
      let rest : FileRead = read_clusters n (fat_get_next_cluster (chain v c b) v) v in
      let same : rest ≡ read_clusters n (chain v c (b + 1)) v =
        ap (λ x. read_clusters n x v) step in
      let first : List ℕ = bytes_at v.fat.cluster_size (place b + 0) v.bytes in
      let stop : FileRead = record { cluster = chain v c b; contents = [] } in
      (
        ap (λ t. (if t then record rest { contents = first ++ rest.contents } else stop).cluster)
              test
            ∙ ap (λ r. r.cluster) same
            ∙ cluster
            ∙ ap (chain v c) {x = b + 1 + n} {y = b + suc n} (omega arith),
        ap (λ t. (if t then record rest { contents = first ++ rest.contents } else stop).contents)
              test
            ∙ ap (λ r. first ++ r.contents) same
            ∙ ap (λ l. first ++ l) contents,
      )

  -- The parts, where every block of the file inside the range has a cluster.
  module _ (offset size : ℕ) (chunks : FsChunks) (pos : 0 < v.fat.cluster_size)
      (positive : 0 < size) (cuts : Cuts offset size v.fat.cluster_size chunks)
      (bounded : 0 * v.fat.cluster_size + offset + size < word)
      (inside : (k : ℕ)
        → k * v.fat.cluster_size < 0 * v.fat.cluster_size + offset + size
        → chain v c k < v.fat.eof_value) where
    first : ℕ
    first = add32 0 chunks.start_chunk

    next : ℕ
    next = word_next 0 chunks

    next-chain :
        (if chunks.start_size == 0
          then chain v c first
          else fat_get_next_cluster (chain v c first) v)
        ≡ chain v c next
    unfolding first next
    next-chain = elim (ℕ_discrete chunks.start_size 0) [
      | yes nothing ↦
          let test : (chunks.start_size == 0) ≡ true = ground (arith, nothing) in
          ap (λ b. if b then chain v c first else fat_get_next_cluster (chain v c first) v) test
          ∙ sym (ap (λ b. chain v c (if b then first else add32 first 1)) test)
      | no more ↦
          let test : (chunks.start_size == 0) ≡ false = ground (arith, more) in
          let second =
            word_second v.bytes place v.fat.cluster_size pos 0 offset size chunks cuts bounded
              more in
          ap (λ b. if b then chain v c first else fat_get_next_cluster (chain v c first) v) test
          ∙ sym (chain-suc v c first)
          ∙ ap (chain v c) {x = suc first} {y = first + 1} (omega arith)
          ∙ ap (chain v c) (sym second)
          ∙ sym (ap (λ b. chain v c (if b then first else add32 first 1)) test)
    ]

    full-clusters :
        ((read_clusters chunks.num_full_chunks (chain v c next) v).cluster
          ≡ chain v c (next + chunks.num_full_chunks))
        × ((read_clusters chunks.num_full_chunks (chain v c next) v).contents
            ≡ blocks v.bytes place v.fat.cluster_size chunks.num_full_chunks next)
    unfolding next
    full-clusters = clusters_lem chunks.num_full_chunks next (λ j small. inside (next + j) (
        word_block-inside v.bytes place v.fat.cluster_size pos 0 offset size chunks cuts bounded j
          small))

    last-chain : next + chunks.num_full_chunks ≡ add32 next chunks.num_full_chunks
    unfolding next add32
    last-chain =
        let small =
          word_next_bounded v.bytes place v.fat.cluster_size pos 0 offset size chunks cuts
            bounded in
        omega (arith, small)

    end_part :
        (if not (chunks.end_size == 0)
            && ltb (chain v c (next + chunks.num_full_chunks)) v.fat.eof_value
          then bytes_at chunks.end_size (place (next + chunks.num_full_chunks) + 0) v.bytes
          else [])
        ≡ (if chunks.end_size == 0
            then []
            else bytes_at chunks.end_size (place (add32 next chunks.num_full_chunks) + 0) v.bytes)
    unfolding next
    end_part = elim (ℕ_discrete chunks.end_size 0) [
      | yes nothing ↦ ground (arith, nothing)
      | no more ↦
          let here = inside (next + chunks.num_full_chunks) (
            word_last-inside v.bytes place v.fat.cluster_size pos 0 offset size chunks cuts bounded
              more) in
          let test : (chunks.end_size == 0) ≡ false = ground (arith, more) in
          let test_eof : ltb (chain v c (next + chunks.num_full_chunks)) v.fat.eof_value ≡ true =
            ground (arith, here) in
          let bytes =
            bytes_at chunks.end_size (place (next + chunks.num_full_chunks) + 0) v.bytes in
          ap
            (λ b.
              if not b && ltb (chain v c (next + chunks.num_full_chunks)) v.fat.eof_value
              then bytes
              else [])
            test
          ∙ ap (λ b. if b then bytes else []) test_eof
          ∙ ap (λ x. bytes_at chunks.end_size (place x + 0) v.bytes) last-chain
          ∙ sym (
              ap
                (λ b.
                  if b
                  then []
                  else bytes_at chunks.end_size (place (add32 next chunks.num_full_chunks) + 0)
                      v.bytes)
                test)
    ]

    -- The parts from the last cluster's loop on, for the cluster that the loop begins at.
    from_next : ℕ → List ℕ
    unfolding place
    from_next cluster =
        let full : FileRead = read_clusters chunks.num_full_chunks cluster v in
        full.contents
        ++ (if not (chunks.end_size == 0) && ltb full.cluster v.fat.eof_value
            then bytes_at chunks.end_size (cluster_place v full.cluster + 0) v.bytes
            else [])

    from_next_lem :
        from_next (chain v c next)
        ≡ blocks v.bytes place v.fat.cluster_size chunks.num_full_chunks next
          ++ (if chunks.end_size == 0
              then []
              else bytes_at chunks.end_size (place (add32 next chunks.num_full_chunks) + 0) v.bytes)
    unfolding from_next place
    from_next_lem =
        let full : FileRead = read_clusters chunks.num_full_chunks (chain v c next) v in
        ap
          (λ x.
            full.contents
            ++ (if not (chunks.end_size == 0) && ltb x v.fat.eof_value
                then bytes_at chunks.end_size (cluster_place v x + 0) v.bytes
                else []))
          full-clusters.0
        ∙ ap (λ l. full.contents ++ l) end_part
        ∙ ap
            (λ l.
              l
              ++ (if chunks.end_size == 0
                  then []
                  else bytes_at chunks.end_size (place (add32 next chunks.num_full_chunks) + 0)
                      v.bytes))
            full-clusters.1

    read_from_cluster-file_bytes :
        (read_from_cluster chunks (chain v c first) v).contents
        ≡ file_bytes v.bytes place v.fat.cluster_size size (0 * v.fat.cluster_size + offset)
    unfolding read_from_cluster from_next place first next
    read_from_cluster-file_bytes =
        let start : List ℕ =
          if chunks.start_size == 0
          then []
          else bytes_at chunks.start_size (place first + chunks.start_offset) v.bytes in
        ap (λ x. start ++ from_next x) next-chain
        ∙ ap (λ l. start ++ l) from_next_lem
        ∙ in_words-file_bytes v.bytes place v.fat.cluster_size pos 0 offset size chunks cuts bounded

    first_cluster : fat_get_relative_cluster c chunks.start_chunk v ≡ chain v c first
    unfolding first add32
    first_cluster =
        let low = le-blocks v.bytes place v.fat.cluster_size pos chunks.start_chunk in
        let same : chunks.start_chunk ≡ (0 + chunks.start_chunk) % word =
          omega (arith, low, cuts.located, bounded) in
        relative-chain v c chunks.start_chunk (λ k small.
          let below : k * v.fat.cluster_size ≤ chunks.start_chunk * v.fat.cluster_size =
            grind (arith, small) in
          inside k (omega (arith, below, cuts.located, positive)))
        ∙ ap (chain v c) same

    first_inside : chain v c first < v.fat.eof_value
    unfolding first
    first_inside = inside first (
        word_first-inside v.bytes place v.fat.cluster_size pos 0 offset size chunks cuts bounded
          positive)

last_branch :
    (p q r : Bool) (a b c d : FileRead)
    → p ≡ false
    → q ≡ false
    → r ≡ false
    → (if p then a else if q then b else if r then c else d) ≡ d
last_branch p q r a b c d hp hq hr = ground (arith, hp, hq, hr)

-- Where the chain of a file has a cluster for every position of a range that is not empty and does not
-- wrap, `fat_read` returns the bytes of the range, each from the cluster of its position in the chain;
-- the file is not the fixed root directory, and the cluster size is the power of two that the driver
-- keeps.
pub fat_read-file_bytes :
    (v : Volume) (start_cluster offset size flags : ℕ)
    → v.fat.cluster_size ≡ 2 ^ v.fat.cluster_size_log2
    → offset + size < word
    → 0 < size
    → has_fixed_root v.fat.type && not (bit_and flags fat_root_dir_flag == 0) ≡ false
    → ((k : ℕ) → k * v.fat.cluster_size < offset + size → chain v start_cluster k < v.fat.eof_value)
    → (fat_read start_cluster offset size flags v).contents
      ≡ file_bytes v.bytes
          (λ k. cluster_place v (chain v start_cluster k))
          v.fat.cluster_size
          size
          offset
unfolding fat_read place first
fat_read-file_bytes v c offset size flags whole bounded positive no_root inside =
    let chunks : FsChunks =
      filesystem_chunkify offset size (v.fat.cluster_size - 1) v.fat.cluster_size_log2 in
    let pos : 0 < v.fat.cluster_size =
      subst (λ x. 0 < x) (sym whole) (one-le-pow v.fat.cluster_size_log2 2 (omega arith)) in
    let cuts : Cuts offset size v.fat.cluster_size chunks =
      subst
        (λ b. Cuts offset size b (filesystem_chunkify offset size (b - 1) v.fat.cluster_size_log2))
        (sym whole) (chunkify-Cuts offset size v.fat.cluster_size_log2 bounded) in
    let start : offset ≡ 0 * v.fat.cluster_size + offset = omega arith in
    let bounded_start : 0 * v.fat.cluster_size + offset + size < word = omega (arith, bounded) in
    let inside_start =
      λ (k : ℕ) (low : k * v.fat.cluster_size < 0 * v.fat.cluster_size + offset + size).
        inside k (omega (arith, low)) in
    let cluster : ℕ = fat_get_relative_cluster c chunks.start_chunk v in
    let found = first_cluster v c offset size chunks pos positive cuts bounded_start inside_start in
    let here : cluster < v.fat.eof_value =
      subst (λ x. x < v.fat.eof_value) (sym found)
        (first_inside v c offset size chunks pos positive cuts bounded_start inside_start) in
    let first_here : c < v.fat.eof_value = inside 0 (omega (arith, positive)) in
    ap (λ r. r.contents)
      (last_branch (leb v.fat.eof_value c) _ (leb v.fat.eof_value cluster) _ _ _
        (read_from_cluster chunks cluster v) (ground (arith, first_here)) no_root
        (ground (arith, here)))
    ∙ ap (λ x. (read_from_cluster chunks x v).contents) found
    ∙ read_from_cluster-file_bytes v c offset size chunks pos positive cuts bounded_start
        inside_start
    ∙ ap (file_bytes v.bytes (λ k. cluster_place v (chain v c k)) v.fat.cluster_size size)
        (sym start)
