-- ===== src/Physical/Free.antt =====
-- kernel/physical_manager.cpp: `physical_memory_free`.
use jsd_os.Prelude.{ℕ, suc, ◌+◌, ◌≤◌, ◌<◌, ◌≡◌, List, [], ◌∷◌, arith, ◌||◌, length}
use jsd_os.Prelude.Words.{word, add32}
use jsd_os.Physical.{Block, block, extend_block, physical_memory_free}
use jsd_os.Physical.Regions.{within, free_at, Ordered, Apart, total}

module _ (top address size : ℕ) (bounded : top < word) (inside : address + size ≤ top) where
  module _ (b : Block) (adjacent : b.offset + b.length ≡ address) where
    free_at-extend :
        (a : ℕ) (rest : List Block)
        → Ordered top (b.offset + b.length) rest
        → Apart address size rest
        → free_at a (extend_block address size b rest)
          ≡ (free_at a (b ∷ rest) || within a address size)
    unfolding extend_block add32
    free_at-extend a [] o d = ground arith
    free_at-extend a (next ∷ rest) o d = ground arith

    extend-Ordered :
        (lo : ℕ) (rest : List Block)
        → Ordered top lo (b ∷ rest)
        → Apart address size rest
        → Ordered top lo (extend_block address size b rest)
    unfolding extend_block add32
    extend-Ordered lo [] o d = ground arith
    extend-Ordered lo (next ∷ rest) o d = ground arith

    total-extend :
        (lo : ℕ) (rest : List Block)
        → Ordered top lo (b ∷ rest)
        → Apart address size rest
        → total (extend_block address size b rest) ≡ total (b ∷ rest) + size
    unfolding extend_block add32
    total-extend lo [] o d = ground arith
    total-extend lo (next ∷ rest) o d = ground arith

    length-extend :
        (rest : List Block) → length (extend_block address size b rest) ≤ suc (length rest)
    unfolding extend_block
    length-extend [] = ground arith
    length-extend (next ∷ rest) = ground arith

  -- A round of the loop, by where the block lies.
  free_cases :
      (P : List Block → Type 0) (lo : ℕ) (b : Block) (rest : List Block)
      → Ordered top lo (b ∷ rest)
      → Apart address size (b ∷ rest)
      → (b.offset + b.length < address → P (b ∷ physical_memory_free address size rest))
      → (b.offset + b.length ≡ address → P (extend_block address size b rest))
      → (b.offset ≡ address + size → P (block address (b.length + size) ∷ rest))
      → (address + size < b.offset → P (block address size ∷ b ∷ rest))
      → P (physical_memory_free address size (b ∷ rest))
  unfolding physical_memory_free add32
  free_cases P lo b rest o d later before after new = ground arith

  -- After `physical_memory_free` of a region that shares no byte with the free blocks, an address is free
  -- where it was free before or lies in the region.
  pub free_at-free :
      (a lo : ℕ) (m : List Block)
      → Ordered top lo m
      → Apart address size m
      → free_at a (physical_memory_free address size m) ≡ (free_at a m || within a address size)
  unfolding physical_memory_free
  free_at-free a lo [] o d = ground arith
  free_at-free a lo (b ∷ rest) o d =
      free_cases (λ n. free_at a n ≡ (free_at a (b ∷ rest) || within a address size)) lo b rest o d
        (λ _. ground (arith, free_at-free a (b.offset + b.length) rest o.3 d.1))
        (λ e. free_at-extend b e a rest o.3 d.1) (λ e. ground arith) (λ h. ground arith)

  -- `physical_memory_free` of a region that is not empty and shares no byte with the free blocks keeps
  -- the blocks in order and apart.
  pub free-Ordered :
      (lo : ℕ) (m : List Block)
      → 0 < size
      → lo ≤ address
      → Ordered top lo m
      → Apart address size m
      → Ordered top lo (physical_memory_free address size m)
  unfolding physical_memory_free
  free-Ordered lo [] p h o d = ground arith
  free-Ordered lo (b ∷ rest) p h o d =
      free_cases (Ordered top lo) lo b rest o d
        (λ k. (o.0, o.1, o.2, free-Ordered (b.offset + b.length) rest p (omega arith) o.3 d.1))
        (λ e. extend-Ordered b e lo rest o d.1) (λ e. ground arith) (λ k. ground arith)

  pub total-free :
      (lo : ℕ) (m : List Block)
      → Ordered top lo m
      → Apart address size m
      → total (physical_memory_free address size m) ≡ total m + size
  unfolding physical_memory_free
  total-free lo [] o d = ground arith
  total-free lo (b ∷ rest) o d =
      free_cases (λ n. total n ≡ total (b ∷ rest) + size) lo b rest o d
        (λ _. omega (arith, total-free (b.offset + b.length) rest o.3 d.1))
        (λ e. total-extend b e lo rest o d.1) (λ e. omega arith) (λ h. omega arith)

  -- `physical_memory_free` of a region that is not empty, shares no byte with the free blocks and ends,
  -- as they do, by an address `top` that is below 2 ^ 32 keeps the blocks in order and apart; after it an
  -- address is free where it was free before or lies in the region, and the free bytes are more by its
  -- size.
  pub free_lem :
      (lo : ℕ) (m : List Block)
      → 0 < size
      → lo ≤ address
      → Ordered top lo m
      → Apart address size m
      → Ordered top lo (physical_memory_free address size m)
        × ((a : ℕ)
            → free_at a (physical_memory_free address size m)
              ≡ (free_at a m || within a address size))
        × (total (physical_memory_free address size m) ≡ total m + size)
  free_lem lo m p h o d =
      (free-Ordered lo m p h o d, λ a. free_at-free a lo m o d, total-free lo m o d)

  pub length-free :
      (lo : ℕ) (m : List Block)
      → Ordered top lo m
      → Apart address size m
      → length (physical_memory_free address size m) ≤ suc (length m)
  unfolding physical_memory_free
  length-free lo [] o d = ground arith
  length-free lo (b ∷ rest) o d =
      free_cases (λ n. length n ≤ suc (length (b ∷ rest))) lo b rest o d
        (λ _. omega (arith, length-free (b.offset + b.length) rest o.3 d.1))
        (λ e. omega (arith, length-extend b e rest)) (λ e. omega arith) (λ h. omega arith)
