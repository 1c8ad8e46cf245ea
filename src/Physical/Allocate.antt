-- ===== src/Physical/Allocate.antt =====
-- kernel/physical_manager.cpp: `physical_memory_allocate`.
use jsd_os.Prelude.{
  ℕ, suc, ◌+◌, ◌-◌, ◌%◌, ◌≤◌, ◌<◌, ◌≡◌, ◌⊎◌, inl, inr, refl, ap, true, List, [], ◌∷◌, ◌++◌, arith,
  not, ◌&&◌, length, length-append,
}
use jsd_os.Prelude.Words.{word, add32-eq, sub32-eq}
use jsd_os.Physical.{
  Block, claim_from_block, align_addr, Allocation, behind, physical_memory_allocate,
}
use jsd_os.Physical.Regions.{
  within, free_at, Ordered, total, free_at_below, free_at-append, Ordered-append, Ordered-weaken,
  total-append,
}
use jsd_os.Physical.Align.{IsPowerOfTwo, pow-pos, align_addr_lem}
use jsd_os.Physical.Claim.{free_at-claim, claim-Ordered, total-claim, length-claim}

-- `r` has the `size` bytes from `r.address` on, which were free in `m`, and they alone have left it.
pub record Taken (size : ℕ) (m : List Block) (r : Allocation) : Type 0 where
  pub was_free : (a : ℕ) → within a r.address size ≡ true → free_at a m ≡ true
  pub leaves : (a : ℕ) → free_at a r.blocks ≡ (free_at a m && not (within a r.address size))
  pub counts : total r.blocks + size ≡ total m
  pub grows : length r.blocks ≤ suc (length m)

-- No block has `size` bytes from its first aligned address on.
abbrev pub NoneFits : ℕ → ℕ → List Block → Type 0
NoneFits size align [] = Unit {0}
NoneFits size align (b ∷ rest) =
    (b.offset + b.length < align_addr b.offset align + size) × NoneFits size align rest

-- What an allocation can come to.
abbrev pub Outcome : ℕ → ℕ → ℕ → ℕ → List Block → Allocation → Type 0
Outcome top lo size align m r =
    Ordered top lo r.blocks
    × (((r.address % align ≡ 0) × (lo ≤ r.address) × (r.address + size ≤ top) × Taken size m r)
        ⊎ ((r.address ≡ 0) × (r.blocks ≡ m) × NoneFits size align m))

pub Taken-claim :
    (b : Block) (rest : List Block) (top lo address size : ℕ)
    → Ordered top lo (b ∷ rest)
    → top < word
    → b.offset ≤ address
    → address + size ≤ b.offset + b.length
    → Taken size (b ∷ rest) (record {
      address = address;
      blocks = claim_from_block b (address - b.offset) size ++ rest;
    })
Taken-claim b rest top lo address size o bounded low high = record {
  was_free = λ a w. ground arith;
  leaves = λ a. ground (
    arith,
    free_at-append a (claim_from_block b (address - b.offset) size) rest,
    free_at-claim b (address - b.offset) size (omega arith) (omega arith) a,
    free_at_below top a (b.offset + b.length) rest o.3,
  );
  counts = omega (
    arith,
    total-append (claim_from_block b (address - b.offset) size) rest,
    total-claim b (address - b.offset) size (omega arith) (omega arith),
  );
  grows = omega (
    arith,
    length-append (claim_from_block b (address - b.offset) size) rest,
    length-claim b (address - b.offset) size (omega arith) (omega arith),
  );
}

pub Taken-behind :
    (b : Block) (rest : List Block) (top lo size : ℕ) (r : Allocation)
    → Ordered top lo (b ∷ rest)
    → Taken size rest r
    → Taken size (b ∷ rest) (behind b r)
Taken-behind b rest top lo size r o t = record {
  was_free = λ a w. ground (arith, t.was_free a);
  leaves = λ a.
      ground (arith, t.was_free a, t.leaves a, free_at_below top a (b.offset + b.length) rest o.3);
  counts = omega (arith, t.counts);
  grows = omega (arith, t.grows);
}

pub claimed-Ordered :
    (b : Block) (rest : List Block) (top lo address size : ℕ)
    → Ordered top lo (b ∷ rest)
    → top < word
    → b.offset ≤ address
    → address + size ≤ b.offset + b.length
    → Ordered top lo (claim_from_block b (address - b.offset) size ++ rest)
claimed-Ordered b rest top lo address size o bounded low high =
    Ordered-weaken top b.offset lo _ o.0 (
      Ordered-append top b.offset (b.offset + b.length) _ rest
        (claim-Ordered b (address - b.offset) size (omega arith) (omega arith)) (omega arith) o.2
        o.3)

module _ (top size align : ℕ) (p : IsPowerOfTwo align) (bounded : top + align ≤ word)
    (small : size + align ≤ word) where
  -- A round of the loop: the block is used, or passed over.
  allocate_cases :
      (P : Allocation → Type 0) (lo : ℕ) (b : Block) (rest : List Block)
      → Ordered top lo (b ∷ rest)
      → let aligned = align_addr b.offset align in
        (aligned + size ≤ b.offset + b.length
          → P (record {
            address = aligned;
            blocks = claim_from_block b (aligned - b.offset) size ++ rest;
          }))
        → (b.offset + b.length < aligned + size
            → P (behind b (physical_memory_allocate size align rest)))
        → P (physical_memory_allocate size align (b ∷ rest))
  unfolding physical_memory_allocate
  allocate_cases P lo b rest o used passed = ground (
    arith,
    pow-pos p,
    align_addr_lem b.offset p (omega arith),
    sub32-eq (align_addr b.offset align) b.offset,
    add32-eq size (align_addr b.offset align - b.offset),
  )

  passed :
      (b : Block) (rest : List Block) (lo : ℕ) {r : Allocation}
      → Ordered top lo (b ∷ rest)
      → b.offset + b.length < align_addr b.offset align + size
      → Outcome top (b.offset + b.length) size align rest r
      → Outcome top lo size align (b ∷ rest) (behind b r)
  passed b rest lo {r} o full (order, inl (aligned, low, high, taken)) = (
    (o.0, o.1, o.2, order),
    inl (aligned, omega arith, high, Taken-behind b rest top lo size r o taken),
  )
  passed b rest lo o full (order, inr (zero, same, none)) =
      ((o.0, o.1, o.2, order), inr (zero, ap (◌∷◌ b) same, (full, none)))

  -- Where the blocks of the list are in order and end by `top`, `align` is a power of two, and `top +
  -- align` and `size + align` are at most 2 ^ 32, `physical_memory_allocate` keeps the list in order, and
  -- either returns an aligned region of free bytes that it takes out of the list and nothing else, or
  -- returns 0, changes nothing, and no block has room for the aligned region.
  pub allocate-Outcome :
      (lo : ℕ) (m : List Block)
      → Ordered top lo m
      → Outcome top lo size align m (physical_memory_allocate size align m)
  unfolding physical_memory_allocate
  allocate-Outcome lo [] o = (tt, inr (refl, refl, tt))
  allocate-Outcome lo (b ∷ rest) o =
      let aligned : ℕ = align_addr b.offset align in
      let found = align_addr_lem b.offset p (omega (arith, o)) in
      allocate_cases (Outcome top lo size align (b ∷ rest)) lo b rest o
        (λ fits. (
          claimed-Ordered b rest top lo aligned size o (omega (arith, pow-pos p)) found.0 fits,
          inl (
            found.2,
            omega (arith, found),
            omega arith,
            Taken-claim b rest top lo aligned size o (omega (arith, pow-pos p)) found.0 fits,
          ),
        ))
        (λ full. passed b rest lo o full (allocate-Outcome (b.offset + b.length) rest o.3))
