-- ===== src/Physical/InRange.antt =====
-- kernel/physical_manager.cpp: `physical_memory_allocate_in_range`.
use native.Mathlib.Nat.{div-add-mod'}
use jsd_os.Prelude.{
  ℕ, ◌+◌, ◌-◌, ◌*◌, ◌/◌, ◌%◌, ◌≤◌, ◌<◌, ◌≡◌, ◌⊎◌, inl, inr, refl, ap, List, [], ◌∷◌, ◌++◌, arith,
  ltb, if◌then◌else◌,
}
use jsd_os.Prelude.Words.{word, add32-eq, sub32-eq}
use jsd_os.Physical.{
  Block, claim_from_block, align_addr, Allocation, behind, physical_memory_allocate_in_range,
}
use jsd_os.Physical.Regions.{Ordered}
use jsd_os.Physical.Align.{IsPowerOfTwo, pow-pos, align_addr_lem}
use jsd_os.Physical.Allocate.{Taken, Taken-claim, Taken-behind, claimed-Ordered}

-- The address that the loop tries in a block.
abbrev pub tried : ℕ → ℕ → Block → ℕ
tried start align b =
    if ltb (align_addr b.offset align) start
    then align_addr start align
    else align_addr b.offset align

-- No block has `size` bytes from the tried address on, or none that end by `end`.
abbrev pub NoneInRange : ℕ → ℕ → ℕ → ℕ → List Block → Type 0
NoneInRange start end size align [] = Unit {0}
NoneInRange start end size align (b ∷ rest) =
    ((b.offset + b.length < tried start align b + size) ⊎ (end < tried start align b + size))
    × NoneInRange start end size align rest

abbrev pub RangeOutcome : ℕ → ℕ → ℕ → ℕ → ℕ → ℕ → List Block → Allocation → Type 0
RangeOutcome top lo start end size align m r =
    Ordered top lo r.blocks
    × (((r.address % align ≡ 0)
          × (lo ≤ r.address)
          × (start ≤ r.address)
          × (r.address + size ≤ end)
          × (r.address + size ≤ top)
          × Taken size m r)
        ⊎ ((r.address ≡ 0) × (r.blocks ≡ m) × NoneInRange start end size align m))

le_of_multiples : (p q d : ℕ) → p * d < q * d + d → p * d ≤ q * d
le_of_multiples p q d h = let fewer : p ≤ q = grind arith in grind arith

multiple : (x d : ℕ) → x % d ≡ 0 → x ≡ x / d * d
multiple x d e = omega (arith, div-add-mod' x d)

module _ (top start end size align : ℕ) (p : IsPowerOfTwo align)
    (bounded : top + size + align ≤ word) (low : start + size + align ≤ word) where
  -- A multiple of `align` from `addr` on is not below `align_addr addr align`.
  align_addr-least :
      (addr x : ℕ) → addr + align ≤ word → addr ≤ x → x % align ≡ 0 → align_addr addr align ≤ x
  align_addr-least addr x h k e =
      let d = align_addr_lem addr p h in
      let mx = multiple x align e in
      let ma = multiple (align_addr addr align) align d.2 in
      let le =
        le_of_multiples (align_addr addr align / align) (x / align) align
          (omega (arith, d, mx, ma)) in
      omega (arith, mx, ma, le)

  tried_bounds :
      (b : Block)
      → b.offset ≤ top
      → (b.offset ≤ tried start align b)
        × (start ≤ tried start align b)
        × (tried start align b + size < word)
        × (tried start align b % align ≡ 0)
  tried_bounds b h = ground (
    arith,
    align_addr_lem b.offset p (omega arith),
    align_addr_lem start p (omega arith),
    pow-pos p,
  )

  -- Later blocks are tried at later addresses.
  tried_mono :
      (b c : Block)
      → b.offset ≤ c.offset
      → c.offset ≤ top
      → tried start align b ≤ tried start align c
  tried_mono b c h k = ground (
    arith,
    align_addr_lem c.offset p (omega arith),
    align_addr-least b.offset (align_addr c.offset align),
    align_addr-least start (align_addr c.offset align),
    align_addr_lem b.offset p (omega arith),
    align_addr_lem start p (omega arith),
  )

  all_too_high :
      (b : Block) (lo : ℕ) (rest : List Block)
      → end < tried start align b + size
      → b.offset ≤ lo
      → Ordered top lo rest
      → NoneInRange start end size align rest
  all_too_high b lo [] h k o = tt
  all_too_high b lo (c ∷ rest) h k o =
      let later = tried_mono b c (omega (arith, o)) (omega (arith, o)) in
      (inr (omega arith), all_too_high b (c.offset + c.length) rest h (omega (arith, o)) o.3)

  -- A round of the loop: the block is used, passed over, or ends the search.
  in_range_cases :
      (P : Allocation → Type 0) (lo : ℕ) (b : Block) (rest : List Block)
      → Ordered top lo (b ∷ rest)
      → let aligned = tried start align b in
        (aligned + size ≤ b.offset + b.length
          → aligned + size ≤ end
          → P (record {
            address = aligned;
            blocks = claim_from_block b (aligned - b.offset) size ++ rest;
          }))
        → (end < aligned + size → P (record { address = 0; blocks = b ∷ rest }))
        → (b.offset + b.length < aligned + size
            → P (behind b (physical_memory_allocate_in_range start end size align rest)))
        → P (physical_memory_allocate_in_range start end size align (b ∷ rest))
  unfolding physical_memory_allocate_in_range
  in_range_cases P lo b rest o used high passed = ground (
    arith,
    pow-pos p,
    tried_bounds b (omega (arith, o)),
    sub32-eq (tried start align b) b.offset,
    add32-eq size (tried start align b - b.offset),
    add32-eq (tried start align b) size,
    add32-eq b.offset b.length,
  )

  passed :
      (b : Block) (rest : List Block) (lo : ℕ) {r : Allocation}
      → Ordered top lo (b ∷ rest)
      → b.offset + b.length < tried start align b + size
      → RangeOutcome top (b.offset + b.length) start end size align rest r
      → RangeOutcome top lo start end size align (b ∷ rest) (behind b r)
  passed b rest lo {r} o full (order, inl (aligned, over, from, to, high, taken)) = (
    (o.0, o.1, o.2, order),
    inl (aligned, omega arith, from, to, high, Taken-behind b rest top lo size r o taken),
  )
  passed b rest lo o full (order, inr (zero, same, none)) =
      ((o.0, o.1, o.2, order), inr (zero, ap (◌∷◌ b) same, (inl full, none)))

  -- Where the blocks of the list are in order and end by `top`, `align` is a power of two, and `top +
  -- size + align` and `start + size + align` are at most 2 ^ 32, `physical_memory_allocate_in_range`
  -- keeps the list in order, and either returns an aligned region of free bytes inside the range, which
  -- it takes out of the list and nothing else, or returns 0 and changes nothing, and then no block passed
  -- on the way had room.
  pub allocate_in_range-RangeOutcome :
      (lo : ℕ) (m : List Block)
      → Ordered top lo m
      → RangeOutcome top lo start end size align m
          (physical_memory_allocate_in_range start end size align m)
  unfolding physical_memory_allocate_in_range
  allocate_in_range-RangeOutcome lo [] o = (tt, inr (refl, refl, tt))
  allocate_in_range-RangeOutcome lo (b ∷ rest) o =
      let aligned : ℕ = tried start align b in
      let found = tried_bounds b (omega (arith, o)) in
      in_range_cases (RangeOutcome top lo start end size align (b ∷ rest)) lo b rest o
        (λ fits under. (
          claimed-Ordered b rest top lo aligned size o (omega (arith, pow-pos p)) found.0 fits,
          inl (
            found.3,
            omega (arith, found),
            found.1,
            under,
            omega arith,
            Taken-claim b rest top lo aligned size o (omega (arith, pow-pos p)) found.0 fits,
          ),
        ))
        (λ high. (
          o,
          inr (
            refl,
            refl,
            (inr high, all_too_high b (b.offset + b.length) rest high (omega arith) o.3),
          ),
        ))
        (λ full.
          passed b rest lo o full (allocate_in_range-RangeOutcome (b.offset + b.length) rest o.3))
