-- ===== src/Physical/Reserve.antt =====
-- kernel/physical_manager.cpp: `physical_memory_reserve`.
use jsd_os.Prelude.{
  ℕ, ◌+◌, ◌-◌, ◌≤◌, ◌<◌, ◌≡◌, ◌⊎◌, inl, inr, Bool-cases, ltb→lt, refl, List, [], ◌∷◌, ◌++◌, arith,
  not, ◌&&◌, ltb,
}
use jsd_os.Prelude.Words.{word, add32, sub32}
use jsd_os.Physical.{Block, Claimed, claim_round, reserve_round, physical_memory_reserve}
use jsd_os.Physical.Regions.{
  within, free_at, Ordered, free_at_below, free_at-append, Ordered-append, Ordered-weaken,
}
use jsd_os.Physical.Claim.{free_at-claim, claim-Ordered}

-- A round takes out of the block what lies in the region, and goes on with what lies behind.
record Round (b : Block) (address size : ℕ) (c : Claimed) : Type 0 where
  takes : (a : ℕ) → free_at a c.blocks ≡ (within a b.offset b.length && not (within a address size))
  order : Ordered (b.offset + b.length) b.offset c.blocks
  same_end : c.address + c.size ≡ address + size
  onward : address ≤ c.address
  not_past : (c.address ≤ b.offset + b.length) ⊎ (c.address ≡ address)

module _ (b : Block) (bounded : b.offset + b.length < word) (some_byte : 0 < b.length) where
  claim_round-Round :
      (address size : ℕ)
      → b.offset ≤ address
      → address + size < word
      → Round b address size (claim_round b address size)
  unfolding claim_round add32 sub32
  claim_round-Round address size h k = record {
    takes = λ a. ground (
      arith,
      free_at-claim b (address - b.offset) size,
      free_at-claim b (address - b.offset) (b.length - (address - b.offset)),
    );
    order = ground (
      arith,
      claim-Ordered b (address - b.offset) size,
      claim-Ordered b (address - b.offset) (b.length - (address - b.offset)),
    );
    same_end = ground arith;
    onward = ground arith;
    not_past = ground arith;
  }

  -- The bytes of the region below the block change nothing.
  from_offset :
      (address size : ℕ) {c : Claimed}
      → address < b.offset
      → b.offset ≤ address + size
      → Round b b.offset (size - (b.offset - address)) c
      → Round b address size c
  from_offset address size h k r = record {
    takes = λ a. ground (arith, r.takes a);
    order = r.order;
    same_end = omega (arith, r.same_end);
    onward = omega (arith, r.onward);
    not_past = ground (arith, r.not_past);
  }

  reserve_round-Round :
      (address size : ℕ)
      → b.offset ≤ address + size
      → address + size < word
      → Round b address size (reserve_round b address size)
  unfolding reserve_round
  reserve_round-Round address size h k = elim (Bool-cases (ltb address b.offset)) [
    | inl low ↦
        let below : address < b.offset = ltb→lt address b.offset low in
        let rest : sub32 size (sub32 b.offset address) ≡ size - (b.offset - address) =
          unfold sub32 in omega arith in
        rw (low, rest)
          (from_offset address size below h
            (claim_round-Round b.offset (size - (b.offset - address)) (omega arith) (omega arith)))
    | inr high ↦ rw high (claim_round-Round address size (ground arith) k)
  ]

-- What a list behind the block keeps of a region does not change by the round.
free_at_behind :
    (b : Block) (top a address size : ℕ) (c : Claimed) (rest : List Block)
    → Round b address size c
    → Ordered top (b.offset + b.length) rest
    → (free_at a rest && not (within a c.address c.size))
      ≡ (free_at a rest && not (within a address size))
free_at_behind b top a address size c rest r o =
    ground
      (arith, r.same_end, r.onward, r.not_past, free_at_below top a (b.offset + b.length) rest o)

module _ (top : ℕ) (bounded : top < word) where
  -- A round of the loop: it stops before the block, stops after it, or goes on.
  reserve_cases :
      (P : List Block → Type 0) (address size lo : ℕ) (b : Block) (rest : List Block)
      → address + size < word
      → let c = reserve_round b address size in
        (address + size < b.offset → P (b ∷ rest))
        → (b.offset ≤ address + size → c.size ≡ 0 → P (c.blocks ++ rest))
        → (b.offset ≤ address + size
            → P (c.blocks ++ physical_memory_reserve c.address c.size rest))
        → P (physical_memory_reserve address size (b ∷ rest))
  unfolding physical_memory_reserve add32
  reserve_cases P address size lo b rest h before done later = ground arith

  -- What the round leaves of the block, and what is to do behind it, make up the whole.
  free_at-Round :
      (a address size lo : ℕ) (b : Block) (rest left : List Block)
      → Round b address size (reserve_round b address size)
      → Ordered top lo (b ∷ rest)
      → let c = reserve_round b address size in
        free_at a left ≡ (free_at a rest && not (within a c.address c.size))
        → free_at a (c.blocks ++ left) ≡ (free_at a (b ∷ rest) && not (within a address size))
  free_at-Round a address size lo b rest left r o e = ground (
    arith,
    free_at-append a (reserve_round b address size).blocks left,
    r.takes a,
    free_at_behind b top a address size (reserve_round b address size) rest r o.3,
  )

  -- After `physical_memory_reserve` of a region that does not wrap, an address is free where it was free
  -- before and does not lie in the region.
  pub free_at-reserve :
      (a address size lo : ℕ) (m : List Block)
      → address + size < word
      → Ordered top lo m
      → free_at a (physical_memory_reserve address size m)
        ≡ (free_at a m && not (within a address size))
  unfolding physical_memory_reserve
  free_at-reserve a address size lo [] h o = refl
  free_at-reserve a address size lo (b ∷ rest) h o =
      let c : Claimed = reserve_round b address size in
      let r = λ (k : b.offset ≤ address + size).
        reserve_round-Round b (omega (arith, o)) o.1 address size k h in
      reserve_cases (λ n. free_at a n ≡ (free_at a (b ∷ rest) && not (within a address size)))
        address size lo b rest h
        (λ k. ground (arith, free_at_below top a (b.offset + b.length) rest o.3))
        (λ k none. free_at-Round a address size lo b rest rest (r k) o (ground (arith, none)))
        (λ k. free_at-Round a address size lo b rest _ (r k) o (
          free_at-reserve a c.address c.size (b.offset + b.length) rest
            (omega (arith, (r k).same_end)) o.3))

  -- `physical_memory_reserve` of a region that does not wrap keeps the free blocks in order and apart.
  pub reserve-Ordered :
      (address size lo : ℕ) (m : List Block)
      → address + size < word
      → Ordered top lo m
      → Ordered top lo (physical_memory_reserve address size m)
  unfolding physical_memory_reserve
  reserve-Ordered address size lo [] h o = o
  reserve-Ordered address size lo (b ∷ rest) h o =
      let c : Claimed = reserve_round b address size in
      let r = λ (k : b.offset ≤ address + size).
        reserve_round-Round b (omega (arith, o)) o.1 address size k h in
      let join =
        λ (k : b.offset ≤ address + size) (left : List Block)
            (p : Ordered top (b.offset + b.length) left).
          Ordered-weaken top b.offset lo (c.blocks ++ left) o.0 (
            Ordered-append top b.offset (b.offset + b.length) c.blocks left (r k).order
              (omega arith) o.2 p) in
      reserve_cases (Ordered top lo) address size lo b rest h (λ k. o) (λ k none. join k rest o.3)
        (λ k. join k _ (
          reserve-Ordered c.address c.size (b.offset + b.length) rest
            (omega (arith, (r k).same_end)) o.3))

  -- `physical_memory_reserve` of a region that does not wrap keeps the free blocks in order and apart,
  -- and after it an address is free where it was free before and does not lie in the region.
  pub reserve_lem :
      (address size lo : ℕ) (m : List Block)
      → address + size < word
      → Ordered top lo m
      → Ordered top lo (physical_memory_reserve address size m)
        × ((a : ℕ)
            → free_at a (physical_memory_reserve address size m)
              ≡ (free_at a m && not (within a address size)))
  reserve_lem address size lo m h o =
      (reserve-Ordered address size lo m h o, λ a. free_at-reserve a address size lo m h o)
