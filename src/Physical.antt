-- ===== src/Physical.antt =====
-- kernel/physical_manager.cpp, with `align_addr` of common/util.h: the list of free physical memory.
-- `memory_map` is the list of its blocks; an iterator is the list from its position on, so what a
-- method does at `it` is what it does to the head of that list. Sums are those of `size_t`.
pub mod Regions
pub mod Align
pub mod Claim
pub mod Free
pub mod Reserve
pub mod Allocate
pub mod InRange
pub mod Accounting
mod Examples
use jsd_os.Prelude.{
  ℕ, ◌+◌, ◌-◌, bit_and, Bool, List, [], ◌∷◌, ◌++◌, ltb, leb, ◌==◌, if◌then◌else◌, not, ◌&&◌, ◌||◌,
}
use jsd_os.Prelude.Words.{word, add32, sub32}

pub record Block : Type 0 where
  pub offset : ℕ
  pub length : ℕ

abbrev pub block : ℕ → ℕ → Block
block o l = record { offset = o; length = l }

-- (addr + (align - 1)) & ~(align - 1)
unfoldable pub align_addr : ℕ → ℕ → ℕ
align_addr addr align = bit_and (add32 addr (sub32 align 1)) (word - 1 - sub32 align 1)

-- The list from the iterator on, after `erase(it)`.
pub erase : List Block → List Block
erase [] = []
erase (b ∷ rest) = rest

-- The list from the iterator on, after `emplace(it, offset, length)`.
pub emplace : ℕ → ℕ → List Block → List Block
emplace o l blocks = block o l ∷ blocks

pub emplace_back : ℕ → ℕ → List Block → List Block
emplace_back o l blocks = blocks ++ block o l ∷ []

-- What `claim_from_block` leaves in the place of the block at the iterator. The iterator ends on the
-- last of these blocks, or before the place if there is none.
unfoldable pub claim_from_block : Block → ℕ → ℕ → List Block
unfolding emplace erase
claim_from_block b offset size =
    let length : ℕ = sub32 b.length (add32 size offset) in
    if length == 0
    then (if ltb 0 offset then record b { length = offset } ∷ [] else erase (b ∷ []))
    else if ltb 0 offset
    then emplace b.offset offset (block (add32 b.offset (add32 size offset)) length ∷ [])
    else block (add32 b.offset (add32 size offset)) length ∷ []

-- The claim of a loop round of `physical_memory_reserve`, with `address` and `size` clipped to the
-- block: the blocks in its place, and the address and the size that are left.
pub record Claimed : Type 0 where
  pub blocks : List Block
  pub address : ℕ
  pub size : ℕ

pub claim_round : Block → ℕ → ℕ → Claimed
unfolding claim_from_block
claim_round b address size =
    let available : ℕ = sub32 b.length (sub32 address b.offset) in
    let claimed : ℕ = if ltb available size then available else size in
    let padding : ℕ = sub32 address b.offset in
    if leb (add32 claimed padding) b.length
    then record {
      blocks = claim_from_block b padding claimed;
      address = add32 address claimed;
      size = sub32 size claimed;
    }
    else record { blocks = b ∷ []; address = address; size = size }

-- The round with the block's offset below the address or not.
pub reserve_round : Block → ℕ → ℕ → Claimed
unfolding claim_round
reserve_round b address size =
    if ltb address b.offset
    then claim_round b b.offset (sub32 size (sub32 b.offset address))
    else claim_round b address size

pub physical_memory_reserve : ℕ → ℕ → List Block → List Block
unfolding reserve_round
physical_memory_reserve address size [] = []
physical_memory_reserve address size (b ∷ rest) =
    let c : Claimed = reserve_round b address size in
    let later = c.blocks ++ physical_memory_reserve c.address c.size rest in
    if ltb (add32 address size) b.offset
    then b ∷ rest
    else if c.size == 0
    then c.blocks ++ rest
    else later

-- The branch of `physical_memory_free` with an adjacent block before: the following block is merged
-- if it is adjacent too.
pub extend_block : ℕ → ℕ → Block → List Block → List Block
unfolding erase
extend_block address size b [] = record b { length = add32 b.length size } ∷ []
extend_block address size b (next ∷ rest) =
    if next.offset == add32 address size
    then record b { length = add32 (add32 b.length size) next.length } ∷ erase (next ∷ rest)
    else record b { length = add32 b.length size } ∷ next ∷ rest

pub physical_memory_free : ℕ → ℕ → List Block → List Block
unfolding extend_block emplace emplace_back
physical_memory_free address size [] = emplace_back address size []
physical_memory_free address size (b ∷ rest) =
    let later = b ∷ physical_memory_free address size rest in
    if ltb (add32 b.offset b.length) address
    then later
    else if add32 b.offset b.length == address
    then extend_block address size b rest
    else if b.offset == add32 address size
    then block address (add32 b.length size) ∷ rest
    else if ltb address (add32 b.offset b.length)
    then emplace address size (b ∷ rest)
    else later

-- What an allocation returns, and the map that it leaves.
pub record Allocation : Type 0 where
  pub address : ℕ
  pub blocks : List Block

abbrev pub behind : Block → Allocation → Allocation
behind b a = record a { blocks = b ∷ a.blocks }

unfoldable pub physical_memory_allocate : ℕ → ℕ → List Block → Allocation
unfolding align_addr claim_from_block
physical_memory_allocate size align [] = record { address = 0; blocks = [] }
physical_memory_allocate size align (b ∷ rest) =
    let aligned : ℕ = align_addr b.offset align in
    let padding : ℕ = sub32 aligned b.offset in
    let later = behind b (physical_memory_allocate size align rest) in
    if leb (add32 size padding) b.length
    then record { address = aligned; blocks = claim_from_block b padding size ++ rest }
    else later

pub physical_memory_allocate_in_range : ℕ → ℕ → ℕ → ℕ → List Block → Allocation
unfolding align_addr claim_from_block
physical_memory_allocate_in_range start end size align [] = record { address = 0; blocks = [] }
physical_memory_allocate_in_range start end size align (b ∷ rest) =
    let low : Bool = ltb (align_addr b.offset align) start in
    let aligned : ℕ = if low then align_addr start align else align_addr b.offset align in
    let padding : ℕ = sub32 aligned b.offset in
    let later = behind b (physical_memory_allocate_in_range start end size align rest) in
    if low && ltb (add32 b.offset b.length) start
    then later
    else if ltb end (add32 aligned size)
    then record { address = 0; blocks = b ∷ rest }
    else if leb (add32 size padding) b.length
    then record { address = aligned; blocks = claim_from_block b padding size ++ rest }
    else later

pub physical_num_bytes_free : List Block → ℕ
physical_num_bytes_free [] = 0
physical_num_bytes_free (b ∷ rest) = add32 b.length (physical_num_bytes_free rest)

-- `boot_information`, as far as `physical_memory_init` reads it.
pub record BootInformation : Type 0 where
  pub kernel_location : ℕ
  pub kernel_size : ℕ
  pub ramdisk_location : ℕ
  pub ramdisk_size : ℕ

pub physical_memory_init : BootInformation → List Block → List Block
physical_memory_init boot memory =
    let low : List Block = physical_memory_reserve 0x0 0x500 memory in
    let area : List Block = physical_memory_reserve 0x7000 0x200 low in
    let kernel : List Block = physical_memory_reserve boot.kernel_location boot.kernel_size area in
    physical_memory_reserve boot.ramdisk_location boot.ramdisk_size kernel
