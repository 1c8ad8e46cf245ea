-- ===== src/Physical/Examples.antt =====
-- The memory map of a small machine, and each theorem at it.
use jsd_os.Prelude.{
  ℕ, ◌+◌, ◌%◌, ◌≤◌, ◌<◌, ◌≡◌, inl, inr, refl, List, [], ◌∷◌, arith, not, ◌&&◌, ◌||◌,
}
use jsd_os.Prelude.Words.{add32, sub32}
use jsd_os.Physical.{
  Block, block, Allocation, BootInformation, align_addr, physical_memory_reserve,
  physical_memory_free, physical_memory_allocate, physical_memory_allocate_in_range,
  physical_memory_init,
}
use jsd_os.Physical.Regions.{within, free_at, Ordered, Apart, total}
use jsd_os.Physical.Align.{IsPowerOfTwo, align_addr_lem}
use jsd_os.Physical.Allocate.{Outcome, allocate-Outcome}
use jsd_os.Physical.InRange.{RangeOutcome, allocate_in_range-RangeOutcome}
use jsd_os.Physical.Reserve.{reserve_lem}
use jsd_os.Physical.Free.{free_lem}
use jsd_os.Physical.Accounting.{free_at-init}

-- Conventional memory and some above the first megabyte.
abbrev pub memory : List Block
memory = block 0x1000 0x9e000 ∷ block 0x100000 0x700000 ∷ []

abbrev pub top : ℕ
top = 0x800000

memory-Ordered : Ordered top 0x1000 memory
memory-Ordered = omega arith

page-IsPowerOfTwo : IsPowerOfTwo 0x1000
page-IsPowerOfTwo = record { above = 19; log2 = 12; width = refl; is_pow = refl }

takes_pages :
    physical_memory_allocate 0x2800 0x1000 (block 0x10 0x20 ∷ block 0x1010 0x5000 ∷ []) ≡ record {
      address = 0x2000;
      blocks = block 0x10 0x20 ∷ block 0x1010 0xff0 ∷ block 0x4800 0x1810 ∷ [];
    }
unfolding physical_memory_allocate add32 sub32
takes_pages = refl

reserve_runs :
    physical_memory_reserve 0x2000 0xff000 memory
    ≡ block 0x1000 0x1000 ∷ block 0x101000 0x6ff000 ∷ []
unfolding physical_memory_reserve add32 sub32
reserve_runs = refl

align_addr_lem_example :
    (0x1234 ≤ align_addr 0x1234 0x1000)
    × (align_addr 0x1234 0x1000 < 0x2234)
    × (align_addr 0x1234 0x1000 % 0x1000 ≡ 0)
align_addr_lem_example = align_addr_lem 0x1234 page-IsPowerOfTwo (omega arith)

allocate-Outcome_example :
    Outcome top 0x1000 0x100000 0x1000 memory (physical_memory_allocate 0x100000 0x1000 memory)
allocate-Outcome_example =
    allocate-Outcome top 0x100000 0x1000 page-IsPowerOfTwo (omega arith) (omega arith) 0x1000 memory
      memory-Ordered

allocate_in_range-RangeOutcome_example :
    RangeOutcome top 0x1000 0x200000 0x300000 0x4000 0x1000 memory
      (physical_memory_allocate_in_range 0x200000 0x300000 0x4000 0x1000 memory)
allocate_in_range-RangeOutcome_example =
    allocate_in_range-RangeOutcome top 0x200000 0x300000 0x4000 0x1000 page-IsPowerOfTwo
      (omega arith) (omega arith) 0x1000 memory memory-Ordered

reserve_lem_example :
    Ordered top 0x1000 (physical_memory_reserve 0x2000 0xff000 memory)
    × ((a : ℕ)
        → free_at a (physical_memory_reserve 0x2000 0xff000 memory)
          ≡ (free_at a memory && not (within a 0x2000 0xff000)))
reserve_lem_example =
    reserve_lem top (omega arith) 0x2000 0xff000 0x1000 memory (omega arith) memory-Ordered

gap-Apart : Apart 0x9f000 0x1000 memory
gap-Apart = (inl (omega arith), (inr (omega arith), tt))

free_lem_example :
    Ordered top 0x1000 (physical_memory_free 0x9f000 0x1000 memory)
    × ((a : ℕ)
        → free_at a (physical_memory_free 0x9f000 0x1000 memory)
          ≡ (free_at a memory || within a 0x9f000 0x1000))
    × (total (physical_memory_free 0x9f000 0x1000 memory) ≡ total memory + 0x1000)
free_lem_example =
    free_lem top 0x9f000 0x1000 (omega arith) (omega arith) 0x1000 memory (omega arith)
      (omega arith) memory-Ordered gap-Apart

abbrev taken : Allocation
taken = physical_memory_allocate 0x2000 0x1000 memory

abbrev boot : BootInformation
boot = record {
  kernel_location = 0x8000;
  kernel_size = 0x20000;
  ramdisk_location = 0x200000;
  ramdisk_size = 0x40000;
}

free_at-init_example : free_at 0x9000 (physical_memory_init boot memory) ≡ (
    free_at 0x9000 memory
    && not (within 0x9000 0x0 0x500)
    && not (within 0x9000 0x7000 0x200)
    && not (within 0x9000 0x8000 0x20000)
    && not (within 0x9000 0x200000 0x40000))
free_at-init_example =
    free_at-init boot top 0x1000 0x9000 memory (omega arith) (omega arith) (omega arith)
      memory-Ordered
