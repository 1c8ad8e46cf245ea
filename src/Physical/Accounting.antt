-- ===== src/Physical/Accounting.antt =====
-- kernel/physical_manager.cpp: the count of free bytes, freeing what was allocated, and start-up.
use jsd_os.Prelude.{ℕ, ◌+◌, ◌≤◌, ◌<◌, ◌≡◌, ◌≢◌, inl, inr, refl, List, [], ◌∷◌, arith, not, ◌&&◌}
use jsd_os.Prelude.Words.{word, add32}
use jsd_os.Physical.{
  Block, BootInformation, physical_memory_allocate, physical_memory_reserve,
  physical_num_bytes_free, physical_memory_init,
}
use jsd_os.Physical.Regions.{within, free_at, Ordered, total, total-le}
use jsd_os.Physical.Align.{IsPowerOfTwo, pow-pos}
use jsd_os.Physical.Allocate.{allocate-Outcome}
use jsd_os.Physical.Reserve.{free_at-reserve, reserve-Ordered}

-- The sum of `physical_num_bytes_free` does not wrap.
pub num_bytes_free-eq :
    (top lo : ℕ) (m : List Block)
    → Ordered top lo m
    → lo ≤ top
    → top < word
    → physical_num_bytes_free m ≡ total m
unfolding physical_num_bytes_free add32
num_bytes_free-eq top lo [] o h k = refl
num_bytes_free-eq top lo (b ∷ rest) o h k = omega (
  arith,
  total-le top lo (b ∷ rest) o h,
  num_bytes_free-eq top (b.offset + b.length) rest o.3 o.2 k,
)

module _ (top lo size align : ℕ) (m : List Block) (p : IsPowerOfTwo align)
    (bounded : top + align ≤ word) (small : size + align ≤ word) (some_bytes : 0 < size)
    (o : Ordered top lo m) where
  -- A successful allocation lowers the count of free bytes by its size.
  pub num_bytes_free-allocate :
      lo ≤ top
      → let r = physical_memory_allocate size align m in
        r.address ≢ 0 → physical_num_bytes_free r.blocks + size ≡ physical_num_bytes_free m
  num_bytes_free-allocate h ne =
      let (order, outcome) = allocate-Outcome top size align p bounded small lo m o in
      elim outcome [
        | inl (aligned, low, high, t) ↦ omega (
          arith,
          t.counts,
          num_bytes_free-eq top lo m o h (omega (arith, pow-pos p)),
          num_bytes_free-eq top lo (physical_memory_allocate size align m).blocks order h
              (omega (arith, pow-pos p)),
        )
        | inr (zero, same, none) ↦ absurd (ne zero)
      ]

-- Start-up takes exactly its four regions out of the free memory, where the kernel and the ramdisk do not
-- wrap.
pub free_at-init :
    (boot : BootInformation) (top lo a : ℕ) (m : List Block)
    → boot.kernel_location + boot.kernel_size < word
    → boot.ramdisk_location + boot.ramdisk_size < word
    → top < word
    → Ordered top lo m
    → free_at a (physical_memory_init boot m) ≡ (
        free_at a m
        && not (within a 0x0 0x500)
        && not (within a 0x7000 0x200)
        && not (within a boot.kernel_location boot.kernel_size)
        && not (within a boot.ramdisk_location boot.ramdisk_size))
unfolding physical_memory_init
free_at-init boot top lo a m hk hr bounded o =
    let low : List Block = physical_memory_reserve 0x0 0x500 m in
    let o1 = reserve-Ordered top bounded 0x0 0x500 lo m (omega arith) o in
    let area : List Block = physical_memory_reserve 0x7000 0x200 low in
    let o2 = reserve-Ordered top bounded 0x7000 0x200 lo low (omega arith) o1 in
    let kernel : List Block = physical_memory_reserve boot.kernel_location boot.kernel_size area in
    let o3 = reserve-Ordered top bounded boot.kernel_location boot.kernel_size lo area hk o2 in
    simp (
      free_at-reserve top bounded a boot.ramdisk_location boot.ramdisk_size lo kernel hr o3,
      free_at-reserve top bounded a boot.kernel_location boot.kernel_size lo area hk o2,
      free_at-reserve top bounded a 0x7000 0x200 lo low (omega arith) o1,
      free_at-reserve top bounded a 0x0 0x500 lo m (omega arith) o,
    )
