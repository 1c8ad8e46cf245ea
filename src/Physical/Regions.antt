-- ===== src/Physical/Regions.antt =====
-- kernel/physical_manager.cpp: the memory map seen as a set of addresses, and its shape.
use jsd_os.Prelude.{
  ℕ, ◌+◌, ◌≤◌, ◌<◌, ◌≡◌, refl, ◌⊎◌, Bool, false, List, [], ◌∷◌, ◌++◌, arith, ltb, leb, ◌&&◌, ◌||◌,
}
use jsd_os.Physical.{Block}

-- Is `a` in the `size` bytes from `address` on?
abbrev pub within : ℕ → ℕ → ℕ → Bool
within a address size = leb address a && ltb a (address + size)

-- Is `a` an address that the map has free?
abbrev pub free_at : ℕ → List Block → Bool
free_at a [] = false
free_at a (b ∷ rest) = within a b.offset b.length || free_at a rest

-- The blocks hold at least a byte each, rise without overlap from `lo` on, and end by `top`.
abbrev pub Ordered : ℕ → ℕ → List Block → Type 0
Ordered top lo [] = Unit {0}
Ordered top lo (b ∷ rest) =
    (lo ≤ b.offset)
    × (0 < b.length)
    × (b.offset + b.length ≤ top)
    × Ordered top (b.offset + b.length) rest

-- No block of the map has a byte in the `size` bytes from `address` on.
abbrev pub Apart : ℕ → ℕ → List Block → Type 0
Apart address size [] = Unit {0}
Apart address size (b ∷ rest) =
    ((b.offset + b.length ≤ address) ⊎ (address + size ≤ b.offset)) × Apart address size rest

-- The bytes that the blocks hold, added up without a bound.
abbrev pub total : List Block → ℕ
total [] = 0
total (b ∷ rest) = b.length + total rest

pub Ordered-weaken :
    (top : ℕ) (lo lo' : ℕ) (m : List Block) → lo' ≤ lo → Ordered top lo m → Ordered top lo' m
Ordered-weaken top lo lo' [] h o = tt
Ordered-weaken top lo lo' (b ∷ rest) h o = (omega arith, o.1, o.2, o.3)

-- Nothing below the first block is free.
pub free_at_below :
    (top a lo : ℕ) (m : List Block) → Ordered top lo m → a < lo → free_at a m ≡ false
free_at_below top a lo [] o h = refl
free_at_below top a lo (b ∷ rest) o h =
    ground (arith, free_at_below top a (b.offset + b.length) rest o.3)

pub free_at-append : (a : ℕ) (m n : List Block) → free_at a (m ++ n) ≡ free_at a m || free_at a n
free_at-append a [] n = refl
free_at-append a (b ∷ rest) n = ground (arith, free_at-append a rest n)

-- Blocks up to `mid`, and blocks from `mid` on, are in order together.
pub Ordered-append :
    (top : ℕ) (lo mid : ℕ) (m n : List Block)
    → Ordered mid lo m
    → lo ≤ mid
    → mid ≤ top
    → Ordered top mid n
    → Ordered top lo (m ++ n)
Ordered-append top lo mid [] n o h k p = Ordered-weaken top mid lo n h p
Ordered-append top lo mid (b ∷ rest) n o h k p =
    (o.0, o.1, omega arith, Ordered-append top (b.offset + b.length) mid rest n o.3 o.2 k p)

pub total-le : (top lo : ℕ) (m : List Block) → Ordered top lo m → lo ≤ top → total m + lo ≤ top
total-le top lo [] o h = omega arith
total-le top lo (b ∷ rest) o h = omega (arith, total-le top (b.offset + b.length) rest o.3 o.2)

pub total-append : (m n : List Block) → total (m ++ n) ≡ total m + total n
total-append [] n = omega arith
total-append (b ∷ rest) n = omega (arith, total-append rest n)
