-- ===== src/Ext2/Groups.antt =====
-- drivers/formats/ext2.cpp: `allocate_block`.
use jsd_os.Prelude.{
  bytes_at, ℕ, ◌+◌, ◌-◌, ◌*◌, ◌≤◌, ◌<◌, ◌≡◌, ◌⊎◌, inl, inr, refl, ap, sym, ◌∙◌, Bool, true, false,
  ◌||◌, Option, none, some, List, [], ◌∷◌, ◌++◌, ◌==◌, if◌then◌else◌, length, subst, arith,
}
use jsd_os.Prelude.Words.{add32, mul32, sub32}
use jsd_os.Ext2.{
  Ext2Fs, BlockGroup, address, put_bytes, read, write, find_free_and_mark, allocate_in_groups,
  allocate_block,
}
use jsd_os.Ext2.Bitmap.{is_set, Search, full, marks, find_free_and_mark-Search}
use jsd_os.Ext2.Bytes.{length-bytes_at, put_bytes_below, bytes_at-put_bytes, put_bytes_above}

-- The bitmap of a group on the partition.
abbrev pub bitmap_of : Ext2Fs → (ℕ → ℕ) → BlockGroup → List ℕ
bitmap_of fs disk b = bytes_at fs.block_size (address fs b.block_bitmap 0) disk

-- A group in which no block is free, by its count or by its bitmap.
abbrev pub IsFull : Ext2Fs → BlockGroup → Type 0
IsFull fs b =
    (b.free_blocks_count ≡ 0)
    ⊎ ((j : ℕ) → j < fs.blocks_per_group → is_set (bitmap_of fs fs.disk b) j ≡ true)

abbrev pub AllFull : Ext2Fs → List BlockGroup → Type 0
AllFull fs [] = Unit {0}
AllFull fs (b ∷ rest) = IsFull fs b × AllFull fs rest

-- One block is taken from a group: its bit, and the partition after.
pub record Took (fs : Ext2Fs) (b : BlockGroup) (taken : ℕ) (disk : ℕ → ℕ) : Type 0 where
  pub in_group : taken < fs.blocks_per_group
  pub was_free : is_set (bitmap_of fs fs.disk b) taken ≡ false
  pub first : (j : ℕ) → j < taken → is_set (bitmap_of fs fs.disk b) j ≡ true
  pub bitmap :
      (j : ℕ) → is_set (bitmap_of fs disk b) j ≡ (j == taken || is_set (bitmap_of fs fs.disk b) j)
  pub others :
      (x : ℕ)
      → (x < address fs b.block_bitmap 0) ⊎ (address fs b.block_bitmap 0 + fs.block_size ≤ x)
      → disk x ≡ fs.disk x

-- What the search of the groups from number `i` on comes to.
pub data GroupSearch (fs : Ext2Fs) (i : ℕ) (groups : List BlockGroup)
    : Option (ℕ × List BlockGroup × (ℕ → ℕ)) → Type 0 where
  none_free : AllFull fs groups → GroupSearch fs i groups none
  took :
      (before rest : List BlockGroup) (b : BlockGroup) (taken : ℕ) (disk : ℕ → ℕ)
      → groups ≡ before ++ (b ∷ rest)
      → AllFull fs before
      → Took fs b taken disk
      → GroupSearch fs i groups (
          some (
            add32 taken (mul32 (i + length before) fs.blocks_per_group),
            before ++ (record b { free_blocks_count = b.free_blocks_count - 1 } ∷ rest),
            disk,
          ))

-- What an allocation comes to: no group has a free block and nothing changes, or the first group that has
-- one gives a block, numbered from the first block of group 0.
pub data BlockOutcome (fs : Ext2Fs) : ℕ × Ext2Fs → Type 0 where
  no_block : AllFull fs fs.blkgrps → BlockOutcome fs (0, fs)
  one_block :
      (before rest : List BlockGroup) (b : BlockGroup) (taken : ℕ) (disk : ℕ → ℕ)
      → fs.blkgrps ≡ before ++ (b ∷ rest)
      → AllFull fs before
      → Took fs b taken disk
      → BlockOutcome fs (
        add32 taken (mul32 (length before) fs.blocks_per_group),
        record fs {
          blkgrps = before ++ (record b { free_blocks_count = b.free_blocks_count - 1 } ∷ rest);
          disk = disk;
          free_blocks_count = sub32 fs.free_blocks_count 1;
        },
      )

behind :
    (fs : Ext2Fs) (i : ℕ) (b : BlockGroup) (rest : List BlockGroup)
    (r : Option (ℕ × List BlockGroup × (ℕ → ℕ)))
    → IsFull fs b
    → GroupSearch fs (i + 1) rest r
    → GroupSearch fs i
        (b ∷ rest)
        (elim r [ none ↦ none | some (block, groups, disk) ↦ some (block, b ∷ groups, disk) ])
behind fs i b rest _ is_full (none_free all) = none_free (is_full, all)
behind fs i b rest _ is_full (took before after c taken disk split all t) =
    subst
      (λ k. GroupSearch fs i (b ∷ rest) (
        some (
          add32 taken (mul32 k fs.blocks_per_group),
          b ∷ (before ++ (record c { free_blocks_count = c.free_blocks_count - 1 } ∷ after)),
          disk,
        )))
      {x = i + length (b ∷ before)} {y = i + 1 + length before} (omega arith)
      (took (b ∷ before) after c taken disk (ap (λ l. b ∷ l) split) (is_full, all) t)

if-GroupSearch :
    (fs : Ext2Fs) (i : ℕ) (groups : List BlockGroup) (test : Bool)
    (x y : Option (ℕ × List BlockGroup × (ℕ → ℕ)))
    → (test ≡ true → GroupSearch fs i groups x)
    → GroupSearch fs i groups y
    → GroupSearch fs i groups (if test then x else y)
if-GroupSearch fs i groups true x y hx hy = hx refl
if-GroupSearch fs i groups false x y hx hy = hy

module _ (fs : Ext2Fs) (room : fs.blocks_per_group ≤ 8 * fs.block_size) where
  -- The bitmap of a group with one more bit, on the partition.
  written-Took :
      (b : BlockGroup) (taken : ℕ) (bitmap : List ℕ)
      → taken < fs.blocks_per_group
      → is_set (bitmap_of fs fs.disk b) taken ≡ false
      → ((j : ℕ) → j < taken → is_set (bitmap_of fs fs.disk b) j ≡ true)
      → ((j : ℕ) → is_set bitmap j ≡ (j == taken || is_set (bitmap_of fs fs.disk b) j))
      → length bitmap ≡ length (bitmap_of fs fs.disk b)
      → Took fs b taken (write fs b.block_bitmap 0 bitmap).disk
  unfolding write
  written-Took b taken bitmap small clear first set_bit size =
      let a : ℕ = address fs b.block_bitmap 0 in
      let whole : length bitmap ≡ fs.block_size = size ∙ length-bytes_at fs.block_size a fs.disk in
      let back : bitmap_of fs (put_bytes a bitmap fs.disk) b ≡ bitmap =
        ap (λ n. bytes_at n a (put_bytes a bitmap fs.disk)) (sym whole)
        ∙ bytes_at-put_bytes bitmap a fs.disk in
      record {
        in_group = small;
        was_free = clear;
        first = first;
        bitmap = λ j. ap (λ l. is_set l j) back ∙ set_bit j;
        others = λ x out. elim out [
          | inl low ↦ put_bytes_below bitmap a x fs.disk low
          | inr high ↦ put_bytes_above bitmap a x fs.disk (omega (arith, high, whole))
        ];
      }

  -- A group by its bitmap, from what the groups behind it come to.
  by_bitmap :
      (i : ℕ) (b : BlockGroup) (rest : List BlockGroup)
      (later : Option (ℕ × List BlockGroup × (ℕ → ℕ))) (r : Option (ℕ × List ℕ))
      → (IsFull fs b → GroupSearch fs i (b ∷ rest) later)
      → Search (bitmap_of fs fs.disk b) fs.blocks_per_group r
      → GroupSearch fs i (b ∷ rest) (elim r [
        | none ↦ later
        | some (taken, bitmap) ↦ some (
          add32 taken (mul32 i fs.blocks_per_group),
          record b { free_blocks_count = b.free_blocks_count - 1 } ∷ rest,
          (write fs b.block_bitmap 0 bitmap).disk,
        )
      ])
  by_bitmap i b rest later _ go_on (full all) = go_on (inr all)
  by_bitmap i b rest later _ go_on (marks taken bitmap small clear first set_bit size) =
      subst
        (λ k. GroupSearch fs i (b ∷ rest) (
          some (
            add32 taken (mul32 k fs.blocks_per_group),
            record b { free_blocks_count = b.free_blocks_count - 1 } ∷ rest,
            (write fs b.block_bitmap 0 bitmap).disk,
          )))
        {x = i + 0} {y = i} (omega arith)
        (took [] rest b taken _ refl tt
          (written-Took b taken bitmap small clear first set_bit size))

  groups-GroupSearch :
      (i : ℕ) (groups : List BlockGroup) → GroupSearch fs i groups (allocate_in_groups fs i groups)
  unfolding allocate_in_groups read
  groups-GroupSearch i [] = none_free tt
  groups-GroupSearch i (b ∷ rest) =
      let go_on = λ (is_full : IsFull fs b).
        behind fs i b rest (allocate_in_groups fs (i + 1) rest) is_full
          (groups-GroupSearch (i + 1) rest) in
      let found : Option (ℕ × List ℕ) =
        find_free_and_mark (bitmap_of fs fs.disk b) fs.blocks_per_group in
      let searched = find_free_and_mark-Search (bitmap_of fs fs.disk b) fs.blocks_per_group (
        omega (arith, room, length-bytes_at fs.block_size (address fs b.block_bitmap 0) fs.disk)) in
      if-GroupSearch fs i (b ∷ rest) (b.free_blocks_count == 0) _ _
        (λ e. go_on (inl (ground (arith, e)))) (by_bitmap i b rest _ found go_on searched)

  finish :
      (r : Option (ℕ × List BlockGroup × (ℕ → ℕ)))
      → GroupSearch fs 0 fs.blkgrps r
      → BlockOutcome fs (elim r [
        | none ↦ (0, fs)
        | some (block, groups, disk) ↦ (
          block,
          record fs {
            blkgrps = groups;
            disk = disk;
            free_blocks_count = sub32 fs.free_blocks_count 1;
          },
        )
      ])
  finish _ (none_free all) = no_block all
  finish _ (took before rest b taken disk split all t) =
      subst
        (λ k. BlockOutcome fs (
          add32 taken (mul32 k fs.blocks_per_group),
          record fs {
            blkgrps = before ++ (record b { free_blocks_count = b.free_blocks_count - 1 } ∷ rest);
            disk = disk;
            free_blocks_count = sub32 fs.free_blocks_count 1;
          },
        ))
        {x = length before} {y = 0 + length before} (omega arith)
        (one_block before rest b taken disk split all t)

  -- `allocate_block` takes the first clear bit of the first group that has one, by its count and its
  -- bitmap: it returns that bit's number counted from group 0, sets that bit alone, changes no byte
  -- outside the bitmap, and lowers both counts; or no group has one, and it returns 0 and changes
  -- nothing. A block is to have room for a group's bitmap.
  pub allocate_block-BlockOutcome : BlockOutcome fs (allocate_block fs)
  unfolding allocate_block
  allocate_block-BlockOutcome =
      finish (allocate_in_groups fs 0 fs.blkgrps) (groups-GroupSearch 0 fs.blkgrps)
