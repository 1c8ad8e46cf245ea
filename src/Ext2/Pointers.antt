-- ===== src/Ext2/Pointers.antt =====
-- drivers/formats/ext2.cpp: `get_block_n` and `set_block_n`.
use jsd_os.Prelude.{
  ℕ, ◌-◌, ◌*◌, ◌%◌, ◌<◌, ◌≡◌, ◌≢◌, refl, ap, sym, ◌∙◌, ◌==◌, ltb, bit_and, if◌then◌else◌, subst,
  Bool, true, false, arith,
}
use jsd_os.Prelude.Words.{word, ◌>>>◌}
use jsd_os.Ext2.{Ext2Fs, Inode, ndir_blocks, address, read32, write32, get_block_n, set_block_n}
use jsd_os.Ext2.Words.{load, store, words_apart, load-store, load-store_other, address_aligned}

-- Where the pointer to a block of a file is kept.
pub data Slot : Type 0 where
  in_inode : ℕ → Slot
  on_disk : ℕ → Slot

-- The table that holds the pointer, as a path of positions from a block of the inode on.
pub data Path3 : Type 0 where
  direct : ℕ → Path3
  single : ℕ → Path3
  double : ℕ → ℕ → Path3
  triple : ℕ → ℕ → ℕ → Path3

-- The positions of block `n`.
unfoldable pub path_of : Ext2Fs → ℕ → Path3
path_of fs n =
    if ltb n ndir_blocks
    then direct n
    else let n1 : ℕ = n - ndir_blocks in
      if ltb n1 fs.ptrs_per_block
      then single n1
      else let n2 : ℕ = n1 - fs.ptrs_per_block in
        if ltb n2 fs.ptrs_per_ind_block
        then double (n2 >>> fs.ptrs_per_block_log2) (bit_and n2 (fs.ptrs_per_block - 1))
        else (let n3 : ℕ = n2 - fs.ptrs_per_ind_block in
            let nds : ℕ = n3 >>> fs.ptrs_per_block_log2 in
            triple (nds >>> fs.ptrs_per_block_log2) (bit_and nds (fs.ptrs_per_block - 1))
              (bit_and n3 (fs.ptrs_per_block - 1)))

unfoldable pub slot : Ext2Fs → Inode → Path3 → Slot
slot fs i (direct n) = in_inode n
slot fs i (single a) = on_disk (address fs (i.block 12) (a * 4))
slot fs i (double a b) =
    on_disk (address fs (load fs.disk (address fs (i.block 13) (a * 4))) (b * 4))
slot fs i (triple a b c) =
    let first : ℕ = load fs.disk (address fs (i.block 14) (a * 4)) in
    on_disk (address fs (load fs.disk (address fs first (b * 4))) (c * 4))

fetch : Ext2Fs → Inode → Slot → ℕ
fetch fs i (in_inode n) = i.block n
fetch fs i (on_disk a) = load fs.disk a

assign : Ext2Fs → Inode → Slot → ℕ → Inode × Ext2Fs
assign fs i (in_inode n) v = (record i { block = λ k. if k == n then v else i.block k }, fs)
assign fs i (on_disk a) v = (i, record fs { disk = store a v fs.disk })

get-fetch :
    (fs : Ext2Fs) (i : Inode) (n : ℕ) → get_block_n fs i n ≡ fetch fs i (slot fs i (path_of fs n))
unfolding get_block_n fetch slot path_of read32
get-fetch fs i n = ground arith

set-assign :
    (fs : Ext2Fs) (i : Inode) (n v : ℕ)
    → set_block_n fs i n v ≡ assign fs i (slot fs i (path_of fs n)) v
unfolding set_block_n assign slot path_of read32 write32
set-assign fs i n v = ground arith

-- A slot of the inode is one of the direct ones.
Small : Slot → Type 0
Small (in_inode n) = n < ndir_blocks
Small (on_disk a) = a % 4 ≡ 0

-- The positions of a block have a place in the inode only below the tables.
Within : Path3 → Type 0
Within (direct n) = n < ndir_blocks
Within (single a) = Unit {0}
Within (double a b) = Unit {0}
Within (triple a b c) = Unit {0}

if-Within :
    (b : Bool) (x y : Path3) → (b ≡ true → Within x) → Within y → Within (if b then x else y)
if-Within true x y hx hy = hx refl
if-Within false x y hx hy = hy

path_of-Within : (fs : Ext2Fs) (n : ℕ) → Within (path_of fs n)
unfolding path_of Within
path_of-Within fs n =
    if-Within (ltb n ndir_blocks) (direct n) _ (λ e. ground (arith, e))
      (if-Within (ltb (n - ndir_blocks) fs.ptrs_per_block) (single (n - ndir_blocks)) _ (λ e. tt)
        (if-Within (ltb (n - ndir_blocks - fs.ptrs_per_block) fs.ptrs_per_ind_block) (double _ _)
          (triple _ _ _) (λ e. tt) tt))

path-Small :
    (fs : Ext2Fs) (i : Inode) (p : Path3) → fs.block_size % 4 ≡ 0 → Within p → Small (slot fs i p)
unfolding Small slot Within
path-Small fs i (direct n) whole low = low
path-Small fs i (single a) whole low = address_aligned fs (i.block 12) a whole
path-Small fs i (double a b) whole low = address_aligned fs _ b whole
path-Small fs i (triple a b c) whole low = address_aligned fs _ c whole

slot-Small :
    (fs : Ext2Fs) (i : Inode) (n : ℕ) → fs.block_size % 4 ≡ 0 → Small (slot fs i (path_of fs n))
slot-Small fs i n whole = path-Small fs i (path_of fs n) whole (path_of-Within fs n)

-- A slot is none of the pointers to the tables on the way to a block.
unfoldable pub Clear : Ext2Fs → Inode → Slot → Path3 → Type 0
Clear fs i (in_inode n) p = Unit {0}
Clear fs i (on_disk s) (direct n) = Unit {0}
Clear fs i (on_disk s) (single a) = Unit {0}
Clear fs i (on_disk s) (double a b) = s ≢ address fs (i.block 13) (a * 4)
Clear fs i (on_disk s) (triple a b c) =
    (s ≢ address fs (i.block 14) (a * 4))
    × (s ≢ address fs (load fs.disk (address fs (i.block 14) (a * 4))) (b * 4))

module _ (fs : Ext2Fs) (i : Inode) (v : ℕ) (whole : fs.block_size % 4 ≡ 0) (small : v < word) where
  after : Slot → Inode × Ext2Fs
  unfolding assign
  after s = assign fs i s v

  other_word :
      (s block j : ℕ)
      → s % 4 ≡ 0
      → s ≢ address fs block (j * 4)
      → load (store s v fs.disk) (address fs block (j * 4))
        ≡ load fs.disk (address fs block (j * 4))
  other_word s block j aligned differ =
      load-store_other s v (address fs block (j * 4)) fs.disk
        (words_apart s (address fs block (j * 4)) aligned (address_aligned fs block j whole) differ)

  slot_stays :
      (s : Slot) (p : Path3)
      → Small s
      → Clear fs i s p
      → slot (after s).1 (after s).0 p ≡ slot fs i p
  unfolding after assign slot Small Clear
  slot_stays (in_inode k) (direct n) low clear = refl
  slot_stays (in_inode k) (single a) low clear = ground (arith, low)
  slot_stays (in_inode k) (double a b) low clear = ground (arith, low)
  slot_stays (in_inode k) (triple a b c) low clear = ground (arith, low)
  slot_stays (on_disk s) (direct n) aligned clear = refl
  slot_stays (on_disk s) (single a) aligned clear = refl
  slot_stays (on_disk s) (double a b) aligned clear =
      ap (λ x. on_disk (address fs x (b * 4))) (other_word s (i.block 13) a aligned clear)
  slot_stays (on_disk s) (triple a b c) aligned (clear, clear_second) =
      let first : ℕ = load fs.disk (address fs (i.block 14) (a * 4)) in
      ap (λ x. on_disk (address fs (load (store s v fs.disk) (address fs x (b * 4))) (c * 4)))
        (other_word s (i.block 14) a aligned clear)
      ∙ ap (λ x. on_disk (address fs x (c * 4))) (other_word s first b aligned clear_second)

  fetch_self : (s : Slot) → fetch (after s).1 (after s).0 s ≡ v
  unfolding after assign fetch
  fetch_self (in_inode k) = ground arith
  fetch_self (on_disk a) = load-store a v fs.disk small

  fetch_other :
      (s t : Slot) → Small s → Small t → s ≢ t → fetch (after s).1 (after s).0 t ≡ fetch fs i t
  unfolding after assign fetch Small
  fetch_other (in_inode k) (in_inode l) hs ht differ =
      let n : l ≢ k = λ e. differ (ap in_inode (sym e)) in ground (arith, n)
  fetch_other (in_inode k) (on_disk b) hs ht differ = refl
  fetch_other (on_disk a) (in_inode l) hs ht differ = refl
  fetch_other (on_disk a) (on_disk b) hs ht differ =
      load-store_other a v b fs.disk (words_apart a b hs ht (λ e. differ (ap on_disk e)))

  same_path : (s : Slot) (n : ℕ) → path_of (after s).1 n ≡ path_of fs n
  unfolding after assign path_of
  same_path (in_inode k) n = refl
  same_path (on_disk a) n = refl

-- After `set_block_n` at `n`, `get_block_n` gives the new block wherever the pointer is kept in the same
-- place as that of `n`, and the old block everywhere else, where the block size is a multiple of four,
-- the block is a 32-bit number, and the place is no pointer to a table on the way.
pub set_block_n-get_block_n :
    (fs : Ext2Fs) (i : Inode) (n m v : ℕ)
    → fs.block_size % 4 ≡ 0
    → v < word
    → Clear fs i (slot fs i (path_of fs n)) (path_of fs m)
    → let r = set_block_n fs i n v in
      (slot fs i (path_of fs n) ≡ slot fs i (path_of fs m) → get_block_n r.1 r.0 m ≡ v)
      × (slot fs i (path_of fs n) ≢ slot fs i (path_of fs m)
          → get_block_n r.1 r.0 m ≡ get_block_n fs i m)
unfolding after
set_block_n-get_block_n fs i n m v whole small clear =
    let s : Slot = slot fs i (path_of fs n) in
    let t : Slot = slot fs i (path_of fs m) in
    let r : Inode × Ext2Fs = after fs i v whole small s in
    let here : get_block_n r.1 r.0 m ≡ fetch r.1 r.0 t =
      get-fetch r.1 r.0 m
      ∙ ap (λ p. fetch r.1 r.0 (slot r.1 r.0 p)) (same_path fs i v whole small s m)
      ∙ ap (fetch r.1 r.0)
          (slot_stays fs i v whole small s (path_of fs m) (slot-Small fs i n whole) clear) in
    subst
      (λ x.
        (s ≡ t → get_block_n x.1 x.0 m ≡ v) × (s ≢ t → get_block_n x.1 x.0 m ≡ get_block_n fs i m))
      (sym (set-assign fs i n v))
      (
        (λ e. here ∙ ap (fetch r.1 r.0) (sym e) ∙ fetch_self fs i v whole small s),
        (λ d.
            here
            ∙ fetch_other fs i v whole small s t (slot-Small fs i n whole) (slot-Small fs i m whole)
                d
            ∙ sym (get-fetch fs i m)),
      )
