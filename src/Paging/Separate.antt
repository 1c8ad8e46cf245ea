-- ===== src/Paging/Separate.antt =====
-- kernel/memorymanager.cpp: address spaces whose tables have frames of their own, and the frames that new
-- tables take from the free memory.
use jsd_os.Prelude.{
  ℕ, zero, suc, ◌+◌, ◌%◌, ◌≤◌, ◌<◌, ◌≡◌, ◌≢◌, inl, inr, refl, ap, sym, ◌∙◌, true, false, not,
  bit_and, ◌&&◌, List, ℕ_discrete, arith,
}
use jsd_os.Prelude.Words.{word}
use jsd_os.Physical.{Block, Allocation, physical_memory_allocate}
use jsd_os.Physical.Regions.{Ordered, free_at, within}
use jsd_os.Physical.Align.{IsPowerOfTwo}
use jsd_os.Physical.Allocate.{Taken, allocate-Outcome}
use jsd_os.Paging.{
  AddressSpace, has, without, page_present, page_size, table_frame, page_address_mask,
  memmanager_create_new_page_table, memmanager_update_pt,
}
use jsd_os.Paging.Entries.{new_table_frame, without_below}
use jsd_os.Paging.Mapping.{OwnTables}
use jsd_os.Paging.Creation.{Fresh, new_frame, created_other, created_frame}

-- The free blocks are in order, above address 0 and below the last page; no two entries of the directory
-- name one table, and the frame of no table is free.
pub record Separate (s : AddressSpace) : Type 0 where
  pub top : ℕ
  pub lo : ℕ
  pub bounded : top + page_size ≤ word
  pub positive : 0 < lo
  pub order : Ordered top lo s.physical
  pub own : OwnTables s
  pub in_use :
      (i : ℕ)
      → has (s.directory i) page_present ≡ true
      → free_at (table_frame i s) s.physical ≡ false

-- The free memory gives `n` frames.
abbrev pub Frames : ℕ → List Block → Type 0
Frames zero m = Unit {0}
Frames (suc n) m =
    let a : Allocation = physical_memory_allocate page_size page_size m in
    (a.address ≢ 0) × Frames n a.blocks

pub Frames-fewer : (n : ℕ) → (m : List Block) → Frames (suc n) m → Frames n m
Frames-fewer zero m f = tt
Frames-fewer (suc n) m (one, more) =
    (one, Frames-fewer n (physical_memory_allocate page_size page_size m).blocks more)

pub page-IsPowerOfTwo : IsPowerOfTwo page_size
page-IsPowerOfTwo = record { above = 19; log2 = 12; width = refl; is_pow = refl }

module _ (s : AddressSpace) (sep : Separate s)
    (one : (physical_memory_allocate page_size page_size s.physical).address ≢ 0) where
  abbrev frame : Allocation
  frame = physical_memory_allocate page_size page_size s.physical

  frame_lem :
      (frame.address % 0x1000 ≡ 0)
      × (frame.address < word)
      × Ordered sep.top sep.lo frame.blocks
      × Taken page_size s.physical frame
  frame_lem =
      let (order, outcome) =
        allocate-Outcome sep.top page_size page_size page-IsPowerOfTwo sep.bounded (omega arith)
          sep.lo s.physical sep.order in
      elim outcome [
        | inl (aligned, low, high, taken) ↦
            let bounded = sep.bounded in (aligned, omega (arith, high, bounded), order, taken)
        | inr (zero_address, same, none_fits) ↦ absurd (one zero_address)
      ]

  module _ (flags : ℕ) (low : flags < 0x1000) where
    frame-eq : new_frame flags s ≡ frame.address
    frame-eq =
        new_table_frame frame.address (without flags 0xc00) frame_lem.1 frame_lem.0
          (without_below flags 0xc00 low)

    was_free : free_at frame.address s.physical ≡ true
    was_free = frame_lem.3.was_free frame.address (ground arith)

    pub separate-Fresh : Fresh flags s
    separate-Fresh i present same =
        let e =
          sym (sep.in_use i present)
          ∙ ap (λ x. free_at x s.physical) (same ∙ frame-eq)
          ∙ was_free in
        cc

    module _ (pd : ℕ) (new : has (s.directory pd) page_present ≡ false) where
      abbrev made : AddressSpace
      made = memmanager_create_new_page_table pd flags s

      made_frame : table_frame pd made ≡ frame.address
      made_frame = created_frame pd flags s ∙ frame-eq

      old :
          (i : ℕ)
          → i ≢ pd
          → has (made.directory i) page_present ≡ true
          → has (s.directory i) page_present ≡ true
      old i other present =
          ap (λ e. has e page_present) (sym (created_other pd flags i s other)) ∙ present

      old_frame : (i : ℕ) → i ≢ pd → table_frame i made ≡ table_frame i s
      old_frame i other = ap (λ e. bit_and e page_address_mask) (created_other pd flags i s other)

      made-own : OwnTables made
      made-own i j pi pj same = elim (ℕ_discrete i pd) [
        | yes i_new ↦ elim (ℕ_discrete j pd) [
          | yes j_new ↦ i_new ∙ sym j_new
          | no j_old ↦ absurd (
              separate-Fresh j (old j j_old pj) (
                sym (old_frame j j_old)
                ∙ sym same
                ∙ ap (λ k. table_frame k made) i_new
                ∙ created_frame pd flags s))
        ]
        | no i_old ↦ elim (ℕ_discrete j pd) [
          | yes j_new ↦ absurd (
              separate-Fresh i (old i i_old pi) (
                sym (old_frame i i_old)
                ∙ same
                ∙ ap (λ k. table_frame k made) j_new
                ∙ created_frame pd flags s))
          | no j_old ↦
              sep.own i j (old i i_old pi) (old j j_old pj)
                (sym (old_frame i i_old) ∙ same ∙ old_frame j j_old)
        ]
      ]

      made-in_use :
          (i : ℕ)
          → has (made.directory i) page_present ≡ true
          → free_at (table_frame i made) frame.blocks ≡ false
      made-in_use i present = elim (ℕ_discrete i pd) [
        | yes i_new ↦
            ap (λ k. free_at (table_frame k made) frame.blocks) i_new
            ∙ ap (λ x. free_at x frame.blocks) made_frame
            ∙ frame_lem.3.leaves frame.address
            ∙ ground arith
        | no i_old ↦
            let before = sep.in_use i (old i i_old present) in
            ap (λ x. free_at x frame.blocks) (old_frame i i_old)
            ∙ frame_lem.3.leaves (table_frame i s)
            ∙ ap (λ b. b && not (within (table_frame i s) frame.address page_size)) before
      ]

      pub create-Separate : Separate made
      unfolding memmanager_create_new_page_table
      create-Separate = record {
        top = sep.top;
        lo = sep.lo;
        bounded = sep.bounded;
        positive = sep.positive;
        order = frame_lem.2;
        own = made-own;
        in_use = made-in_use;
      }

-- A write to an entry moves no table and takes no frame.
pub update-Separate :
    (v x : ℕ) (s : AddressSpace) → Separate s → Separate (memmanager_update_pt v x s)
unfolding memmanager_update_pt
update-Separate v x s sep = record {
  top = sep.top;
  lo = sep.lo;
  bounded = sep.bounded;
  positive = sep.positive;
  order = sep.order;
  own = sep.own;
  in_use = sep.in_use;
}
