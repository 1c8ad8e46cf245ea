-- ===== src/Paging/Lazy/Faults.antt =====
-- kernel/memorymanager.cpp: `memmanager_handle_page_fault`.
use jsd_os.Prelude.{
  ℕ, ◌+◌, ◌*◌, ◌/◌, ◌%◌, ◌≤◌, ◌<◌, ◌≡◌, ◌⊎◌, inl, inr, refl, ap, sym, ◌∙◌, bit_and, bit_or, Bool,
  true, false, ◌==◌, Option, some, Bool-cases, if◌then◌else◌, subst, arith,
}
use jsd_os.Prelude.Words.{word}
use jsd_os.Prelude.Bits.{bit_and_high}
use jsd_os.Physical.{Allocation, physical_memory_allocate}
use jsd_os.Physical.Regions.{Ordered}
use jsd_os.Physical.Allocate.{Taken, NoneFits, allocate-Outcome}
use jsd_os.Paging.{
  AddressSpace, page_table, has, page_size, page_present, page_rw, page_reserved,
  page_map_on_access, page_address_mask, get_page_dir_index, get_page_tbl_index,
  memmanager_get_pt_entry, memmanager_update_pt,
}
use jsd_os.Paging.Entries.{
  or_rw, bit_or_below, or_present_rw, kept_flags, page_value, or_present_small,
}
use jsd_os.Paging.Separate.{page-IsPowerOfTwo}
use jsd_os.Paging.Mapping.{
  HasTable, OwnTables, update-OwnTables, Kept, Mapped, update-Mapped, Mapped-after, update-Kept,
  update-HasTable, entry-there,
}
use jsd_os.Paging.Lazy.{map_zeroed, memmanager_handle_page_fault}

-- A page that waits for its first access.
pub record Waiting (v : ℕ) (s : AddressSpace) : Type 0 where
  pub table : HasTable v s
  pub on_access : has (memmanager_get_pt_entry v s) page_map_on_access ≡ true
  pub reserved : has (memmanager_get_pt_entry v s) page_reserved ≡ true
  pub not_present : has (memmanager_get_pt_entry v s) page_present ≡ false

page-update :
    (v e : ℕ)
    → (s : AddressSpace) → v < word
    → memmanager_update_pt (bit_and v page_address_mask) e s ≡ memmanager_update_pt v e s
unfolding memmanager_update_pt
page-update v e s small =
    let page : bit_and v page_address_mask ≡ v / 0x1000 * 0x1000 = bit_and_high 20 12 v small in
    let pd : get_page_dir_index (v / 0x1000 * 0x1000) ≡ get_page_dir_index v = omega arith in
    let pt : get_page_tbl_index (v / 0x1000 * 0x1000) ≡ get_page_tbl_index v =
      ap (λ x. bit_and x 0x3ff) {x = v / 0x1000 * 0x1000 / 0x1000} {y = v / 0x1000} (omega arith) in
    rw (page, pd, pt) refl

module _ (v physical flags : ℕ) (s : AddressSpace) (small : v < word) (p_small : physical < word)
    (aligned : physical % 0x1000 ≡ 0) (low : flags < 0x400) (own : OwnTables s)
    (there : HasTable v s) where
  value : ℕ
  value = bit_or (bit_or physical flags) page_present

  zeroed : AddressSpace
  unfolding value
  zeroed = memmanager_update_pt (bit_and v page_address_mask) (bit_or value page_rw) s

  writable : has flags page_rw ≡ true → map_zeroed v physical flags s ≡ zeroed
  unfolding map_zeroed zeroed value
  writable set =
      ap
        (λ b. if b then zeroed else memmanager_update_pt (bit_and v page_address_mask) value zeroed)
        set

  not_writable :
      has flags page_rw ≡ false
      → map_zeroed v physical flags s
        ≡ memmanager_update_pt (bit_and v page_address_mask) value zeroed
  unfolding map_zeroed zeroed value
  not_writable clear =
      ap
        (λ b. if b then zeroed else memmanager_update_pt (bit_and v page_address_mask) value zeroed)
        clear

  zeroed-eq : zeroed ≡ memmanager_update_pt v (bit_or value page_rw) s
  unfolding zeroed
  zeroed-eq = page-update v (bit_or value page_rw) s small

  value-eq : value ≡ physical / 0x1000 * 0x1000 + bit_or flags page_present
  unfolding value
  value-eq = page_value physical flags aligned low ∙ omega (arith, aligned)

  value_rw : has flags page_rw ≡ true → bit_or value page_rw ≡ value
  unfolding value
  value_rw set =
      let low_flags : ℕ = bit_or flags page_present in
      ap (λ x. bit_or x page_rw) value-eq
      ∙ bit_or_below 12 (physical / 0x1000) low_flags page_rw (or_present_small flags low)
          (omega arith)
      ∙ ap (λ x. physical / 0x1000 * 0x1000 + x) (or_rw low_flags (or_present_rw flags set))
      ∙ sym value-eq

  pub map_zeroed-Mapped :
      Mapped v physical (bit_or flags page_present) s (map_zeroed v physical flags s)
  map_zeroed-Mapped = elim (Bool-cases (has flags page_rw)) [
    | inl set ↦
        subst (Mapped v physical (bit_or flags page_present) s) (sym (writable set ∙ zeroed-eq)) (
          update-Mapped v physical (bit_or flags page_present) (bit_or value page_rw) s small
            p_small (or_present_small flags low) own there (value_rw set ∙ value-eq))
    | inr clear ↦
        let once = memmanager_update_pt v (bit_or value page_rw) s in
        subst (Mapped v physical (bit_or flags page_present) s)
          (sym (
            not_writable clear
            ∙ ap (memmanager_update_pt (bit_and v page_address_mask) value) zeroed-eq
            ∙ page-update v value once small))
          (Mapped-after v physical (bit_or flags page_present) s once _
            (update-Kept v (bit_or value page_rw) s small own there)
            (update-Mapped v physical (bit_or flags page_present) value once small p_small
              (or_present_small flags low) (update-OwnTables v (bit_or value page_rw) s own)
              (update-HasTable v v (bit_or value page_rw) s there) value-eq))
  ]

-- What a fault on a page that waits for its first access comes to.
pub FaultOutcome : ℕ → AddressSpace → Option (Bool × AddressSpace) → Type 0
FaultOutcome v s r =
    let a : Allocation = physical_memory_allocate page_size page_size s.physical in
    ((t : AddressSpace) × (r ≡ some (true, t))
      × Mapped v a.address (bit_or (memmanager_get_pt_entry v s % 0x400) page_present) s t
      × (t.physical ≡ a.blocks)
      × Taken page_size s.physical a)
    ⊎ (r ≡ some (false, s)) × NoneFits page_size page_size s.physical

-- The state with the frame taken, which has the same entries.
taken : AddressSpace → AddressSpace
taken s = record s { physical = (physical_memory_allocate page_size page_size s.physical).blocks }

taken-Kept : (s : AddressSpace) → Kept (λ _. Unit) s (taken s)
unfolding taken memmanager_get_pt_entry
taken-Kept s w small u there = (there, refl)

module _ (err v : ℕ) (s : AddressSpace) (small : v < word) (absent : has err page_present ≡ false)
    (waiting : Waiting v s) where
  fault_lem : memmanager_handle_page_fault err v s ≡ (
      let a : Allocation = physical_memory_allocate page_size page_size s.physical in
      if a.address == 0
      then some (false, taken s)
      else some (true, map_zeroed v a.address (memmanager_get_pt_entry v s % 0x400) (taken s)))
  unfolding memmanager_handle_page_fault taken
  fault_lem =
      let raw : ℕ = page_table (get_page_dir_index v) s (get_page_tbl_index v) in
      let entry = entry-there v s waiting.table in
      let on_access = ap (λ e. has e page_map_on_access) (sym entry) ∙ waiting.on_access in
      let reserved = ap (λ e. has e page_reserved) (sym entry) ∙ waiting.reserved in
      let not_present = ap (λ e. has e page_present) (sym entry) ∙ waiting.not_present in
      rw (absent, waiting.table, on_access, reserved, not_present, kept_flags raw, entry) refl

map_zeroed-physical :
    (v p flags : ℕ) → (s : AddressSpace) → (map_zeroed v p flags s).physical ≡ s.physical
unfolding map_zeroed memmanager_update_pt
map_zeroed-physical v p flags s = ground arith

-- A fault on a page that waits for its first access takes a frame that was free, maps the page to it,
-- present and with its other flags kept, and changes no other page's entry; or no free block has room for
-- a frame, and then nothing changes and the fault is not handled. The fault is of a page that is not
-- present, no two tables share a frame, and the free blocks are in order, above address 0 and below the
-- last page.
pub page_fault-FaultOutcome :
    (top lo err v : ℕ)
    → (s : AddressSpace) → top + page_size ≤ word
    → 0 < lo
    → Ordered top lo s.physical
    → OwnTables s
    → v < word
    → has err page_present ≡ false
    → Waiting v s
    → FaultOutcome v s (memmanager_handle_page_fault err v s)
unfolding FaultOutcome taken
page_fault-FaultOutcome top lo err v s bounded positive order own small absent waiting =
    let a : Allocation = physical_memory_allocate page_size page_size s.physical in
    let flags : ℕ = memmanager_get_pt_entry v s % 0x400 in
    let t : AddressSpace = taken s in
    let lemma = fault_lem err v s small absent waiting in
    let (_, outcome) =
      allocate-Outcome top page_size page_size page-IsPowerOfTwo bounded (omega arith) lo s.physical
        order in
    elim outcome [
      | inl (aligned, low, high, had) ↦
          let got : (a.address == 0) ≡ false = ground (arith, low, positive) in
          let (there, _) = taken-Kept s v small tt waiting.table in
          inl (
            map_zeroed v a.address flags t,
            lemma
                ∙ ap
                    (λ b.
                      if b then some (false, t) else some (true, map_zeroed v a.address flags t))
                    got,
            Mapped-after v a.address (bit_or flags page_present) s t _
                (λ w w_small other old. taken-Kept s w w_small tt old)
                (map_zeroed-Mapped v a.address flags t small (omega (arith, high, bounded)) aligned
                  (omega arith) own there),
            map_zeroed-physical v a.address flags t,
            had,
          )
      | inr (zero_address, same, none_fits) ↦ inr (
        lemma
            ∙ ap
                (λ x.
                  if x == 0 then some (false, t) else some (true, map_zeroed v a.address flags t))
                zero_address
            ∙ ap (λ m. some (false, record s { physical = m })) same,
        none_fits,
      )
    ]
