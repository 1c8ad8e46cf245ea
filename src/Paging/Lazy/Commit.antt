-- ===== src/Paging/Lazy/Commit.antt =====
-- kernel/memorymanager.cpp: `memmanager_virtual_alloc`.
use jsd_os.Prelude.{
  ℕ, zero, suc, ◌+◌, ◌-◌, ◌/◌, ◌%◌, ◌≤◌, ◌<◌, ◌≡◌, ◌≢◌, inl, inr, refl, ap, sym, ◌∙◌, bit_and,
  bit_or, Bool, true, false, ◌==◌, none, some, Bool-cases, if◌then◌else◌, subst, arith,
}
use jsd_os.Prelude.Words.{word, add32}
use jsd_os.Physical.{Allocation, physical_memory_allocate}
use jsd_os.Paging.{
  AddressSpace, has, page_size, page_present, page_reserved, page_allocated, page_flags_mask,
  page_address_mask, page_map_on_access, memmanager_map_page, memmanager_get_pt_entry,
}
use jsd_os.Paging.Entries.{
  kept_flags, lazy_flags, lazy_on_access, lazy_reserved, lazy_present, low_present,
  present_allocated, or_present,
}
use jsd_os.Paging.MapPage.{
  TableFits, map_page-Mapped, map_page-Separate, map_page-Frames, map_page-with_table,
  map_page_refuses, with_table, with_table-HasTable,
}
use jsd_os.Paging.Separate.{Separate, Frames}
use jsd_os.Paging.Mapping.{update_self, update-HasTable, Kept, HasTable}
use jsd_os.Paging.Range.{InRange, OutOfRange, Range, empty-Range, step-Range}
use jsd_os.Paging.Lazy.Faults.{Waiting}
use jsd_os.Paging.Lazy.{commit_present, commit_on_access, commit, memmanager_virtual_alloc}

-- One page of the loop is mapped, and so are the rest.
commit_on_access_step :
    (left v pf : ℕ)
    → (s t : AddressSpace) → commit_on_access (suc left) v pf s ≡ some t
    → ((memmanager_map_page v 0 pf s).0 ≡ true)
      × (commit_on_access left (add32 v page_size) pf (memmanager_map_page v 0 pf s).1 ≡ some t)
unfolding commit_on_access
commit_on_access_step left v pf s t done = ground (arith, done)

pub commit_on_access-Range :
    (n v pf : ℕ)
    → (s t : AddressSpace) → Separate s
    → Frames n s.physical
    → v < word
    → pf < 0x1000
    → v / 0x1000 + n ≤ 0x10_0000
    → commit_on_access n v pf s ≡ some t
    → Range v n (λ _. pf) s t
unfolding commit_on_access add32
commit_on_access-Range zero v pf s t sep enough v_small low fits done =
    subst (Range v 0 (λ _. pf) s) (let e : s ≡ t = cc in e) (empty-Range v (λ _. pf) s)
commit_on_access-Range (suc left) v pf s t sep enough v_small low fits done =
    let (mapped, rest_done) = commit_on_access_step left v pf s t done in
    let room : TableFits v s = inr (enough.0, tt) in
    let first = map_page-Mapped v 0 pf s sep low room mapped v_small (omega arith) in
    let rest =
      commit_on_access-Range left (add32 v page_size) pf (memmanager_map_page v 0 pf s).1 t
        (map_page-Separate v 0 pf s sep low room mapped) (map_page-Frames left v 0 pf s enough)
        (omega arith) low (omega (arith, fits, v_small)) rest_done in
    step-Range v 0 pf left (λ _. pf) s _ t v_small fits (omega arith) first rest

-- The request for pages at an address of the caller's.
module _ (v n flags : ℕ) (s : AddressSpace) (given : v ≢ 0)
    (aligned : has v page_flags_mask ≡ false) where
  virtual_alloc_lem : memmanager_virtual_alloc v n flags s ≡ commit v n (flags % 0x400) s
  unfolding memmanager_virtual_alloc
  virtual_alloc_lem =
      let elsewhere : (v == 0) ≡ false = ground (arith, given) in
      rw (elsewhere, aligned, kept_flags flags) refl

  commit_lazily :
      has (flags % 0x400) page_present ≡ false
      → (r : ℕ) → (t : AddressSpace) → commit v n (flags % 0x400) s ≡ some (r, t)
      → (r ≡ v) × (commit_on_access n v (0xc00 + flags % 0x400) s ≡ some t)
  unfolding commit
  commit_lazily absent r t done =
      let pf = lazy_flags (flags % 0x400) (omega arith) in
      let e = ap (λ x. commit_on_access n v x s) pf in ground (arith, absent, done, e)

  commit_at_once :
      has (flags % 0x400) page_present ≡ true
      → commit_present n v (bit_or (flags % 0x400) page_present) s ≡ none
      → commit v n (flags % 0x400) s ≡ none
  unfolding commit
  commit_at_once present fails = ground (arith, present, fails)

-- The pages that a request without frames leaves.
pub record Reserved (v n : ℕ) (s t : AddressSpace) : Type 0 where
  pub waiting : (w : ℕ) → w < word → InRange v n w → Waiting w t
  pub others : Kept (OutOfRange v n) s t

Range-Waiting :
    (v n f : ℕ)
    → (s t : AddressSpace) → f < 0x400
    → has f page_present ≡ false
    → Range v n (λ _. 0xc00 + f) s t
    → Reserved v n s t
Range-Waiting v n f s t low absent range = record {
  waiting = λ w small inside.
      let (there, entry) = range.entries w small inside in
      record {
        table = there;
        on_access = ap (λ e. has e page_map_on_access) entry ∙ lazy_on_access f low;
        reserved = ap (λ e. has e page_reserved) entry ∙ lazy_reserved f low;
        not_present = ap (λ e. has e page_present) entry ∙ lazy_present f low ∙ absent;
      };
  others = range.others;
}

-- Where `memmanager_virtual_alloc` returns for the address of a page that the caller gives, other than 0,
-- without PAGE_PRESENT and for a range inside the address space, it returns that address; every page of
-- the range then waits for its first access, and no page outside the range has lost its entry. The free
-- memory is to give as many frames as the range has pages; no two tables are to share a frame, no table's
-- frame is to be free, and the free blocks are in order, above address 0 and below the last page.
pub virtual_alloc-Reserved :
    (v n flags r : ℕ)
    → (s t : AddressSpace) → Separate s
    → Frames n s.physical
    → v ≢ 0
    → has v page_flags_mask ≡ false
    → v < word
    → v / 0x1000 + n ≤ 0x10_0000
    → has flags page_present ≡ false
    → memmanager_virtual_alloc v n flags s ≡ some (r, t)
    → (r ≡ v) × Reserved v n s t
virtual_alloc-Reserved v n flags r s t sep enough given aligned small fits absent done =
    let f : ℕ = flags % 0x400 in
    let off : has f page_present ≡ false = low_present flags ∙ absent in
    let (same, run) =
      commit_lazily v n flags s given aligned off r t
        (sym (virtual_alloc_lem v n flags s given aligned) ∙ done) in
    (
      same,
      Range-Waiting v n f s t (omega arith) off
          (commit_on_access-Range n v (0xc00 + f) s t sep enough small (omega arith) fits run),
    )

-- A page that is present once it is mapped.
once_mapped :
    (v p pf : ℕ)
    → (s : AddressSpace) → has pf page_present ≡ true
    → (memmanager_map_page v p pf s).0 ≡ true
    → let t = (memmanager_map_page v p pf s).1 in
      HasTable v t × (has (memmanager_get_pt_entry v t) page_allocated ≡ true)
once_mapped v p pf s present done =
    let e : ℕ = bit_or (bit_and p page_address_mask) pf in
    let u : AddressSpace = with_table v pf s in
    let there = with_table-HasTable v pf s in
    subst (λ t. HasTable v t × (has (memmanager_get_pt_entry v t) page_allocated ≡ true))
      (sym (map_page-with_table v p pf s done))
      (
        update-HasTable v v e u there,
        ap (λ x. has x page_allocated) (update_self v e u there)
            ∙ present_allocated e (or_present (bit_and p page_address_mask) pf present),
      )

-- The loop cannot map a page that has its frame.
commit_present_allocated :
    (left v pf : ℕ)
    → (s : AddressSpace) → HasTable v s
    → has (memmanager_get_pt_entry v s) page_allocated ≡ true
    → commit_present (suc left) v pf s ≡ none
unfolding commit_present memmanager_get_pt_entry
commit_present_allocated left v pf s there allocated =
    let a : Allocation = physical_memory_allocate page_size page_size s.physical in
    let refused =
      map_page_refuses v a.address pf (record s { physical = a.blocks }) there allocated in
    ground (arith, refused)

commit_present_next :
    (left v pf : ℕ)
    → (s : AddressSpace)
    → commit_present (suc left) v pf s ≡ (
        let a : Allocation = physical_memory_allocate page_size page_size s.physical in
        let r : Bool × AddressSpace =
          memmanager_map_page v a.address pf (record s { physical = a.blocks }) in
        if r.0 then commit_present left v pf r.1 else none)
unfolding commit_present
commit_present_next left v pf s = refl

commit_present_stuck :
    (left v pf : ℕ)
    → (s : AddressSpace) → has pf page_present ≡ true
    → commit_present (suc (suc left)) v pf s ≡ none
commit_present_stuck left v pf s present =
    let a : Allocation = physical_memory_allocate page_size page_size s.physical in
    let t : AddressSpace = record s { physical = a.blocks } in
    elim (Bool-cases (memmanager_map_page v a.address pf t).0) [
      | inl done ↦
          let (there, allocated) = once_mapped v a.address pf t present done in
          commit_present_next (suc left) v pf s
          ∙ ground (
            arith,
            done,
            commit_present_allocated left v pf (memmanager_map_page v a.address pf t).1 there
                allocated,
          )
      | inr refused ↦ commit_present_next (suc left) v pf s ∙ ground (arith, refused)
    ]

-- A request with PAGE_PRESENT for two or more pages at a page address that the caller gives, other than
-- 0, never returns: an assertion fails.
pub virtual_alloc_present :
    (v n flags : ℕ)
    → (s : AddressSpace) → v ≢ 0
    → has v page_flags_mask ≡ false
    → 2 ≤ n
    → has flags page_present ≡ true
    → memmanager_virtual_alloc v n flags s ≡ none
virtual_alloc_present v n flags s given aligned several present =
    let f : ℕ = flags % 0x400 in
    let on : has f page_present ≡ true = low_present flags ∙ present in
    virtual_alloc_lem v n flags s given aligned
    ∙ commit_at_once v n flags s given aligned on (
        subst (λ m. commit_present m v (bit_or f page_present) s ≡ none) {x = suc (suc (n - 2))}
          {y = n} (omega arith)
          (commit_present_stuck (n - 2) v (bit_or f page_present) s
            (or_present f page_present refl)))
