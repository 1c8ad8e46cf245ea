-- ===== src/Paging/Creation.antt =====
-- kernel/memorymanager.cpp: `memmanager_create_new_page_table`, and what it keeps.
use jsd_os.Prelude.{ℕ, ◌≡◌, ◌≢◌, ap, sym, ◌∙◌, bit_and, bit_or, true, false}
use jsd_os.Physical.{Allocation, physical_memory_allocate}
use jsd_os.Paging.{
  page_size, page_rw, AddressSpace, table_frame, page_table, has, without, page_address_mask,
  page_present, get_page_dir_index, get_page_tbl_index, memmanager_create_new_page_table,
}
use jsd_os.Paging.Entries.{new_table_present}
use jsd_os.Paging.Mapping.{HasTable, Kept, put_self, put_other, entry-there}

pub created-present :
    (pd flags : ℕ)
    → (s : AddressSpace)
    → has ((memmanager_create_new_page_table pd flags s).directory pd) page_present ≡ true
unfolding memmanager_create_new_page_table
created-present pd flags s =
    ap (λ e. has e page_present) (put_self s.directory pd _)
    ∙ new_table_present (physical_memory_allocate page_size page_size s.physical).address
        (without flags 0xc00)

pub created_other :
    (pd flags i : ℕ)
    → (s : AddressSpace) → i ≢ pd
    → (memmanager_create_new_page_table pd flags s).directory i ≡ s.directory i
unfolding memmanager_create_new_page_table
created_other pd flags i s other = put_other s.directory pd _ i other

-- The frame that a new table is put in.
abbrev pub new_frame : ℕ → AddressSpace → ℕ
new_frame flags s =
    let a : Allocation = physical_memory_allocate page_size page_size s.physical in
    bit_and (bit_or (bit_or (bit_or a.address page_present) page_rw) (without flags 0xc00))
      page_address_mask

-- No table is in that frame.
abbrev pub Fresh : ℕ → AddressSpace → Type 0
Fresh flags s =
    (i : ℕ) → has (s.directory i) page_present ≡ true → table_frame i s ≢ new_frame flags s

pub created_frame :
    (pd flags : ℕ)
    → (s : AddressSpace)
    → table_frame pd (memmanager_create_new_page_table pd flags s) ≡ new_frame flags s
unfolding memmanager_create_new_page_table
created_frame pd flags s = ap (λ e. bit_and e page_address_mask) (put_self s.directory pd _)

pub created_table :
    (pd flags : ℕ)
    → (s : AddressSpace) → page_table pd (memmanager_create_new_page_table pd flags s) ≡ (λ _. 0)
unfolding memmanager_create_new_page_table
created_table pd flags s =
    ap (memmanager_create_new_page_table pd flags s).tables (created_frame pd flags s)
    ∙ put_self s.tables (new_frame flags s) (λ _. 0)

pub created_table_other :
    (pd flags i : ℕ)
    → (s : AddressSpace) → i ≢ pd
    → table_frame i s ≢ new_frame flags s
    → page_table i (memmanager_create_new_page_table pd flags s) ≡ page_table i s
unfolding memmanager_create_new_page_table
created_table_other pd flags i s other apart =
    let t = memmanager_create_new_page_table pd flags s in
    ap (λ e. t.tables (bit_and e page_address_mask)) (created_other pd flags i s other)
    ∙ put_other s.tables (new_frame flags s) (λ _. 0) (table_frame i s) apart

pub create-Kept :
    (pd flags : ℕ)
    → (s : AddressSpace) → has (s.directory pd) page_present ≡ false
    → Fresh flags s
    → Kept (λ _. Unit) s (memmanager_create_new_page_table pd flags s)
create-Kept pd flags s new fresh w small _ there =
    let other : get_page_dir_index w ≢ pd =
      λ e. (let h = sym there ∙ ap (λ i. has (s.directory i) page_present) e ∙ new in cc) in
    let same = created_other pd flags (get_page_dir_index w) s other in
    let tables =
      created_table_other pd flags (get_page_dir_index w) s other
        (fresh (get_page_dir_index w) there) in
    let t = memmanager_create_new_page_table pd flags s in
    let h : HasTable w t = ap (λ e. has e page_present) same ∙ there in
    (h, entry-there w t h ∙ ap (λ f. f (get_page_tbl_index w)) tables ∙ sym (entry-there w s there))
