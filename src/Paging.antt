-- ===== src/Paging.antt =====
-- kernel/memorymanager.cpp: the current address space. The page directory and the page tables are seen
-- as words: a table is the page frame that its entry of the directory names, so two entries with one
-- frame have one table. Frames that hold no table are not modelled, nor are writes to the directory
-- through its own last entry, nor the translation cache. A failed assertion is `none`.
use jsd_os.Prelude.{
  ℕ, zero, suc, ◌+◌, ◌-◌, ◌*◌, ◌/◌, ◌%◌, bit_and, bit_or, Bool, true, false, not, ◌&&◌, ◌||◌,
  Option, none, some, List, ltb, leb, ◌==◌, if◌then◌else◌,
}
use jsd_os.Prelude.Words.{u32, word, add32, sub32, mul32, ◌<<<◌, ◌>>>◌}
use jsd_os.Physical.{Block, Allocation, physical_memory_allocate, physical_memory_free}
pub mod Entries
pub mod Mapping
pub mod Creation
pub mod Separate
pub mod MapPage
pub mod Range
pub mod Search
pub mod Frames
pub mod OpenPages
pub mod NewPages
pub mod Lazy
mod Examples

abbrev pub page_present : ℕ
page_present = 1

abbrev pub page_rw : ℕ
page_rw = 2

abbrev pub page_user : ℕ
page_user = 4

abbrev pub page_map_on_access : ℕ
page_map_on_access = 0x400

abbrev pub page_reserved : ℕ
page_reserved = 0x800

abbrev pub page_allocated : ℕ
page_allocated = 0x801

abbrev pub page_size : ℕ
page_size = 0x1000

abbrev pub page_table_size : ℕ
page_table_size = 0x400

abbrev pub page_flags_mask : ℕ
page_flags_mask = 0xfff

abbrev pub page_address_mask : ℕ
page_address_mask = 0xffff_f000

-- KERNEL_SPLIT and MAXIMUM_ADDRESS.
abbrev pub maximum_address : ℕ
maximum_address = 0xffff_ffff

abbrev pub kernel_split : ℕ
kernel_split = 0xe000_0000

-- Is a bit of `flags` set in an entry?
abbrev pub has : ℕ → ℕ → Bool
has entry flags = not (bit_and entry flags == 0)

-- ~flags.
abbrev pub without : ℕ → ℕ → ℕ
without entry flags = bit_and entry (0xffff_ffff - flags)

-- `tables` is by the address of the frame and the index in it.
pub record AddressSpace : Type 0 where
  pub directory : ℕ → ℕ
  pub tables : ℕ → ℕ → ℕ
  pub physical : List Block

-- The frame of a table, and GET_PAGE_TABLE_ADDRESS: the words that are seen through the mapping of the
-- tables at the top of the address space.
abbrev pub table_frame : ℕ → AddressSpace → ℕ
table_frame pd_index s = bit_and (s.directory pd_index) page_address_mask

abbrev pub page_table : ℕ → AddressSpace → ℕ → ℕ
page_table pd_index s = s.tables (table_frame pd_index s)

abbrev pub put {ℓ} : {A : Type ℓ} → (ℕ → A) → ℕ → A → ℕ → A
put f i x j = if j == i then x else f j

pub memmanager_minimum_pages : ℕ → ℕ
unfolding add32
memmanager_minimum_pages bytes = add32 bytes (page_size - 1) / page_size

abbrev pub get_page_dir_index : ℕ → ℕ
get_page_dir_index v = v >>> 22

abbrev pub get_page_tbl_index : ℕ → ℕ
get_page_tbl_index v = bit_and (v >>> 12) (page_table_size - 1)

-- The entry of an address in its table, and the entry of the directory where there is no table.
pub memmanager_get_pt_entry : ℕ → AddressSpace → ℕ
memmanager_get_pt_entry v s =
    let pd_entry : ℕ = s.directory (get_page_dir_index v) in
    if has pd_entry page_present
    then page_table (get_page_dir_index v) s (get_page_tbl_index v)
    else pd_entry

pub memmanager_get_physical : ℕ → AddressSpace → ℕ
unfolding memmanager_get_pt_entry add32
memmanager_get_physical v s =
    add32 (bit_and (memmanager_get_pt_entry v s) page_address_mask) (bit_and v page_flags_mask)

pub memmanager_update_pt : ℕ → ℕ → AddressSpace → AddressSpace
memmanager_update_pt v value s =
    let pd : ℕ = get_page_dir_index v in
    record s {
      tables = put s.tables (table_frame pd s) (put (page_table pd s) (get_page_tbl_index v) value);
    }

-- The frame is taken even where it is 0, the value of a failed allocation; the memset wipes every table
-- that is in the frame.
pub memmanager_create_new_page_table : ℕ → ℕ → AddressSpace → AddressSpace
memmanager_create_new_page_table pd_index flags s =
    let a : Allocation = physical_memory_allocate page_size page_size s.physical in
    let entry : ℕ =
      bit_or (bit_or (bit_or a.address page_present) page_rw)
        (without flags (page_reserved + page_map_on_access)) in
    record {
      directory = put s.directory pd_index entry;
      tables = put s.tables (bit_and entry page_address_mask) (λ _. 0);
      physical = a.blocks;
    }

-- Where a search stands: it has found its pages and returns their address, or it has come past some
-- pages that are free.
pub data Searched : Type 0 where
  found : ℕ → Searched
  past : ℕ → Searched

-- The loop over a page table, from entry `i` on with `left` entries to go.
pub scan_table : ℕ → ℕ → ℕ → ℕ → ℕ → AddressSpace → Searched
unfolding sub32 mul32 add32
scan_table zero i num_pages pd_index pages_found s = past pages_found
scan_table (suc left) i num_pages pd_index pages_found s =
    elim (has (page_table pd_index s i) page_allocated) [
      | true ↦ scan_table left (i + 1) num_pages pd_index 0 s
      | false ↦ elim (pages_found + 1 == num_pages) [
        | true ↦ found (add32 (pd_index <<< 22) (mul32 (sub32 i (sub32 num_pages 1)) page_size))
        | false ↦ scan_table left (i + 1) num_pages pd_index (pages_found + 1) s
      ]
    ]

-- The loop over the directory, with `left` tables to go.
pub scan_directory : ℕ → ℕ → ℕ → ℕ → ℕ → AddressSpace → Option ℕ × AddressSpace
unfolding memmanager_create_new_page_table scan_table
scan_directory zero pd_index num_pages flags pages_found s = (none, s)
scan_directory (suc left) pd_index num_pages flags pages_found s =
    let present : Bool = has (s.directory pd_index) page_present in
    let t : AddressSpace =
      if present then s else memmanager_create_new_page_table pd_index flags s in
    let kinds_differ : Bool =
      if has flags page_user
      then not (has (t.directory pd_index) page_user)
      else has (t.directory pd_index) page_user in
    elim (not present && leb num_pages page_table_size) [
      | true ↦ (some (pd_index <<< 22), t)
      | false ↦ elim kinds_differ [
        | true ↦ scan_directory left (pd_index + 1) num_pages flags 0 t
        | false ↦ elim (scan_table page_table_size 0 num_pages pd_index pages_found t) [
          | found address ↦ (some address, t)
          | past pages ↦ scan_directory left (pd_index + 1) num_pages flags pages t
        ]
      ]
    ]

pub memmanager_get_unmapped_pages : ℕ → ℕ → AddressSpace → Option ℕ × AddressSpace
unfolding scan_directory
memmanager_get_unmapped_pages num_pages flags s =
    let first_pt : ℕ = if has flags page_user then 0 else get_page_dir_index kernel_split in
    scan_directory (get_page_dir_index maximum_address - first_pt) first_pt num_pages flags 0 s

pub memmanager_map_page : ℕ → ℕ → ℕ → AddressSpace → Bool × AddressSpace
unfolding memmanager_create_new_page_table memmanager_update_pt
memmanager_map_page v physical_address flags s =
    let pd_index : ℕ = get_page_dir_index v in
    let pd_entry : ℕ = s.directory pd_index in
    let t : AddressSpace =
      if has pd_entry page_present then s else memmanager_create_new_page_table pd_index flags s in
    if has pd_entry page_present && (has flags page_user && not (has pd_entry page_user))
    then (false, s)
    else if has (page_table pd_index t (get_page_tbl_index v)) page_allocated
    then (false, t)
    else (
      true,
      memmanager_update_pt v (bit_or (bit_and physical_address page_address_mask) flags) t,
    )

-- The loop of `memmanager_map_to_new_pages`, with `left` pages to go; a page that cannot be mapped ends
-- it.
pub map_pages : ℕ → ℕ → ℕ → ℕ → AddressSpace → Bool × AddressSpace
unfolding memmanager_map_page add32
map_pages zero v physical_address flags s = (true, s)
map_pages (suc left) v physical_address flags s =
    let (mapped, t) = memmanager_map_page v physical_address flags s in
    let rest : Bool × AddressSpace =
      map_pages left (add32 v page_size) (add32 physical_address page_size) flags t in
    if mapped then rest else (false, t)

-- The address, 0 on failure.
pub memmanager_map_to_new_pages : ℕ → ℕ → ℕ → AddressSpace → Option (ℕ × AddressSpace)
unfolding memmanager_get_unmapped_pages map_pages
memmanager_map_to_new_pages physical_address n flags s =
    let (place, t) = memmanager_get_unmapped_pages n flags s in
    elim place [
      | none ↦ none
      | some v ↦
          let (mapped, u) = map_pages n v physical_address flags t in
          some (if mapped then v else 0, u)
    ]

pub memmanager_get_page_flags : ℕ → AddressSpace → ℕ
unfolding memmanager_get_pt_entry
memmanager_get_page_flags v s = bit_and (memmanager_get_pt_entry v s) page_flags_mask
