-- ===== src/Paging/Lazy.antt =====
-- kernel/memorymanager.cpp: the pages of virtual_alloc, page faults, the release of pages and the memory
-- spaces of tasks. A failed assertion is `none`.
use jsd_os.Prelude.{
  ℕ, zero, suc, ◌+◌, ◌-◌, bit_and, bit_or, Bool, true, false, not, ◌&&◌, Option, none, some, List,
  ◌==◌, if◌then◌else◌,
}
use jsd_os.Prelude.Words.{add32}
use jsd_os.Physical.{Block, Allocation, physical_memory_allocate, physical_memory_free}
use jsd_os.Paging.{
  AddressSpace, page_table, has, without, put, page_present, page_rw, page_user, page_map_on_access,
  page_reserved, page_allocated, page_size, page_table_size, page_flags_mask, page_address_mask,
  get_page_dir_index, get_page_tbl_index, memmanager_get_pt_entry, memmanager_get_physical,
  memmanager_update_pt, memmanager_get_unmapped_pages, memmanager_map_page,
  memmanager_get_page_flags,
}
pub mod Faults
pub mod Commit
mod Examples

pub memmanager_unmap_page_with_flags : ℕ → ℕ → AddressSpace → Option AddressSpace
unfolding memmanager_update_pt
memmanager_unmap_page_with_flags v flags s =
    let pd_index : ℕ = get_page_dir_index v in
    if has (s.directory pd_index) page_present
    then some (
        if has (page_table pd_index s (get_page_tbl_index v)) flags
        then memmanager_update_pt v 0 s
        else s)
    else none

-- The loop of `memmanager_set_page_flags`, with `left` pages to go.
pub set_flags : ℕ → ℕ → ℕ → AddressSpace → AddressSpace
unfolding memmanager_update_pt add32
set_flags zero v flags s = s
set_flags (suc left) v flags s =
    let pd_index : ℕ = get_page_dir_index v in
    let preserved : ℕ = bit_or page_present (bit_or page_reserved page_map_on_access) in
    let entry : ℕ = page_table pd_index s (get_page_tbl_index v) in
    let value : ℕ = bit_or (bit_and entry (bit_or page_address_mask preserved)) flags in
    let rest : AddressSpace =
      set_flags left (add32 v page_size) flags (memmanager_update_pt v value s) in
    if has (s.directory pd_index) page_present then rest else s

pub memmanager_set_page_flags : ℕ → ℕ → ℕ → AddressSpace → AddressSpace
unfolding set_flags
memmanager_set_page_flags v num_pages flags s = set_flags num_pages v flags s

pub memmanager_alloc_page : ℕ → AddressSpace → Option (ℕ × AddressSpace)
unfolding memmanager_get_unmapped_pages memmanager_map_page
memmanager_alloc_page flags s =
    let a : Allocation = physical_memory_allocate page_size page_size s.physical in
    let (place, t) = memmanager_get_unmapped_pages 1 flags (record s { physical = a.blocks }) in
    elim place [
      | none ↦ none
      | some v ↦
          let (mapped, u) = memmanager_map_page v a.address (bit_or flags page_present) t in
          some (if mapped then v else 0, u)
    ]

-- The loop of `memmanager_virtual_alloc` over pages that are present at once, with `left` pages to go.
pub commit_present : ℕ → ℕ → ℕ → AddressSpace → Option AddressSpace
unfolding memmanager_map_page
commit_present zero v pf s = some s
commit_present (suc left) v pf s =
    let a : Allocation = physical_memory_allocate page_size page_size s.physical in
    let r : Bool × AddressSpace =
      memmanager_map_page v a.address pf (record s { physical = a.blocks }) in
    let rest : Option AddressSpace = commit_present left v pf r.1 in if r.0 then rest else none

-- Its loop over pages that are mapped when they are used.
pub commit_on_access : ℕ → ℕ → ℕ → AddressSpace → Option AddressSpace
unfolding memmanager_map_page memmanager_get_page_flags add32
commit_on_access zero v pf s = some s
commit_on_access (suc left) v pf s =
    let r : Bool × AddressSpace = memmanager_map_page v 0 pf s in
    let flags : ℕ = memmanager_get_page_flags v r.1 in
    let rest : Option AddressSpace = commit_on_access left (add32 v page_size) pf r.1 in
    if r.0 && (has flags page_reserved && not (has flags page_present)) then rest else none

pub commit : ℕ → ℕ → ℕ → AddressSpace → Option (ℕ × AddressSpace)
unfolding commit_present commit_on_access
commit v n flags s =
    let pages : Option AddressSpace =
      if has flags page_present
      then commit_present n v (bit_or flags page_present) s
      else commit_on_access n v (bit_or (bit_or flags page_reserved) page_map_on_access) s in
    elim pages [ none ↦ none | some t ↦ some (v, t) ]

-- The address, 0 on failure.
pub memmanager_virtual_alloc : ℕ → ℕ → ℕ → AddressSpace → Option (ℕ × AddressSpace)
unfolding memmanager_get_unmapped_pages commit
memmanager_virtual_alloc v_address n flags s =
    let legal : ℕ = bit_and flags (without page_flags_mask (page_reserved + page_map_on_access)) in
    if v_address == 0
    then (let (place, t) = memmanager_get_unmapped_pages n legal s in
        elim place [ none ↦ none | some v ↦ if v == 0 then some (0, t) else commit v n legal t ])
    else if has v_address page_flags_mask
    then some (0, s)
    else commit v_address n legal s

pub memmanager_unmap_pages_with_flags : ℕ → ℕ → ℕ → AddressSpace → Option AddressSpace
unfolding memmanager_unmap_page_with_flags add32
memmanager_unmap_pages_with_flags v zero flags s = some s
memmanager_unmap_pages_with_flags v (suc num_pages) flags s =
    elim (memmanager_unmap_page_with_flags v flags s) [
      | none ↦ none
      | some t ↦ memmanager_unmap_pages_with_flags (add32 v page_size) num_pages flags t
    ]

-- Whether every page was allocated: the code's 0, and -1 if not.
pub memmanager_free_pages_with_flags : ℕ → ℕ → ℕ → AddressSpace → Option (Bool × AddressSpace)
unfolding memmanager_get_pt_entry memmanager_unmap_page_with_flags add32
memmanager_free_pages_with_flags v zero flags s = some (true, s)
memmanager_free_pages_with_flags v (suc num_pages) flags s =
    let entry : ℕ = memmanager_get_pt_entry v s in
    elim (memmanager_unmap_page_with_flags v flags s) [
      | none ↦ none
      | some t ↦ elim (has entry page_allocated) [
        | false ↦ some (false, t)
        | true ↦ memmanager_free_pages_with_flags (add32 v page_size) num_pages flags (
            if has entry page_present
            then record t {
              physical =
                  physical_memory_free (bit_and entry page_address_mask) page_size t.physical;
            }
            else t)
      ]
    ]

pub syscall_free_pages : ℕ → ℕ → AddressSpace → Option (Bool × AddressSpace)
unfolding memmanager_free_pages_with_flags
syscall_free_pages page num_pages s =
    if page == 0
    then some (false, s)
    else memmanager_free_pages_with_flags page num_pages page_user s

pub memmanager_init_page_dir : ℕ → ℕ → ℕ
memmanager_init_page_dir physaddr =
    put (λ _. 0) (page_table_size - 1) (bit_or (bit_or physaddr page_present) page_rw)

-- The loop of `memmanager_new_memory_space` that copies the entries of the kernel.
pub copy_kernel_entries : ℕ → ℕ → (ℕ → ℕ) → (ℕ → ℕ) → ℕ → ℕ
copy_kernel_entries zero i current directory = directory
copy_kernel_entries (suc left) i current directory =
    copy_kernel_entries left (i + 1) current
      (if has (current i) page_user then directory else put directory i (current i))

-- The address of the new directory and the directory; the address is 0 on failure.
pub memmanager_new_memory_space : AddressSpace → Option (ℕ × (ℕ → ℕ) × AddressSpace)
unfolding memmanager_alloc_page memmanager_get_physical memmanager_init_page_dir copy_kernel_entries
memmanager_new_memory_space s = elim (memmanager_alloc_page page_rw s) [
  | none ↦ none
  | some (v, t) ↦ some (
    v,
    copy_kernel_entries (page_table_size - 1) 0 t.directory
        (memmanager_init_page_dir (memmanager_get_physical v t)),
    t,
  )
]

-- The loop of `memmanager_destroy_memory_space`.
pub free_tables : ℕ → ℕ → (ℕ → ℕ) → List Block → List Block
free_tables zero i directory physical = physical
free_tables (suc left) i directory physical = free_tables left (i + 1) directory (
    if has (directory i) page_user
    then physical_memory_free (bit_and (directory i) page_address_mask) page_size physical
    else physical)

-- From the address space `s` that is given up to the kernel's directory; the frames are the same.
pub memmanager_destroy_memory_space : ℕ → AddressSpace → AddressSpace → Option (Bool × AddressSpace)
unfolding free_tables memmanager_free_pages_with_flags
memmanager_destroy_memory_space pdir s kernel =
    let left : AddressSpace = record kernel {
      tables = s.tables;
      physical = free_tables page_table_size 0 s.directory s.physical;
    } in
    elim (memmanager_free_pages_with_flags pdir 1 page_allocated left) [
      | none ↦ none
      | some (freed, t) ↦ some (true, t)
    ]

-- The writes to the entry of a page that gets its frame: the page is writable while it is zeroed.
pub map_zeroed : ℕ → ℕ → ℕ → AddressSpace → AddressSpace
unfolding memmanager_update_pt
map_zeroed v physical flags s =
    let page_value : ℕ = bit_or (bit_or physical flags) page_present in
    let page : ℕ = bit_and v page_address_mask in
    let zeroed : AddressSpace = memmanager_update_pt page (bit_or page_value page_rw) s in
    if has flags page_rw then zeroed else memmanager_update_pt page page_value zeroed

-- Is the fault handled?
pub memmanager_handle_page_fault : ℕ → ℕ → AddressSpace → Option (Bool × AddressSpace)
unfolding map_zeroed
memmanager_handle_page_fault err v s =
    let pd_index : ℕ = get_page_dir_index v in
    let entry : ℕ = page_table pd_index s (get_page_tbl_index v) in
    let a : Allocation = physical_memory_allocate page_size page_size s.physical in
    let flags : ℕ = bit_and entry (without page_flags_mask (page_reserved + page_map_on_access)) in
    let t : AddressSpace = record s { physical = a.blocks } in
    if has err page_present
    then some (false, s)
    else if has (s.directory pd_index) page_present && has entry page_map_on_access
    then (if has entry page_reserved && not (has entry page_present)
        then (if a.address == 0
            then some (false, t)
            else some (true, map_zeroed v a.address flags t))
        else none)
    else some (false, s)
