-- ===== src/Paging/Search/NewTable.antt =====
-- kernel/memorymanager.cpp: the search for pages, and the table that it makes where there is none.
use jsd_os.Prelude.{ℕ, ◌+◌, ◌*◌, ◌≤◌, ◌≡◌, refl, ap, ◌∙◌, true, false, Option, none, some}
use jsd_os.Physical.{physical_memory_allocate}
use jsd_os.Paging.{
  AddressSpace, page_table, has, without, page_user, page_allocated, page_size,
  memmanager_create_new_page_table,
}
use jsd_os.Paging.Entries.{new_table_user, without_user}
use jsd_os.Paging.Mapping.{Kept, put_self}
use jsd_os.Paging.Creation.{created_table}
use jsd_os.Paging.Separate.{Separate}
use jsd_os.Paging.Search.{MappableTo}

-- A table that is new has no page that is mapped.
pub new_table-free :
    (flags pd i : ℕ)
    → (s : AddressSpace)
    → has (page_table pd (memmanager_create_new_page_table pd flags s) i) page_allocated ≡ false
new_table-free flags pd i s = ap (λ f. has (f i) page_allocated) (created_table pd flags s)

pub new_table-kind :
    (flags pd : ℕ)
    → (s : AddressSpace) → has flags page_user ≡ true
    → has ((memmanager_create_new_page_table pd flags s).directory pd) page_user ≡ true
unfolding memmanager_create_new_page_table
new_table-kind flags pd s user =
    ap (λ e. has e page_user) (put_self s.directory pd _)
    ∙ new_table_user (physical_memory_allocate page_size page_size s.physical).address
        (without flags 0xc00) (without_user flags ∙ user)

pub Kept-refl : (s : AddressSpace) → Kept (λ _. Unit) s s
Kept-refl s w small unit old = (old, refl)

-- What a search comes to: `n` pages that can be mapped, one after the other, and every entry that there
-- was, where tables have frames of their own; or none.
unfoldable pub Placed : ℕ → ℕ → AddressSpace → Option ℕ × AddressSpace → Type 0
Placed flags n s (none, t) = Kept (λ _. Unit) s t
Placed flags n s (some v, t) =
    Kept (λ _. Unit) s t
    × Separate t
    × ((first : ℕ) × (v ≡ first * 0x1000)
        × (first + n ≤ 0x10_0000)
        × MappableTo flags (first + n) n t)
