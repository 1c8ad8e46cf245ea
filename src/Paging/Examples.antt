-- ===== src/Paging/Examples.antt =====
-- kernel/memorymanager.cpp: tests, and the theorems at concrete address spaces.
use jsd_os.Prelude.{
  ℕ, ◌-◌, ◌≡◌, refl, ap, sym, ◌∙◌, true, [], ◌∷◌, some, arith, ◌==◌, if◌then◌else◌,
}
use jsd_os.Prelude.Words.{add32, sub32}
use jsd_os.Physical.{block, align_addr, physical_memory_allocate}
use jsd_os.Paging.{
  memmanager_map_page, memmanager_get_pt_entry, memmanager_create_new_page_table,
  memmanager_update_pt, AddressSpace, has, page_present, table_frame, memmanager_minimum_pages,
  memmanager_get_unmapped_pages, map_pages, memmanager_map_to_new_pages,
}
use jsd_os.Physical.Regions.{free_at}
use jsd_os.Paging.Separate.{Separate, Frames}
use jsd_os.Paging.NewPages.{NewPages, map_to_new_pages_returns}
use jsd_os.Paging.Search.Directory.{Room, first_table}

-- The first table of the kernel, whose first page is mapped.
abbrev kernel : AddressSpace
kernel = record {
  directory = λ i. if i == 896 then 0x20_0003 else 0;
  tables = λ _ j. if j == 0 then 0x20_1003 else 0;
  physical = block 0x30_0000 0x1_0000 ∷ [];
}

minimum_pages_runs : memmanager_minimum_pages 0x1001 ≡ 2
unfolding memmanager_minimum_pages add32
minimum_pages_runs = refl

video : AddressSpace
unfolding map_pages memmanager_get_unmapped_pages
video = (map_pages 2 0xe000_1000 0xb_8000 3 (memmanager_get_unmapped_pages 2 3 kernel).1).1

maps_video : memmanager_map_to_new_pages 0xb_8000 2 3 kernel ≡ some (0xe000_1000, video)
unfolding memmanager_map_to_new_pages video
maps_video = refl

kernel-Room : Room (first_table 3) (1023 - first_table 3) kernel
kernel-Room = record { at = 897; from = omega arith; below = omega arith; no_table = refl }

kernel_table : (i : ℕ) → has (kernel.directory i) page_present ≡ true → i ≡ 896
kernel_table i present = ground (arith, present)

kernel-Separate : Separate kernel
kernel-Separate = record {
  top = 0x40_0000;
  lo = 1;
  bounded = omega arith;
  positive = omega arith;
  order = (omega arith, omega arith, omega arith, tt);
  own = λ i j pi pj same. kernel_table i pi ∙ sym (kernel_table j pj);
  in_use = λ i present.
      ap (λ k. free_at (table_frame k kernel) kernel.physical) (kernel_table i present);
}

kernel-Frames : Frames 1 kernel.physical
unfolding physical_memory_allocate align_addr add32 sub32
kernel-Frames = (omega arith, tt)

map_to_new_pages_returns_example :
    (r : ℕ × AddressSpace) × (memmanager_map_to_new_pages 0xb_8000 2 3 kernel ≡ some r)
    × NewPages 0xb_8000 2 3 kernel r.0 r.1
map_to_new_pages_returns_example =
    map_to_new_pages_returns 0xb_8000 2 3 kernel kernel-Separate kernel-Frames (omega arith)
      (omega arith) (omega arith) (omega arith) (omega arith) kernel-Room

-- Without free memory two tables are made at frame 0: the page that was mapped in the first one is lost.
starved : AddressSpace
starved = record { directory = λ _. 0; tables = λ _ _. 0; physical = [] }

one_page : AddressSpace
unfolding memmanager_map_page starved
one_page = (memmanager_map_page 0x40_0000 0x5000 7 starved).1

two_tables : AddressSpace
unfolding memmanager_map_page one_page
two_tables = (memmanager_map_page 0x80_0000 0x6000 7 one_page).1

first_page_lost :
    (memmanager_get_pt_entry 0x40_0000 one_page ≡ 0x5007)
    × (memmanager_get_pt_entry 0x40_1000 two_tables ≡ 0)
    × (memmanager_get_pt_entry 0x40_0000 two_tables ≡ 0x6007)
unfolding memmanager_map_page memmanager_get_pt_entry memmanager_create_new_page_table
    memmanager_update_pt one_page two_tables starved physical_memory_allocate
first_page_lost = (refl, refl, refl)
