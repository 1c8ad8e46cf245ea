-- ===== src/Paging/Lazy/Examples.antt =====
-- kernel/memorymanager.cpp: the theorems on reserved pages and page faults at concrete address spaces.
use jsd_os.Prelude.{
  ℕ, ◌≡◌, refl, ap, sym, ◌∙◌, true, [], ◌∷◌, some, none, arith, ◌==◌, if◌then◌else◌,
}
use jsd_os.Prelude.Words.{add32, sub32}
use jsd_os.Physical.{block, align_addr, claim_from_block, physical_memory_allocate}
use jsd_os.Physical.Regions.{Ordered}
use jsd_os.Physical.Regions.{free_at}
use jsd_os.Paging.Mapping.{OwnTables}
use jsd_os.Paging.Separate.{Separate, Frames}
use jsd_os.Paging.{has, page_present, table_frame, AddressSpace, memmanager_get_pt_entry}
use jsd_os.Paging.Lazy.{commit_on_access, memmanager_virtual_alloc, memmanager_handle_page_fault}
use jsd_os.Paging.Lazy.Faults.{Waiting, FaultOutcome, page_fault-FaultOutcome}
use jsd_os.Paging.Lazy.Commit.{Reserved, virtual_alloc-Reserved, virtual_alloc_present}

-- A table for the user at 0x400000, and free memory.
abbrev user_space : AddressSpace
user_space = record {
  directory = λ i. if i == 1 then 0x20_0007 else 0;
  tables = λ _ _. 0;
  physical = block 0x10_0000 0x1_0000 ∷ [];
}

abbrev stack : ℕ
stack = 0x40_2000

-- Two pages of the user, which may be written.
reserved : AddressSpace
unfolding commit_on_access
reserved = elim (commit_on_access 2 stack 0xc06 user_space) [ none ↦ user_space | some t ↦ t ]

reserves : memmanager_virtual_alloc stack 2 6 user_space ≡ some (stack, reserved)
unfolding memmanager_virtual_alloc reserved
reserves = refl

user_table : (i : ℕ) → has (user_space.directory i) page_present ≡ true → i ≡ 1
user_table i present = ground (arith, present)

user_space-OwnTables : OwnTables user_space
user_space-OwnTables i j pi pj same = user_table i pi ∙ sym (user_table j pj)

user_space-Separate : Separate user_space
user_space-Separate = record {
  top = 0x20_0000;
  lo = 1;
  bounded = omega arith;
  positive = omega arith;
  order = (omega arith, omega arith, omega arith, tt);
  own = user_space-OwnTables;
  in_use = λ i present.
      ap (λ k. free_at (table_frame k user_space) user_space.physical) (user_table i present);
}

user_space-Frames : Frames 2 user_space.physical
unfolding physical_memory_allocate align_addr claim_from_block add32 sub32
user_space-Frames = (omega arith, (omega arith, tt))

virtual_alloc-Reserved_example : (stack ≡ stack) × Reserved stack 2 user_space reserved
virtual_alloc-Reserved_example =
    virtual_alloc-Reserved stack 2 6 stack user_space reserved user_space-Separate user_space-Frames
      (omega arith) refl (omega arith) (omega arith) refl reserves

virtual_alloc_present_example : memmanager_virtual_alloc stack 2 7 user_space ≡ none
virtual_alloc_present_example =
    virtual_alloc_present stack 2 7 user_space (omega arith) refl (omega arith) refl

stack-Waiting : Waiting 0x40_3abc reserved
unfolding reserved memmanager_get_pt_entry
stack-Waiting = record { table = refl; on_access = refl; reserved = refl; not_present = refl }

reserved-Ordered : Ordered 0x20_0000 0x10_0000 reserved.physical
unfolding reserved
reserved-Ordered = (omega arith, omega arith, omega arith, tt)

reserved-OwnTables : OwnTables reserved
unfolding reserved
reserved-OwnTables = user_space-OwnTables

page_fault-FaultOutcome_example :
    FaultOutcome 0x40_3abc reserved (memmanager_handle_page_fault 6 0x40_3abc reserved)
page_fault-FaultOutcome_example =
    page_fault-FaultOutcome 0x20_0000 0x10_0000 6 0x40_3abc reserved (omega arith) (omega arith)
      reserved-Ordered reserved-OwnTables (omega arith) refl stack-Waiting
