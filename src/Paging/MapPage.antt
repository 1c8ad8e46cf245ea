-- ===== src/Paging/MapPage.antt =====
-- kernel/memorymanager.cpp: `memmanager_map_page`.
use jsd_os.Prelude.{
  ℕ, suc, ◌<◌, ◌≡◌, ◌⊎◌, inl, inr, refl, ap, sym, ◌∙◌, bit_and, bit_or, true, false, not, ◌&&◌,
  ◌||◌, subst, if◌then◌else◌, Bool-cases, arith,
}
use jsd_os.Prelude.Words.{word}
use jsd_os.Paging.{
  AddressSpace, page_size, page_table, has, page_address_mask, page_present, page_user,
  page_allocated, get_page_dir_index, get_page_tbl_index, memmanager_get_pt_entry,
  memmanager_update_pt, memmanager_create_new_page_table, memmanager_map_page,
}
use jsd_os.Physical.{physical_memory_allocate}
use jsd_os.Paging.Entries.{entry-eq}
use jsd_os.Paging.Separate.{
  Separate, Frames, Frames-fewer, separate-Fresh, create-Separate, update-Separate,
}
use jsd_os.Paging.Mapping.{HasTable, Kept, Mapped, entry-there, update-Mapped, Mapped-after}
use jsd_os.Paging.Creation.{created-present, create-Kept}

-- The state in which `memmanager_map_page` looks at the page's entry.
pub with_table : ℕ → ℕ → AddressSpace → AddressSpace
unfolding memmanager_create_new_page_table
with_table v flags s =
    if has (s.directory (get_page_dir_index v)) page_present
    then s
    else memmanager_create_new_page_table (get_page_dir_index v) flags s

with_table-cases :
    (v flags : ℕ)
    → (s : AddressSpace)
    → (has (s.directory (get_page_dir_index v)) page_present ≡ true) × (with_table v flags s ≡ s)
      ⊎ (has (s.directory (get_page_dir_index v)) page_present ≡ false)
        × (with_table v flags s ≡ memmanager_create_new_page_table (get_page_dir_index v) flags s)
unfolding with_table
with_table-cases v flags s =
    elim (Bool-cases (has (s.directory (get_page_dir_index v)) page_present)) [
      | inl old ↦ inl (
        old,
        ap (λ b. if b then s else memmanager_create_new_page_table (get_page_dir_index v) flags s)
            old,
      )
      | inr new ↦ inr (
        new,
        ap (λ b. if b then s else memmanager_create_new_page_table (get_page_dir_index v) flags s)
            new,
      )
    ]

pub with_table_old : (v flags : ℕ) → (s : AddressSpace) → HasTable v s → with_table v flags s ≡ s
unfolding with_table
with_table_old v flags s there =
    ap (λ b. if b then s else memmanager_create_new_page_table (get_page_dir_index v) flags s) there

-- Where a table is needed, the free memory has a frame for it.
abbrev pub TableFits : ℕ → AddressSpace → Type 0
TableFits v s = HasTable v s ⊎ Frames 1 s.physical

module _ (v flags : ℕ) (s : AddressSpace) (sep : Separate s) (low : flags < 0x1000)
    (fits : TableFits v s) where
  has_frame : has (s.directory (get_page_dir_index v)) page_present ≡ false → Frames 1 s.physical
  has_frame new = elim fits [
    | inl there ↦ absurd (let e = sym there ∙ new in cc)
    | inr frame ↦ frame
  ]

  pub with_table-Kept : Kept (λ _. Unit) s (with_table v flags s)
  with_table-Kept = elim (with_table-cases v flags s) [
    | inl (old, same) ↦ subst (Kept (λ _. Unit) s) (sym same) (λ w small u there. (there, refl))
    | inr (new, same) ↦ subst (Kept (λ _. Unit) s) (sym same) (
        create-Kept (get_page_dir_index v) flags s new
          (separate-Fresh s sep (has_frame new).0 flags low))
  ]

  pub with_table-Separate : Separate (with_table v flags s)
  with_table-Separate = elim (with_table-cases v flags s) [
    | inl (old, same) ↦ subst Separate (sym same) sep
    | inr (new, same) ↦
        subst Separate (sym same)
          (create-Separate s sep (has_frame new).0 flags low (get_page_dir_index v) new)
  ]

pub with_table-HasTable : (v flags : ℕ) → (s : AddressSpace) → HasTable v (with_table v flags s)
with_table-HasTable v flags s = elim (with_table-cases v flags s) [
  | inl (old, same) ↦ subst (HasTable v) (sym same) old
  | inr (new, same) ↦ subst (HasTable v) (sym same) (created-present (get_page_dir_index v) flags s)
]

module _ (v p flags : ℕ) (s : AddressSpace) where
  pub map_page-with_table :
      (memmanager_map_page v p flags s).0 ≡ true
      → (memmanager_map_page v p flags s).1
        ≡ memmanager_update_pt v (bit_or (bit_and p page_address_mask) flags) (with_table v flags s)
  unfolding memmanager_map_page with_table
  map_page-with_table done = ground (arith, done)

  -- A page is mapped where its entry is free, in a table that there is no reason to refuse.
  pub map_page_accepts :
      not (has (s.directory (get_page_dir_index v)) page_present && has flags page_user)
          || has (s.directory (get_page_dir_index v)) page_user
        ≡ true
      → has
          (page_table (get_page_dir_index v) (with_table v flags s) (get_page_tbl_index v))
          page_allocated
        ≡ false
      → (memmanager_map_page v p flags s).0 ≡ true
  unfolding memmanager_map_page with_table
  map_page_accepts kind free = ground (arith, kind, free)

-- A page that is mapped has its frame and its flags, and no other page has lost its own.
module _ (v p flags : ℕ) (s : AddressSpace) (sep : Separate s) (low : flags < 0x1000)
    (fits : TableFits v s) (done : (memmanager_map_page v p flags s).0 ≡ true) where
  abbrev made : AddressSpace
  made = with_table v flags s

  pub map_page-Mapped : v < word → p < word → Mapped v p flags s (memmanager_map_page v p flags s).1
  map_page-Mapped v_small p_small =
      subst (Mapped v p flags s) (sym (map_page-with_table v p flags s done)) (
        Mapped-after v p flags s made _
          (λ w small other old. with_table-Kept v flags s sep low fits w small tt old)
          (update-Mapped v p flags (bit_or (bit_and p page_address_mask) flags) made v_small p_small
            low (with_table-Separate v flags s sep low fits).own (with_table-HasTable v flags s)
            (entry-eq p flags p_small low)))

  pub map_page-Separate : Separate (memmanager_map_page v p flags s).1
  map_page-Separate = subst Separate (sym (map_page-with_table v p flags s done)) (
      update-Separate v (bit_or (bit_and p page_address_mask) flags) made
        (with_table-Separate v flags s sep low fits))

map_page-physical :
    (v p flags : ℕ) (s : AddressSpace)
    → ((memmanager_map_page v p flags s).1.physical ≡ s.physical)
      ⊎ ((memmanager_map_page v p flags s).1.physical
          ≡ (physical_memory_allocate page_size page_size s.physical).blocks)
unfolding memmanager_map_page memmanager_create_new_page_table memmanager_update_pt
map_page-physical v p flags s =
    elim (Bool-cases (has (s.directory (get_page_dir_index v)) page_present)) [
      | inl old ↦ inl (ground (arith, old))
      | inr new ↦ inr (ground (arith, new))
    ]

-- Mapping takes a frame at most.
pub map_page-Frames :
    (n v p flags : ℕ)
    → (s : AddressSpace) → Frames (suc n) s.physical
    → Frames n (memmanager_map_page v p flags s).1.physical
map_page-Frames n v p flags s enough = elim (map_page-physical v p flags s) [
  | inl same ↦ subst (Frames n) (sym same) (Frames-fewer n s.physical enough)
  | inr same ↦ subst (Frames n) (sym same) enough.1
]

-- A page that has its frame keeps it.
pub map_page_refuses :
    (v p flags : ℕ)
    → (s : AddressSpace) → HasTable v s
    → has (memmanager_get_pt_entry v s) page_allocated ≡ true
    → (memmanager_map_page v p flags s).0 ≡ false
unfolding memmanager_map_page
map_page_refuses v p flags s there allocated =
    let slot = ap (λ e. has e page_allocated) (sym (entry-there v s there)) ∙ allocated in
    ground (arith, there, slot)
