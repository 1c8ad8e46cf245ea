-- ===== src/Paging/OpenPages.antt =====
-- kernel/memorymanager.cpp: the loop of `memmanager_map_to_new_pages` over pages that a search left open.
use jsd_os.Prelude.{
  ℕ, zero, suc, ◌+◌, ◌*◌, ◌/◌, ◌%◌, ◌≤◌, ◌<◌, ◌≡◌, ◌≢◌, ◌⊎◌, ℕ_discrete, inl, inr, refl, ap, sym,
  ◌∙◌, bit_and, bit_or, true, subst, arith,
}
use jsd_os.Prelude.Words.{add32, ◌>>>◌}
use jsd_os.Prelude.Bits.{bit_and_low}
use jsd_os.Paging.{
  AddressSpace, table_frame, page_table, has, page_present, page_user, page_allocated,
  page_address_mask, get_page_dir_index, get_page_tbl_index, memmanager_update_pt, page_size,
  memmanager_map_page, map_pages,
}
use jsd_os.Paging.Search.{Mappable, MappableTo}
use jsd_os.Paging.MapPage.{
  with_table, with_table_old, map_page_accepts, map_page-with_table, map_page-Separate,
}
use jsd_os.Paging.Separate.{Separate}
use jsd_os.Paging.Mapping.{HasTable, update_tables_other}

-- The page with number `page` is mapped, and the pages after it stay open.
module _ (page p flags : ℕ) (s : AddressSpace) (sep : Separate s) (low : flags < 0x1000)
    (bounded : page < 0x10_0000) (here : Mappable flags page s) where
  start : ℕ
  start = page * 0x1000

  slots : (get_page_dir_index start ≡ page / 0x400) × (get_page_tbl_index start ≡ page % 0x400)
  unfolding start
  slots =
      let shifted : start >>> 12 ≡ page = omega arith in
      (omega arith, ap (λ x. bit_and x 0x3ff) shifted ∙ bit_and_low 10 page)

  there : HasTable start s
  there = ap (λ i. has (s.directory i) page_present) slots.0 ∙ here.present

  no_table_made : with_table start flags s ≡ s
  no_table_made = with_table_old start flags s there

  accepted : (memmanager_map_page start p flags s).0 ≡ true
  accepted =
      let user : has flags page_user ≡ true
          → has (s.directory (get_page_dir_index start)) page_user ≡ true =
        λ u. ap (λ i. has (s.directory i) page_user) slots.0 ∙ here.kind u in
      map_page_accepts start p flags s (ground (arith, user)) (
        ap
          (λ t.
            has (page_table (get_page_dir_index start) t (get_page_tbl_index start)) page_allocated)
          no_table_made
        ∙ rw (slots.0, slots.1) here.free)

  entry : ℕ
  entry = bit_or (bit_and p page_address_mask) flags

  elsewhere :
      (other : ℕ)
      → other ≢ page
      → Mappable flags other s
      → (table_frame (other / 0x400) s ≢ table_frame (get_page_dir_index start) s)
        ⊎ (other % 0x400 ≢ get_page_tbl_index start)
  elsewhere other differs o = elim (ℕ_discrete (other / 0x400) (page / 0x400)) [
    | yes same ↦
        inr (λ e.
          let f : other % 0x400 ≡ page % 0x400 = e ∙ slots.1 in omega (arith, differs, same, f))
    | no n ↦
        inl
          (λ e. n (sep.own (other / 0x400) (get_page_dir_index start) o.present there e ∙ slots.0))
  ]

  stays-Mappable :
      (other : ℕ)
      → other ≢ page
      → Mappable flags other s
      → Mappable flags other (memmanager_map_page start p flags s).1
  unfolding memmanager_update_pt entry
  stays-Mappable other differs o =
      subst (Mappable flags other)
        (sym (
          map_page-with_table start p flags s accepted
          ∙ ap (memmanager_update_pt start entry) no_table_made))
        (record {
          present = o.present;
          kind = o.kind;
          free =
              ap (λ e. has e page_allocated)
                (update_tables_other start entry (other / 0x400) (other % 0x400) s
                  (elsewhere other differs o))
              ∙ o.free;
        })

map_pages_go :
    (left v p flags : ℕ)
    → (s : AddressSpace) → (memmanager_map_page v p flags s).0 ≡ true
    → (map_pages left
        (add32 v page_size)
        (add32 p page_size)
        flags
        (memmanager_map_page v p flags s).1).0
      ≡ true
    → (map_pages (suc left) v p flags s).0 ≡ true
unfolding map_pages
map_pages_go left v p flags s first rest = ground (arith, first, rest)

address_step :
    (page : ℕ) → page + 1 < 0x10_0000 → (page + 1) * 0x1000 ≡ add32 (page * 0x1000) page_size
unfolding add32
address_step page small = omega (arith, small)

-- Pages that are open are all mapped.
pub map_pages_done :
    (n page p flags : ℕ)
    → (s : AddressSpace) → Separate s
    → flags < 0x1000
    → page + n ≤ 0x10_0000
    → MappableTo flags (page + n) n s
    → (map_pages n (page * 0x1000) p flags s).0 ≡ true
unfolding map_pages start
map_pages_done zero page p flags s sep low fits run = refl
map_pages_done (suc left) page p flags s sep low fits (_, run) =
    let small : page < 0x10_0000 = omega (arith, fits) in
    let here : Mappable flags page s = run page (omega arith) (omega arith) in
    let t : AddressSpace = (memmanager_map_page (page * 0x1000) p flags s).1 in
    let next_run : MappableTo flags (page + 1 + left) left t = (
      omega arith,
      λ other from to.
          stays-Mappable page p flags s sep low small here other (λ e. omega (arith, from, e))
            (run other (omega (arith, from)) (omega (arith, to))),
    ) in
    map_pages_go left (page * 0x1000) p flags s (accepted page p flags s sep low small here)
      (elim (ℕ_discrete left 0) [
        | yes last ↦
            subst
              (λ m.
                (map_pages m (add32 (page * 0x1000) page_size) (add32 p page_size) flags t).0
                ≡ true)
              (sym last) refl
        | no more ↦
            let address : (page + 1) * 0x1000 ≡ add32 (page * 0x1000) page_size =
              address_step page (omega (arith, fits, more)) in
            subst (λ x. (map_pages left x (add32 p page_size) flags t).0 ≡ true) address
              (map_pages_done left (page + 1) (add32 p page_size) flags t
                (map_page-Separate (page * 0x1000) p flags s sep low
                  (inl (there page p flags s sep low small here))
                  (accepted page p flags s sep low small here))
                low (omega (arith, fits)) next_run)
      ])
