-- ===== src/Paging/Frames.antt =====
-- kernel/memorymanager.cpp: the loop of `memmanager_map_to_new_pages`.
use jsd_os.Prelude.{
  ℕ, zero, suc, ◌+◌, ◌*◌, ◌/◌, ◌%◌, ◌≤◌, ◌<◌, ◌≡◌, ◌≢◌, inl, sym, true, subst, arith,
}
use jsd_os.Prelude.Words.{word, add32}
use jsd_os.Paging.{AddressSpace, page_size, memmanager_map_page, map_pages}
use jsd_os.Paging.MapPage.{TableFits, map_page-Mapped, map_page-Separate}
use jsd_os.Paging.Mapping.{HasTable, Mapped}
use jsd_os.Paging.Separate.{Separate}
use jsd_os.Paging.Range.{InRange, Range, empty-Range, step-Range, values-Range}

abbrev pub frames : ℕ → ℕ → ℕ → ℕ
frames p flags i = (p / 0x1000 + i) * 0x1000 + flags

-- One page of the loop is mapped, and so are the rest.
map_pages_step :
    (left v p flags : ℕ)
    → (s : AddressSpace) → (map_pages (suc left) v p flags s).0 ≡ true
    → ((memmanager_map_page v p flags s).0 ≡ true)
      × ((map_pages left
            (add32 v page_size)
            (add32 p page_size)
            flags
            (memmanager_map_page v p flags s).1).0
          ≡ true)
      × ((map_pages (suc left) v p flags s).1
          ≡ (map_pages left
              (add32 v page_size)
              (add32 p page_size)
              flags
              (memmanager_map_page v p flags s).1).1)
unfolding map_pages
map_pages_step left v p flags s done = ground (arith, done)

-- Every page of a run has a table.
abbrev pub HasTables : ℕ → ℕ → AddressSpace → Type 0
HasTables v n s = (w : ℕ) → w < word → InRange v n w → HasTable w s

-- The pages after the first one.
next-HasTables :
    (left v p flags : ℕ)
    → (s t : AddressSpace) → v < word
    → v / 0x1000 + suc left ≤ 0x10_0000
    → Mapped v p flags s t
    → HasTables v (suc left) s
    → HasTables (add32 v page_size) left t
unfolding add32
next-HasTables left v p flags s t small fits mapped tables w w_small (low, high) =
    let last : left ≢ 0 = omega (arith, low, high) in
    let next : (v + 0x1000) % word / 0x1000 ≡ v / 0x1000 + 1 = omega (arith, fits, small, last) in
    (mapped.others w w_small (omega (arith, low, next))
      (tables w w_small (omega (arith, low, next), omega (arith, high, next)))).0

-- Every page of a run that is mapped has its frame.
pub map_pages-Range :
    (n v p flags : ℕ)
    → (s : AddressSpace) → Separate s
    → HasTables v n s
    → v < word
    → p < word
    → flags < 0x1000
    → v / 0x1000 + n ≤ 0x10_0000
    → p / 0x1000 + n ≤ 0x10_0000
    → (map_pages n v p flags s).0 ≡ true
    → Range v n (frames p flags) s (map_pages n v p flags s).1
unfolding map_pages add32
map_pages-Range zero v p flags s sep tables v_small p_small low v_fits p_fits done =
    empty-Range v (frames p flags) s
map_pages-Range (suc left) v p flags s sep tables v_small p_small low v_fits p_fits done =
    let (mapped, rest_done, same) = map_pages_step left v p flags s done in
    let there : TableFits v s = inl (tables v v_small (omega arith, omega arith)) in
    let first = map_page-Mapped v p flags s sep low there mapped v_small p_small in
    let t = (memmanager_map_page v p flags s).1 in
    let rest =
      map_pages-Range left (add32 v page_size) (add32 p page_size) flags t
        (map_page-Separate v p flags s sep low there mapped)
        (next-HasTables left v p flags s t v_small v_fits first tables) (omega arith) (omega arith)
        low (omega (arith, v_fits, v_small)) (omega (arith, p_fits, p_small)) rest_done in
    subst (Range v (suc left) (frames p flags) s) (sym same) (
      step-Range v p flags left (frames p flags) s t _ v_small v_fits (omega arith) first (
        values-Range (add32 v page_size) left (frames (add32 p page_size) flags)
          (λ i. frames p flags (suc i)) t _ (λ i small. omega (arith, small, p_fits)) rest))
