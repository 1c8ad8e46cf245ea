-- ===== src/Paging/NewPages.antt =====
-- kernel/memorymanager.cpp: `memmanager_map_to_new_pages`.
use jsd_os.Prelude.{
  ◌-◌, ℕ, ◌+◌, ◌*◌, ◌/◌, ◌%◌, ◌≤◌, ◌<◌, ◌≡◌, ap, sym, ◌∙◌, Bool, true, false, if◌then◌else◌, subst,
  arith, Option, none, some,
}
use jsd_os.Prelude.Words.{word}
use jsd_os.Prelude.Bits.{bit_and_low}
use jsd_os.Paging.{
  AddressSpace, page_table, has, page_present, page_allocated, get_page_dir_index,
  get_page_tbl_index, map_pages, memmanager_get_pt_entry, memmanager_map_to_new_pages,
  memmanager_get_unmapped_pages,
}
use jsd_os.Paging.Search.{Mappable, MappableTo}
use jsd_os.Paging.Search.NewTable.{Placed}
use jsd_os.Paging.Search.Directory.{
  get_unmapped_pages-Placed, get_unmapped_pages-Found, first_table, Found, Room,
}
use jsd_os.Paging.{page_table_size}
use jsd_os.Paging.Separate.{Separate, Frames}
use jsd_os.Paging.Mapping.{HasTable, Kept, entry-there}
use jsd_os.Paging.Range.{InRange, Range}
use jsd_os.Paging.Frames.{HasTables, frames, map_pages-Range}
use jsd_os.Paging.OpenPages.{map_pages_done}

slot_free :
    (w flags : ℕ)
    → (t : AddressSpace) → Mappable flags (w / 0x1000) t
    → has (page_table (get_page_dir_index w) t (get_page_tbl_index w)) page_allocated ≡ false
slot_free w flags t o =
    let pd : get_page_dir_index w ≡ w / 0x1000 / 0x400 = omega arith in
    rw (pd, bit_and_low 10 (w / 0x1000)) o.free

-- What `memmanager_map_to_new_pages` returns.
pub record NewPages (p n flags : ℕ) (s : AddressSpace) (v : ℕ) (u : AddressSpace) : Type 0 where
  pub aligned : v % 0x1000 ≡ 0
  pub fits : v / 0x1000 + n ≤ 0x10_0000
  pub fresh :
      (w : ℕ)
      → w < word
      → InRange v n w
      → HasTable w s
      → has (memmanager_get_pt_entry w s) page_allocated ≡ false
  pub mapped : Range v n (frames p flags) s u

module _ (p n flags : ℕ) (n_pos : 0 < n) (p_small : p < word) (low : flags < 0x1000)
    (p_fits : p / 0x1000 + n ≤ 0x10_0000) (s t : AddressSpace) (kept : Kept (λ _. Unit) s t)
    (sep : Separate t) (page : ℕ) (fits : page + n ≤ 0x10_0000)
    (run : MappableTo flags (page + n) n t) where
  found-NewPages : NewPages p n flags s (page * 0x1000) (map_pages n (page * 0x1000) p flags t).1
  found-NewPages =
      let (_, opens) = run in
      let tables : HasTables (page * 0x1000) n t = λ w small (low_w, high_w).
        (let pd : get_page_dir_index w ≡ w / 0x1000 / 0x400 = omega arith in
          ap (λ i. has (t.directory i) page_present) pd
          ∙ (opens (w / 0x1000) (omega (arith, low_w)) (omega (arith, high_w))).present) in
      let range =
        map_pages-Range n (page * 0x1000) p flags t sep tables (omega (arith, fits, n_pos)) p_small
          low (omega (arith, fits)) p_fits (map_pages_done n page p flags t sep low fits run) in
      record {
        aligned = omega arith;
        fits = omega (arith, fits);
        fresh = λ w small (low_w, high_w) old.
            let (had, same) = kept w small tt old in
            let o = opens (w / 0x1000) (omega (arith, low_w)) (omega (arith, high_w)) in
            ap (λ e. has e page_allocated) (sym same ∙ entry-there w t had) ∙ slot_free w flags t o;
        mapped = record {
          entries = range.entries;
          others = λ w small out old.
              let (had, same) = kept w small tt old in
              let (has_now, same_now) = range.others w small out had in (has_now, same_now ∙ same);
        };
      }

module _ (p n flags : ℕ) (n_pos : 0 < n) (p_small : p < word) (low : flags < 0x1000)
    (p_fits : p / 0x1000 + n ≤ 0x10_0000) (s : AddressSpace) where
  after_search : Option ℕ × AddressSpace → Option (ℕ × AddressSpace)
  unfolding map_pages
  after_search r =
      let (place, t) = r in
      elim place [
        | none ↦ none
        | some v ↦ let (mapped, u) = map_pages n v p flags t in some (if mapped then v else 0, u)
      ]

  after_search-NewPages :
      (r : Option ℕ × AddressSpace)
      → Placed flags n s r
      → (v : ℕ) → (u : AddressSpace) → after_search r ≡ some (v, u)
      → NewPages p n flags s v u
  unfolding after_search Placed
  after_search-NewPages (none, t) found v u done = absurd (let e = done in cc)
  after_search-NewPages (some w, t) (kept, sep, (first, value, fits, run)) v u done =
      let r : Bool × AddressSpace = map_pages n (first * 0x1000) p flags t in
      let mapped : r.0 ≡ true = map_pages_done n first p flags t sep low fits run in
      let at_first = subst (λ x. after_search (some x, t) ≡ some (v, u)) value done in
      let pair : ℕ × AddressSpace = (first * 0x1000, r.1) in
      let expected : ℕ × AddressSpace = (v, u) in
      let result : some pair ≡ some expected =
        ap (λ b. some (if b then first * 0x1000 else 0, r.1)) (sym mapped) ∙ at_first in
      let both : pair ≡ expected = cc in
      subst (λ x. NewPages p n flags s x.0 x.1) both
        (found-NewPages p n flags n_pos p_small low p_fits s t kept sep first fits run)

pub map_to_new_pages-NewPages :
    (p n flags v : ℕ)
    → (s u : AddressSpace) → Separate s
    → Frames 1 s.physical
    → 0 < n
    → n ≤ page_table_size
    → p < word
    → flags < 0x1000
    → p / 0x1000 + n ≤ 0x10_0000
    → memmanager_map_to_new_pages p n flags s ≡ some (v, u)
    → NewPages p n flags s v u
unfolding memmanager_map_to_new_pages after_search
map_to_new_pages-NewPages p n flags v s u sep frame n_pos one_table p_small low p_fits done =
    after_search-NewPages p n flags n_pos p_small low p_fits s
      (memmanager_get_unmapped_pages n flags s)
      (get_unmapped_pages-Placed n flags s sep frame low n_pos one_table) v u done

search_returns :
    (p n flags : ℕ) (s : AddressSpace)
    → Found (memmanager_get_unmapped_pages n flags s)
    → (r : ℕ × AddressSpace) × (memmanager_map_to_new_pages p n flags s ≡ some r)
unfolding memmanager_map_to_new_pages Found
search_returns p n flags s (v, e) =
    let t : AddressSpace = (memmanager_get_unmapped_pages n flags s).1 in
    let m : Bool × AddressSpace = map_pages n v p flags t in
    (
      (if m.0 then v else 0, m.1),
      ap
          (λ place. elim place [
            | none ↦ none
            | some w ↦
                let r : Bool × AddressSpace = map_pages n w p flags t in
                some (if r.0 then w else 0, r.1)
          ])
          e,
    )

-- Where a part of the directory that is searched has no table yet and the free memory gives a frame for
-- one, `memmanager_map_to_new_pages` returns, for 1 to 1024 pages, flags below 0x1000 and frames inside
-- the address space; no two tables are to share a frame, no table's frame is to be free, and the free
-- blocks are in order, above address 0 and below the last page. The address is that of consecutive pages
-- of which none was allocated, each is mapped to its frame with the flags asked for, and no other page
-- that had a table has lost its entry.
pub map_to_new_pages_returns :
    (p n flags : ℕ) (s : AddressSpace)
    → Separate s
    → Frames 1 s.physical
    → 0 < n
    → n ≤ page_table_size
    → p < word
    → flags < 0x1000
    → p / 0x1000 + n ≤ 0x10_0000
    → Room (first_table flags) (1023 - first_table flags) s
    → (r : ℕ × AddressSpace) × (memmanager_map_to_new_pages p n flags s ≡ some r)
      × NewPages p n flags s r.0 r.1
map_to_new_pages_returns p n flags s sep frame n_pos one_table p_small low p_fits room =
    let (r, e) =
      search_returns p n flags s (get_unmapped_pages-Found n flags s n_pos one_table room) in
    (
      r,
      e,
      map_to_new_pages-NewPages p n flags r.0 s r.1 sep frame n_pos one_table p_small low p_fits e,
    )
