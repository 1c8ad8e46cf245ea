-- ===== src/Paging/Mapping.antt =====
-- kernel/memorymanager.cpp: the entries of an address space, and what a write to one keeps.
use jsd_os.Prelude.{
  ℕ, ◌+◌, ◌*◌, ◌/◌, ◌%◌, ◌<◌, ◌≡◌, ◌≢◌, ◌⊎◌, inl, inr, refl, ap, sym, ◌∙◌, bit_and, bit_or, true,
  ℕ_discrete, arith,
}
use jsd_os.Prelude.Words.{word, add32, ◌>>>◌}
use jsd_os.Prelude.Bits.{bit_and_low}
use jsd_os.Paging.{
  AddressSpace, table_frame, page_table, has, put, page_address_mask, page_present,
  get_page_dir_index, get_page_tbl_index, memmanager_get_pt_entry, memmanager_get_physical,
  memmanager_update_pt,
}
use jsd_os.Paging.Entries.{entry-eq, entry_frame}

-- Does the directory have a table for an address?
abbrev pub HasTable : ℕ → AddressSpace → Type 0
HasTable v s = has (s.directory (get_page_dir_index v)) page_present ≡ true

-- Two addresses in one page have the same indices, and only those.
same_page :
    (v w : ℕ)
    → v < word
    → w < word
    → get_page_dir_index v ≡ get_page_dir_index w
    → get_page_tbl_index v ≡ get_page_tbl_index w
    → v / 0x1000 ≡ w / 0x1000
same_page v w hv hw e f = omega (arith, bit_and_low 10 (v >>> 12), bit_and_low 10 (w >>> 12))

-- The entries that one state has stand in another.
abbrev pub Kept : (ℕ → Type 0) → AddressSpace → AddressSpace → Type 0
Kept Which s t =
    (w : ℕ)
    → w < word
    → Which w
    → HasTable w s
    → HasTable w t × (memmanager_get_pt_entry w t ≡ memmanager_get_pt_entry w s)

-- What a mapping leaves: the entry of its page, and every other entry that there was.
pub record Mapped (v physical_address flags : ℕ) (s t : AddressSpace) : Type 0 where
  pub table : HasTable v t
  pub entry : memmanager_get_pt_entry v t ≡ physical_address / 0x1000 * 0x1000 + flags
  pub physical :
      (w : ℕ)
      → w < word
      → w / 0x1000 ≡ v / 0x1000
      → memmanager_get_physical w t ≡ physical_address / 0x1000 * 0x1000 + w % 0x1000
  pub others : Kept (λ w. w / 0x1000 ≢ v / 0x1000) s t

pub put_self : {A : Type 0} → (f : ℕ → A) → (i : ℕ) → (x : A) → put f i x i ≡ x
put_self f i x = ground arith

pub put_other : {A : Type 0} → (f : ℕ → A) → (i : ℕ) → (x : A) → (j : ℕ) → j ≢ i → put f i x j ≡ f j
put_other f i x j other = ground (arith, other)

pub entry-there :
    (w : ℕ)
    → (s : AddressSpace) → HasTable w s
    → memmanager_get_pt_entry w s ≡ page_table (get_page_dir_index w) s (get_page_tbl_index w)
unfolding memmanager_get_pt_entry
entry-there w s h = ground (arith, h)

pub update-HasTable :
    (w v x : ℕ) → (s : AddressSpace) → HasTable w s → HasTable w (memmanager_update_pt v x s)
unfolding memmanager_update_pt
update-HasTable w v x s there = there

pub update_self :
    (v x : ℕ)
    → (s : AddressSpace) → HasTable v s
    → memmanager_get_pt_entry v (memmanager_update_pt v x s) ≡ x
unfolding memmanager_update_pt
update_self v x s there =
    entry-there v (memmanager_update_pt v x s) there
    ∙ ap (λ f. f (get_page_tbl_index v))
        (put_self s.tables (table_frame (get_page_dir_index v) s) _)
    ∙ put_self (page_table (get_page_dir_index v) s) (get_page_tbl_index v) x

-- No two entries of the directory name one table.
abbrev pub OwnTables : AddressSpace → Type 0
OwnTables s =
    (i j : ℕ)
    → has (s.directory i) page_present ≡ true
    → has (s.directory j) page_present ≡ true
    → table_frame i s ≡ table_frame j s
    → i ≡ j

pub update_tables_other :
    (v x i j : ℕ)
    → (s : AddressSpace)
    → (table_frame i s ≢ table_frame (get_page_dir_index v) s) ⊎ (j ≢ get_page_tbl_index v)
    → page_table i (memmanager_update_pt v x s) j ≡ page_table i s j
unfolding memmanager_update_pt
update_tables_other v x i j s (inl n) =
    ap (λ f. f j) (put_other s.tables (table_frame (get_page_dir_index v) s) _ (table_frame i s) n)
update_tables_other v x i j s (inr n) =
    let k : ℕ = table_frame (get_page_dir_index v) s in
    elim (ℕ_discrete (table_frame i s) k) [
      | yes e ↦
          ap (λ f. put s.tables k (put (s.tables k) (get_page_tbl_index v) x) f j) e
          ∙ ap (λ f. f j) (put_self s.tables k _)
          ∙ put_other (s.tables k) (get_page_tbl_index v) x j n
          ∙ ap (λ f. s.tables f j) (sym e)
      | no other ↦ ap (λ f. f j) (put_other s.tables k _ (table_frame i s) other)
    ]

pub update-Kept :
    (v x : ℕ)
    → (s : AddressSpace) → v < word
    → OwnTables s
    → HasTable v s
    → Kept (λ w. w / 0x1000 ≢ v / 0x1000) s (memmanager_update_pt v x s)
unfolding memmanager_update_pt
update-Kept v x s v_small own v_there w small other there = (
  there,
  entry-there w (memmanager_update_pt v x s) there
      ∙ update_tables_other v x (get_page_dir_index w) (get_page_tbl_index w) s
          (elim (ℕ_discrete (get_page_dir_index w) (get_page_dir_index v)) [
            | yes e ↦ inr (λ f. other (same_page w v small v_small e f))
            | no n ↦
                inl (λ f. n (own (get_page_dir_index w) (get_page_dir_index v) there v_there f))
          ])
      ∙ sym (entry-there w s there),
)

pub update-OwnTables :
    (v x : ℕ) → (s : AddressSpace) → OwnTables s → OwnTables (memmanager_update_pt v x s)
unfolding memmanager_update_pt
update-OwnTables v x s own = own

pub HasTable-same :
    (w v : ℕ) → (s : AddressSpace) → w / 0x1000 ≡ v / 0x1000 → HasTable v s → HasTable w s
HasTable-same w v s same there =
    let pd : get_page_dir_index w ≡ get_page_dir_index v = omega (arith, same) in
    ap (λ i. has (s.directory i) page_present) pd ∙ there

pub entry-same :
    (w v : ℕ)
    → (s : AddressSpace) → w / 0x1000 ≡ v / 0x1000
    → memmanager_get_pt_entry w s ≡ memmanager_get_pt_entry v s
unfolding memmanager_get_pt_entry
entry-same w v s same =
    let pd : get_page_dir_index w ≡ get_page_dir_index v = omega (arith, same) in
    let pt : get_page_tbl_index w ≡ get_page_tbl_index v = ap (λ x. bit_and x 0x3ff) same in
    rw (pd, pt) refl

entry_physical :
    (w : ℕ)
    → (s : AddressSpace) → (p flags : ℕ) → p < word
    → flags < 0x1000
    → memmanager_get_pt_entry w s ≡ bit_or (bit_and p page_address_mask) flags
    → memmanager_get_physical w s ≡ p / 0x1000 * 0x1000 + w % 0x1000
unfolding memmanager_get_physical add32
entry_physical w s p flags p_small low entry =
    rw (entry, entry_frame p flags p_small low, bit_and_low 12 w) (omega arith)

-- An entry that is written, at an address with a table.
pub update-Mapped :
    (v p flags e : ℕ)
    → (s : AddressSpace) → v < word
    → p < word
    → flags < 0x1000
    → OwnTables s
    → HasTable v s
    → e ≡ p / 0x1000 * 0x1000 + flags
    → Mapped v p flags s (memmanager_update_pt v e s)
update-Mapped v p flags e s v_small p_small low own there value = record {
  table = update-HasTable v v e s there;
  entry = update_self v e s there ∙ value;
  physical = λ w small same. entry_physical w (memmanager_update_pt v e s) p flags p_small low (
      entry-same w v (memmanager_update_pt v e s) same
      ∙ update_self v e s there
      ∙ value
      ∙ sym (entry-eq p flags p_small low));
  others = update-Kept v e s v_small own there;
}

pub Mapped-after :
    (v p flags : ℕ)
    → (s t u : AddressSpace) → Kept (λ w. w / 0x1000 ≢ v / 0x1000) s t
    → Mapped v p flags t u
    → Mapped v p flags s u
Mapped-after v p flags s t u kept m = record {
  table = m.table;
  entry = m.entry;
  physical = m.physical;
  others = λ w small other old.
      let (had, same) = kept w small other old in
      let (has_now, same_now) = m.others w small other had in (has_now, same_now ∙ same);
}
