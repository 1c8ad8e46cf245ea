-- ===== src/Paging/Search.antt =====
-- kernel/memorymanager.cpp: `memmanager_get_unmapped_pages`.
use jsd_os.Prelude.{
  ℕ, zero, suc, ◌+◌, ◌-◌, ◌*◌, ◌/◌, ◌%◌, ◌≤◌, ◌<◌, ◌≡◌, ◌≢◌, ◌⊎◌, inl, inr, refl, ap, sym, ◌∙◌,
  bit_and, bit_or, Bool, true, false, not, ◌&&◌, ltb, leb, ◌==◌, Option, none, some, Bool-cases,
  if◌then◌else◌, subst, arith, ℕ_discrete,
}
use jsd_os.Prelude.Words.{word, add32, sub32, mul32, ◌<<<◌}
use jsd_os.Physical.{Allocation, physical_memory_allocate}
use jsd_os.Paging.{
  AddressSpace, page_table, has, without, put, page_present, page_user, page_allocated, page_size,
  page_table_size, Searched, found, past, scan_table, scan_directory, memmanager_get_unmapped_pages,
  memmanager_create_new_page_table,
}
use jsd_os.Paging.Entries.{new_table_user, without_user}
use jsd_os.Paging.Mapping.{HasTable, Kept, put_self}
use jsd_os.Paging.Creation.{create-Kept, created-present, created_other}
pub mod NewTable
pub mod Directory

-- A page, by its number, that can be mapped with `flags`: there is a table for it, of the kind that a page
-- of the user needs, and its entry is free.
pub record Mappable (flags page : ℕ) (s : AddressSpace) : Type 0 where
  pub present : has (s.directory (page / 0x400)) page_present ≡ true
  pub kind : has flags page_user ≡ true → has (s.directory (page / 0x400)) page_user ≡ true
  pub free : has (page_table (page / 0x400) s (page % 0x400)) page_allocated ≡ false

-- The last `n` pages before page `end`.
abbrev pub MappableTo : ℕ → ℕ → ℕ → AddressSpace → Type 0
MappableTo flags end n s =
    (n ≤ end) × ((page : ℕ) → end ≤ page + n → page < end → Mappable flags page s)

-- Where a search of a table stands.
pub FoundIn : ℕ → ℕ → ℕ → AddressSpace → Searched → Type 0
FoundIn flags n pd s (found address) =
    (first : ℕ) × (address ≡ first * 0x1000)
    × (first + n ≤ pd * 0x400 + 0x400)
    × MappableTo flags (first + n) n s
FoundIn flags n pd s (past k) = (k < n) × MappableTo flags (pd * 0x400 + 0x400) k s

module _ (flags n pd : ℕ) (s : AddressSpace) (pd_small : pd < 0x400) (n_pos : 0 < n)
    (n_small : n < word) (present : has (s.directory pd) page_present ≡ true)
    (kind : has flags page_user ≡ true → has (s.directory pd) page_user ≡ true) where
  pub at-Mappable :
      (i : ℕ)
      → i < 0x400
      → has (page_table pd s i) page_allocated ≡ false
      → Mappable flags (pd * 0x400 + i) s
  at-Mappable i small free =
      let table : (pd * 0x400 + i) / 0x400 ≡ pd = omega arith in
      let slot : (pd * 0x400 + i) % 0x400 ≡ i = omega arith in
      record {
        present = ap (λ x. has (s.directory x) page_present) table ∙ present;
        kind = λ u. ap (λ x. has (s.directory x) page_user) table ∙ kind u;
        free = rw (table, slot) free;
      }

  suc-MappableTo :
      (i k : ℕ)
      → i < 0x400
      → has (page_table pd s i) page_allocated ≡ false
      → MappableTo flags (pd * 0x400 + i) k s
      → MappableTo flags (pd * 0x400 + (i + 1)) (k + 1) s
  suc-MappableTo i k small free (fits, run) = (
    omega (arith, fits),
    λ page low high. elim (ℕ_discrete page (pd * 0x400 + i)) [
      | yes e ↦ subst (λ x. Mappable flags x s) (sym e) (at-Mappable i small free)
      | no other ↦ run page (omega (arith, low)) (omega (arith, high, other))
    ],
  )

  zero-MappableTo : (end : ℕ) → MappableTo flags end 0 s
  zero-MappableTo end = (omega arith, λ page low high. absurd (omega (arith, low, high)))

  -- The branches of a round.
  scan_allocated :
      (left i k : ℕ)
      → has (page_table pd s i) page_allocated ≡ true
      → scan_table (suc left) i n pd k s ≡ scan_table left (i + 1) n pd 0 s
  unfolding scan_table
  scan_allocated left i k taken = ground (arith, taken)

  scan_enough :
      (left i k : ℕ)
      → has (page_table pd s i) page_allocated ≡ false
      → k + 1 ≡ n
      → scan_table (suc left) i n pd k s
        ≡ found (add32 (pd <<< 22) (mul32 (sub32 i (sub32 n 1)) page_size))
  unfolding scan_table
  scan_enough left i k free enough = ground (arith, free, enough)

  scan_free :
      (left i k : ℕ)
      → has (page_table pd s i) page_allocated ≡ false
      → k + 1 ≢ n
      → scan_table (suc left) i n pd k s ≡ scan_table left (i + 1) n pd (k + 1) s
  unfolding scan_table
  scan_free left i k free few = ground (arith, free, few)

  address_lem :
      (i : ℕ)
      → i < 0x400
      → n ≤ pd * 0x400 + (i + 1)
      → add32 (pd <<< 22) (mul32 (sub32 i (sub32 n 1)) page_size)
        ≡ (pd * 0x400 + (i + 1) - n) * 0x1000
  unfolding add32 mul32 sub32
  address_lem i small fits =
      let back : (n + word - 1) % word ≡ n - 1 = omega arith in
      let offset : (i + word - (n - 1)) % word * 0x1000 % word
          ≡ (i + word - (n - 1)) * 0x1000 % word =
        omega arith in
      ap (λ x. (pd * 0x40_0000 + (i + word - x) % word * 0x1000 % word) % word) back
      ∙ ap (λ x. (pd * 0x40_0000 + x) % word) offset
      ∙ omega (arith, fits)

  pub scan_table-FoundIn :
      (left i k : ℕ)
      → i + left ≡ 0x400
      → k < n
      → MappableTo flags (pd * 0x400 + i) k s
      → FoundIn flags n pd s (scan_table left i n pd k s)
  unfolding FoundIn scan_table
  scan_table-FoundIn zero i k whole few run = (
    few,
    subst (λ e. MappableTo flags e k s) {x = pd * 0x400 + i} {y = pd * 0x400 + 0x400}
        (omega (arith, whole)) run,
  )
  scan_table-FoundIn (suc left) i k whole few run =
      elim (Bool-cases (has (page_table pd s i) page_allocated)) [
        | inl taken ↦ subst (FoundIn flags n pd s) (sym (scan_allocated left i k taken)) (
            scan_table-FoundIn left (i + 1) 0 (omega (arith, whole)) n_pos
              (zero-MappableTo (pd * 0x400 + (i + 1))))
        | inr free ↦
            let more = suc-MappableTo i k (omega (arith, whole)) free run in
            elim (ℕ_discrete (k + 1) n) [
              | yes enough ↦
                  let first : ℕ = pd * 0x400 + (i + 1) - n in
                  let fits : n ≤ pd * 0x400 + (i + 1) = omega (arith, enough, more.0) in
                  let end : pd * 0x400 + (i + 1) ≡ first + n = omega (arith, fits) in
                  subst (FoundIn flags n pd s) (sym (scan_enough left i k free enough)) (
                    first,
                    address_lem i (omega (arith, whole)) fits,
                    omega (arith, fits, whole),
                    subst (λ x. MappableTo flags (first + n) x s) enough
                        (subst (λ e. MappableTo flags e (k + 1) s) end more),
                  )
              | no few_yet ↦ subst (FoundIn flags n pd s) (sym (scan_free left i k free few_yet)) (
                  scan_table-FoundIn left (i + 1) (k + 1) (omega (arith, whole))
                    (omega (arith, few, few_yet)) more)
            ]
      ]
