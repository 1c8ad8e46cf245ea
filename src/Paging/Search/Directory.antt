-- ===== src/Paging/Search/Directory.antt =====
-- kernel/memorymanager.cpp: the loop of `memmanager_get_unmapped_pages` over the page directory.
use jsd_os.Prelude.{
  ◌≢◌, ℕ, zero, suc, ◌+◌, ◌-◌, ◌*◌, ◌≤◌, ◌<◌, ◌≡◌, inl, inr, refl, ap, sym, ◌∙◌, Bool, true, false,
  not, ◌&&◌, leb, Option, some, Bool-cases, if◌then◌else◌, subst, arith,
}
use jsd_os.Prelude.Words.{word, ◌<<<◌}
use jsd_os.Paging.{
  AddressSpace, has, page_present, page_user, page_table_size, Searched, found, past, scan_table,
  scan_directory, memmanager_get_unmapped_pages, memmanager_create_new_page_table,
}
use jsd_os.Paging.Separate.{Separate, Frames, separate-Fresh, create-Separate}
use jsd_os.Paging.Creation.{create-Kept, created-present}
use jsd_os.Paging.Search.{Mappable, MappableTo, FoundIn, at-Mappable, scan_table-FoundIn}
use jsd_os.Paging.Search.NewTable.{new_table-free, new_table-kind, Kept-refl, Placed}

-- The rest of a round of the loop over the directory, once there is a table.
kinds_differ : ℕ → ℕ → AddressSpace → Bool
kinds_differ flags pd t =
    if has flags page_user
    then not (has (t.directory pd) page_user)
    else has (t.directory pd) page_user

same_kind :
    (flags pd : ℕ)
    → (t : AddressSpace) → kinds_differ flags pd t ≡ false
    → has flags page_user ≡ true
    → has (t.directory pd) page_user ≡ true
unfolding kinds_differ
same_kind flags pd t same user = ground (arith, same, user)

module _ (flags n : ℕ) (n_pos : 0 < n) (n_small : n < word) where
  go_on : ℕ → ℕ → AddressSpace → Searched → Option ℕ × AddressSpace
  unfolding scan_directory
  go_on left pd t (found address) = (some address, t)
  go_on left pd t (past pages) = scan_directory left (pd + 1) n flags pages t

  in_table : ℕ → ℕ → ℕ → AddressSpace → Option ℕ × AddressSpace
  unfolding scan_directory kinds_differ scan_table go_on
  in_table left pd k t = elim (kinds_differ flags pd t) [
    | true ↦ scan_directory left (pd + 1) n flags 0 t
    | false ↦ go_on left pd t (scan_table page_table_size 0 n pd k t)
  ]

  directory_old :
      (left pd k : ℕ)
      → (s : AddressSpace) → has (s.directory pd) page_present ≡ true
      → scan_directory (suc left) pd n flags k s ≡ in_table left pd k s
  unfolding scan_directory in_table kinds_differ go_on
  directory_old left pd k s present =
      ap
        (λ b.
          let t : AddressSpace = if b then s else memmanager_create_new_page_table pd flags s in
          elim (not b && leb n page_table_size) [
            | true ↦ (some (pd <<< 22), t)
            | false ↦ in_table left pd k t
          ])
        present

  directory_new :
      (left pd k : ℕ)
      → (s : AddressSpace) → has (s.directory pd) page_present ≡ false
      → let t = memmanager_create_new_page_table pd flags s in
        scan_directory (suc left) pd n flags k s ≡ elim (leb n page_table_size) [
          | true ↦ (some (pd <<< 22), t)
          | false ↦ in_table left pd k t
        ]
  unfolding scan_directory in_table kinds_differ go_on
  directory_new left pd k s new =
      ap
        (λ b.
          let t : AddressSpace = if b then s else memmanager_create_new_page_table pd flags s in
          elim (not b && leb n page_table_size) [
            | true ↦ (some (pd <<< 22), t)
            | false ↦ in_table left pd k t
          ])
        new

  -- A round, from what the rounds after it come to.
  module _ (s : AddressSpace) (sep : Separate s) (frame : Frames 1 s.physical)
      (low_flags : flags < 0x1000) (one_table : n ≤ page_table_size) where
    module _ (left pd : ℕ) (fits : pd + suc left ≤ 0x400)
        (later : (k : ℕ)
          → k < n
          → MappableTo flags ((pd + 1) * 0x400) k s
          → Placed flags n s (scan_directory left (pd + 1) n flags k s)) where
      go_on-Placed : (r : Searched) → FoundIn flags n pd s r → Placed flags n s (go_on left pd s r)
      unfolding go_on FoundIn Placed
      go_on-Placed (found address) (first, value, room, run) =
          (Kept-refl s, sep, (first, value, omega (arith, room, fits), run))
      go_on-Placed (past k) (few, run) = later k few (
          subst (λ e. MappableTo flags e k s) {x = pd * 0x400 + 0x400} {y = (pd + 1) * 0x400}
            (omega arith) run)

      table_round : ℕ → Bool → Option ℕ × AddressSpace
      table_round k differ = elim differ [
        | true ↦ scan_directory left (pd + 1) n flags 0 s
        | false ↦ go_on left pd s (scan_table page_table_size 0 n pd k s)
      ]

      in_table-Placed :
          (k : ℕ)
          → k < n
          → has (s.directory pd) page_present ≡ true
          → MappableTo flags (pd * 0x400) k s
          → Placed flags n s (in_table left pd k s)
      unfolding in_table table_round
      in_table-Placed k few present run = elim (Bool-cases (kinds_differ flags pd s)) [
        | inl differ ↦
            subst (Placed flags n s) (sym (ap (table_round k) differ))
              (later 0 n_pos (omega arith, λ page low high. absurd (omega (arith, low, high))))
        | inr same ↦ subst (Placed flags n s) (sym (ap (table_round k) same)) (
            go_on-Placed (scan_table page_table_size 0 n pd k s) (
              scan_table-FoundIn flags n pd s (omega (arith, fits)) n_pos n_small present
                (same_kind flags pd s same) page_table_size 0 k refl few
                (subst (λ e. MappableTo flags e k s) {x = pd * 0x400} {y = pd * 0x400 + 0}
                  (omega arith) run)))
      ]

      shifted : pd <<< 22 ≡ pd * 0x400 * 0x1000
      shifted = omega (arith, fits)

      -- A table that is made has room for all the pages.
      new_table-Placed :
          (k : ℕ)
          → has (s.directory pd) page_present ≡ false
          → Placed flags n s (scan_directory (suc left) pd n flags k s)
      unfolding Placed
      new_table-Placed k new =
          let t = memmanager_create_new_page_table pd flags s in
          let test : leb n page_table_size ≡ true = ground (arith, one_table) in
          subst (Placed flags n s)
            (sym (
              directory_new left pd k s new
              ∙ ap (λ b. elim b [ true ↦ (some (pd <<< 22), t) | false ↦ in_table left pd k t ])
                  test))
            (
              create-Kept pd flags s new (separate-Fresh s sep frame.0 flags low_flags),
              create-Separate s sep frame.0 flags low_flags pd new,
              (
                pd * 0x400,
                shifted,
                omega (arith, fits, one_table),
                (
                  omega arith,
                  λ page low high.
                      let slot : page ≡ pd * 0x400 + (page - pd * 0x400) = omega (arith, low) in
                      subst (λ x. Mappable flags x t) (sym slot)
                        (at-Mappable flags n pd t (omega (arith, fits)) n_pos n_small
                          (created-present pd flags s) (new_table-kind flags pd s)
                          (page - pd * 0x400) (omega (arith, high, one_table))
                          (new_table-free flags pd (page - pd * 0x400) s)),
                ),
              ),
            )

    -- The tables that are left, from table `pd` on, after `k` pages that are open.
    scan_directory-Placed :
        (left pd k : ℕ)
        → pd + left ≤ 0x400
        → k < n
        → MappableTo flags (pd * 0x400) k s
        → Placed flags n s (scan_directory left pd n flags k s)
    unfolding scan_directory Placed
    scan_directory-Placed zero pd k fits few run = Kept-refl s
    scan_directory-Placed (suc left) pd k fits few run =
        let later : (j : ℕ)
            → j < n
            → MappableTo flags ((pd + 1) * 0x400) j s
            → Placed flags n s (scan_directory left (pd + 1) n flags j s) =
          λ j j_few j_run.
            scan_directory-Placed left (pd + 1) j (omega (arith, fits)) j_few j_run in
        elim (Bool-cases (has (s.directory pd) page_present)) [
          | inl present ↦
              subst (Placed flags n s) (sym (directory_old left pd k s present))
                (in_table-Placed left pd fits later k few present run)
          | inr new ↦ new_table-Placed left pd fits later k new
        ]

-- A directory entry without a table, in a part of the directory that is searched.
pub record Room (pd left : ℕ) (s : AddressSpace) : Type 0 where
  pub at : ℕ
  pub from : pd ≤ at
  pub below : at < pd + left
  pub no_table : has (s.directory at) page_present ≡ false

unfoldable pub Found : Option ℕ × AddressSpace → Type 0
Found r = (v : ℕ) × (r.0 ≡ some v)

if-Found :
    (test : Bool) (x y : Option ℕ × AddressSpace)
    → Found x
    → Found y
    → Found (elim test [ true ↦ x | false ↦ y ])
if-Found true x y hx hy = hx
if-Found false x y hx hy = hy

module _ (flags n : ℕ) (n_pos : 0 < n) (n_small : n < word) (one_table : n ≤ page_table_size) where
  go_on-Found :
      (left pd : ℕ) (s : AddressSpace) (r : Searched)
      → ((k : ℕ) → Found (scan_directory left (pd + 1) n flags k s))
      → Found (go_on flags n n_pos n_small left pd s r)
  unfolding go_on Found
  go_on-Found left pd s (found address) later = (address, refl)
  go_on-Found left pd s (past k) later = later k

  scan_directory-Found :
      (left pd k : ℕ) (s : AddressSpace)
      → Room pd left s
      → Found (scan_directory left pd n flags k s)
  unfolding Found in_table
  scan_directory-Found zero pd k s room = absurd (omega (arith, room.from, room.below))
  scan_directory-Found (suc left) pd k s room =
      elim (Bool-cases (has (s.directory pd) page_present)) [
        | inl present ↦
            let differ : room.at ≢ pd = λ e.
              (let h =
                  sym present
                  ∙ ap (λ x. has (s.directory x) page_present) (sym e)
                  ∙ room.no_table in
                cc) in
            let rest : Room (pd + 1) left s = record {
              at = room.at;
              from = omega (arith, room.from, differ);
              below = omega (arith, room.below);
              no_table = room.no_table;
            } in
            subst Found (sym (directory_old flags n n_pos n_small left pd k s present)) (
              if-Found (kinds_differ flags pd s) _ _ (scan_directory-Found left (pd + 1) 0 s rest) (
                go_on-Found left pd s (scan_table page_table_size 0 n pd k s)
                  (λ j. scan_directory-Found left (pd + 1) j s rest)))
        | inr new ↦
            let test : leb n page_table_size ≡ true = ground (arith, one_table) in
            let t = memmanager_create_new_page_table pd flags s in
            subst Found
              (sym (
                directory_new flags n n_pos n_small left pd k s new
                ∙ ap
                    (λ b. elim b [
                      | true ↦ (some (pd <<< 22), t)
                      | false ↦ in_table flags n n_pos n_small left pd k t
                    ])
                    test))
              (pd <<< 22, refl)
      ]

-- A search finds pages that can be mapped, and no page loses its entry.
pub get_unmapped_pages-Placed :
    (num_pages flags : ℕ)
    → (s : AddressSpace) → Separate s
    → Frames 1 s.physical
    → flags < 0x1000
    → 0 < num_pages
    → num_pages ≤ page_table_size
    → Placed flags num_pages s (memmanager_get_unmapped_pages num_pages flags s)
unfolding memmanager_get_unmapped_pages
get_unmapped_pages-Placed n flags s sep frame low n_pos one_table =
    let first_pt : ℕ = if has flags page_user then 0 else 896 in
    let bounded : first_pt ≤ 896 = ground arith in
    scan_directory-Placed flags n n_pos (omega (arith, one_table)) s sep frame low one_table
      (1023 - first_pt) first_pt 0 (omega (arith, bounded)) n_pos
      (omega arith, λ page low_page high. absurd (omega (arith, low_page, high)))

-- The part of the directory that is searched for pages of a kind.
abbrev pub first_table : ℕ → ℕ
first_table flags = if has flags page_user then 0 else 896

pub get_unmapped_pages-Found :
    (num_pages flags : ℕ) (s : AddressSpace)
    → 0 < num_pages
    → num_pages ≤ page_table_size
    → Room (first_table flags) (1023 - first_table flags) s
    → Found (memmanager_get_unmapped_pages num_pages flags s)
unfolding memmanager_get_unmapped_pages
get_unmapped_pages-Found n flags s n_pos one_table room =
    scan_directory-Found flags n n_pos (omega (arith, one_table)) one_table
      (1023 - first_table flags) (first_table flags) 0 s room
