-- ===== src/Fat/Clusters/Report.antt =====
-- drivers/formats/fat.cpp: the size that `fat_allocate_clusters` reports.
use native.Mathlib.Nat.{div-add-mod', mod-lt, div-le_self}
use jsd_os.Prelude.{
  ℕ, ◌+◌, ◌-◌, ◌/◌, ◌≤◌, ◌<◌, ◌≡◌, ap, refl, sym, ◌∙◌, subst, if◌then◌else◌, arith, zero, suc, Bool,
  false, [], Bool-cases, inl, inr, ◌⊎◌, ltb, ◌==◌, ◌&&◌,
}
use jsd_os.Prelude.Words.{word, add32, sub32, mul32, add32-eq, sub32-eq}
use jsd_os.Fat.{Volume, fat_32}
use jsd_os.Fat.Clusters.{
  Skipped, Linked, Allocated, skip_allocated, fat_claim_clusters, fat_allocate_clusters,
  fat_cluster_is_free, claim_searched, claim_listed, wanting, end_chain, has_fixed_root,
  write_to_fat,
}

add32-lt : (a b : ℕ) → add32 a b < word
unfolding add32
add32-lt a b = omega arith

sub32-zero : (a : ℕ) → a < word → sub32 a 0 ≡ a
unfolding sub32
sub32-zero a h = omega arith

needed-lt : (size c : ℕ) → add32 size (sub32 c 1) / c < word
needed-lt size c = omega (arith, div-le_self (add32 size (sub32 c 1)) c, add32-lt size (sub32 c 1))

-- The clusters asked for hold the bytes asked for.
needed-covers :
    (size cluster_size : ℕ)
    → 0 < cluster_size
    → size + cluster_size < word
    → size ≤ mul32 (add32 size (sub32 cluster_size 1) / cluster_size) cluster_size
unfolding mul32
needed-covers size c pos small =
    let less : sub32 c 1 ≡ c - 1 = sub32-eq c 1 pos (omega arith) in
    let sum : add32 size (c - 1) ≡ size + (c - 1) = add32-eq size (c - 1) (omega arith) in
    rw (less, sum) (omega (arith, div-add-mod' (size + (c - 1)) c, mod-lt (size + (c - 1)) pos))

-- A table without a free cluster.
abbrev pub IsFull : Volume → Type 0
IsFull v = (c : ℕ) → c < v.fat.num_clusters → fat_cluster_is_free c v ≡ false

search_full :
    (fuel cluster num : ℕ) (l : Linked)
    → IsFull l.volume
    → claim_searched fuel cluster num l ≡ wanting num l
unfolding claim_searched
search_full zero cluster num l full = refl
search_full (suc fuel) cluster num l full =
    elim (Bool-cases (ltb cluster l.volume.fat.num_clusters)) [
      | inl inside ↦
          let taken = full cluster (ground (arith, inside)) in
          let rest = search_full fuel (add32 cluster 1) num l full in
          ground (arith, inside, taken, rest)
      | inr over ↦ ground (arith, over)
    ]

-- A full table gives no cluster: the chain is ended where it ended.
claim_full :
    (last num : ℕ) (v : Volume)
    → v.fat.free_clusters ≡ []
    → IsFull v
    → fat_claim_clusters last num v
      ≡ record (end_chain (record { last_cluster = last; volume = v })) { last_cluster = 0 }
unfolding fat_claim_clusters claim_listed
claim_full last num v none_listed full =
    let l : Linked = record { last_cluster = last; volume = v } in
    let searched = search_full v.fat.num_clusters 0 num l full in
    let listed : claim_listed v.fat.free_clusters num l ≡ wanting num l =
      ap (λ spans. claim_listed spans num l) none_listed in
    ground (arith, listed, searched)

-- Where the table has no free cluster, none is listed as free and the chain is shorter than the size
-- asked for, `fat_allocate_clusters` allocates nothing, ends the chain where it ended, and still reports
-- at least the size asked for; a cluster has a byte, the volume has 32-bit entries or the file is no
-- fixed root directory, and the sum of the size and a cluster does not wrap.
pub allocate_full :
    (start_cluster size_in_bytes : ℕ) (is_root : Bool) (v : Volume)
    → 0 < v.fat.cluster_size
    → size_in_bytes + v.fat.cluster_size < word
    → (v.fat.type ≡ fat_32) ⊎ (is_root ≡ false)
    → v.fat.free_clusters ≡ []
    → IsFull v
    → let needed = add32 size_in_bytes (sub32 v.fat.cluster_size 1) / v.fat.cluster_size in
      0 < (skip_allocated start_cluster needed v).wanted
      → let r = fat_allocate_clusters start_cluster size_in_bytes is_root v in
        let last = (skip_allocated start_cluster needed v).after in
        (size_in_bytes ≤ r.size) × (r.volume ≡ (write_to_fat last v.fat.eof_value 1 v).volume)
unfolding fat_allocate_clusters end_chain has_fixed_root
allocate_full start_cluster size is_root v pos small kind none_listed full short =
    let c : ℕ = v.fat.cluster_size in
    let needed : ℕ = add32 size (sub32 c 1) / c in
    let none_taken : sub32 needed 0 ≡ needed = sub32-zero needed (needed-lt size c) in
    let s : Skipped = skip_allocated start_cluster needed v in
    let claimed_none = claim_full s.after s.wanted v none_listed full in
    let plain : (has_fixed_root v.fat.type && is_root) ≡ false = elim kind [
      | inl wide ↦ ap (λ t. has_fixed_root t && is_root) wide
      | inr other ↦ ground (arith, other)
    ] in
    let not_done : (s.wanted == 0) ≡ false = ground (arith, short) in
    let covered = needed-covers size c pos small in
    let report : Linked → Allocated = λ g. record {
      size = if g.last_cluster == 0 then mul32 (sub32 needed g.last_cluster) c else size;
      volume = g.volume;
    } in
    let fixed : Allocated = record { size = mul32 v.fat.root_entries 32; volume = v } in
    let kept : Allocated = record { size = size; volume = v } in
    let grown : Linked = fat_claim_clusters s.after s.wanted v in
    let whole =
      ap (λ b. if b then fixed else if s.wanted == 0 then kept else report grown) plain
      ∙ ap (λ b. if b then kept else report grown) not_done
      ∙ ap report claimed_none in
    (
      subst (λ x. size ≤ x) (sym (ap (λ a. a.size) whole ∙ ap (λ x. mul32 x c) none_taken)) covered,
      ap (λ a. a.volume) whole,
    )
