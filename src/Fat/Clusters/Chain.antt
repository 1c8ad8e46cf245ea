-- ===== src/Fat/Clusters/Chain.antt =====
-- drivers/formats/fat.cpp: `write_to_fat` as a whole, and walks along the chain it makes.
use native.Mathlib.Nat.{mod-eq_of_lt}
use jsd_os.Prelude.{
  ℕ, zero, suc, ◌+◌, ◌-◌, ◌^◌, ◌≤◌, ◌<◌, ◌≡◌, ◌≢◌, ◌⊎◌, refl, ap, sym, ◌∙◌, arith, ℕ_discrete,
}
use jsd_os.Prelude.Words.{sub32, add32-eq, sub32-eq}
use jsd_os.Fat.{
  FatType, fat_12, fat_16, fat_32, ex_fat, fat_unknown, Volume, fat_get_next_cluster,
  fat_set_next_cluster,
}
use jsd_os.Fat.Table.{fat_entry_bits, HasTable, next-set_self, next-set_other}
use jsd_os.Fat.Clusters.{fat_get_relative_cluster, link_previous, do_write_to_fat, write_to_fat}
use jsd_os.Fat.Clusters.Links.{set-eq, set-HasTable, link-eof, link-other, link_self}

write_to_fat-eq :
    (t : FatType) (previous first n : ℕ) (v : Volume)
    → HasTable t v
    → write_to_fat previous first n v ≡ do_write_to_fat t previous first n v
unfolding write_to_fat
write_to_fat-eq fat_unknown previous first n v h = absurd (h.known refl)
write_to_fat-eq fat_12 previous first n v h = let e = h.typed in ground arith
write_to_fat-eq fat_16 previous first n v h = let e = h.typed in ground arith
write_to_fat-eq fat_32 previous first n v h = let e = h.typed in ground arith
write_to_fat-eq ex_fat previous first n v h = let e = h.typed in ground arith

-- A walk along clusters that are each followed by the one after it.
walk :
    (k cluster : ℕ) (v : Volume)
    → ((i : ℕ) → cluster ≤ i → i < cluster + k → fat_get_next_cluster i v ≡ i + 1)
    → cluster + k < v.fat.eof_value
    → fat_get_relative_cluster cluster k v ≡ cluster + k
unfolding fat_get_relative_cluster
walk zero cluster v linked before = omega arith
walk (suc k) cluster v linked before =
    let next : fat_get_next_cluster cluster v ≡ cluster + 1 =
      linked cluster (omega arith) (omega arith) in
    let rest =
      walk k (cluster + 1) v (λ i from to. linked i (omega arith) (omega arith)) (omega arith) in
    rw next (ground (arith, rest))

module _ (t : FatType) (first n : ℕ) (v : Volume) (h : HasTable t v) (some_clusters : 0 < n)
    (small : first + n < 0x1000_0000) (fits : first + n < 2 ^ fat_entry_bits t) where
  count : sub32 n 1 ≡ n - 1
  count = sub32-eq n 1 some_clusters (omega arith)

  module _ (previous : ℕ) (known : previous < 0x1000_0000) where
    link_previous-HasTable : HasTable t (link_previous t previous first v)
    unfolding link_previous
    link_previous-HasTable = elim (ℕ_discrete previous 0) [
      | yes e ↦ rw e h
      | no ne ↦ ground (arith, set-HasTable t previous first v h)
    ]

    link_previous-fat : (link_previous t previous first v).fat ≡ v.fat
    unfolding link_previous
    link_previous-fat = ground (arith, ap (λ w. w.fat) (set-eq t previous first v))

    linked_at :
        (i : ℕ)
        → first ≤ i
        → i < first + (n - 1)
        → fat_get_next_cluster i (write_to_fat previous first n v).volume ≡ i + 1
    unfolding do_write_to_fat
    linked_at i from to =
        rw (write_to_fat-eq t previous first n v h, count)
          (link_self t (n - 1) first _ i link_previous-HasTable (omega arith) (omega arith) from to)

    written-fat : (write_to_fat previous first n v).volume.fat ≡ v.fat
    unfolding do_write_to_fat
    written-fat =
        rw (write_to_fat-eq t previous first n v h)
          (link-eof t (sub32 n 1) first _ ∙ link_previous-fat)

    written-last : (write_to_fat previous first n v).last_cluster ≡ first + (n - 1)
    unfolding do_write_to_fat
    written-last =
        rw
          (
            write_to_fat-eq t previous first n v h,
            add32-eq first n (omega arith),
            sub32-eq (first + n) 1 (omega arith) (omega arith),
          )
          (omega arith)

    module _ (joins : previous ≢ 0) where
      joined : link_previous t previous first v ≡ fat_set_next_cluster t previous first v
      unfolding link_previous
      joined = ground arith

      previous_next :
          (previous < first) ⊎ (first + (n - 1) ≤ previous)
          → fat_get_next_cluster previous (write_to_fat previous first n v).volume ≡ first
      unfolding do_write_to_fat
      previous_next out =
          rw (write_to_fat-eq t previous first n v h, count)
            (link-other t (n - 1) first _ previous link_previous-HasTable (omega arith) known out
              ∙ ap (fat_get_next_cluster previous) joined
              ∙ next-set_self previous first v t h known
              ∙ mod-eq_of_lt (omega arith))

      abbrev after : Volume
      after = (write_to_fat previous first n v).volume

      same_end : after.fat.eof_value ≡ v.fat.eof_value
      same_end = ap (λ d. d.eof_value) written-fat

      step :
          (j : ℕ)
          → (previous < first) ⊎ (first + (n - 1) ≤ previous)
          → j < n
          → first + n ≤ v.fat.eof_value
          → fat_get_relative_cluster previous (suc j) after ≡ first + j
      unfolding fat_get_relative_cluster
      step j out lt ends =
          let reached =
            walk j first after (λ i from to. linked_at i from (omega arith))
              (omega (arith, same_end)) in
          rw (previous_next out) (ground (arith, reached, same_end))

      -- A run of one or more clusters that `write_to_fat` writes after a cluster outside the run is
      -- reached from that cluster by `fat_get_relative_cluster`, one cluster to a step, and the walk of
      -- as many steps as there are clusters ends at the cluster that `write_to_fat` returns. The cluster
      -- before the run is not 0 and, as the end of the run, below 2 ^ 28; the run is not to reach the
      -- value that ends a chain and fits the width of an entry; for 12-bit entries the table begins at
      -- the block of the reserved sectors, as it does where a sector is one block.
      pub write_to_fat-walk :
          (k : ℕ)
          → (previous < first) ⊎ (first + (n - 1) ≤ previous)
          → k < n
          → first + n ≤ v.fat.eof_value
          → (fat_get_relative_cluster previous (suc k) (write_to_fat previous first n v).volume
              ≡ first + k)
            × (fat_get_relative_cluster previous n (write_to_fat previous first n v).volume
                ≡ (write_to_fat previous first n v).last_cluster)
      write_to_fat-walk k out before ends =
          let n-suc : n ≡ suc (n - 1) = omega arith in
          let ending =
            ap (λ x. fat_get_relative_cluster previous x after) n-suc
            ∙ step (n - 1) out (omega arith) ends
            ∙ sym written-last in
          (step k out before ends, ending)

      -- `write_to_fat` of a run of one or more clusters changes no entry but those of the cluster before
      -- the run and of the clusters of the run but the last. The cluster before the run is not 0 and, as
      -- the end of the run and the cluster whose entry is kept, below 2 ^ 28; the run fits the width of
      -- an entry; for 12-bit entries the table begins at the block of the reserved sectors, as it does
      -- where a sector is one block.
      pub write_to_fat-other :
          (other : ℕ)
          → other < 0x1000_0000
          → other ≢ previous
          → (other < first) ⊎ (first + (n - 1) ≤ other)
          → fat_get_next_cluster other (write_to_fat previous first n v).volume
            ≡ fat_get_next_cluster other v
      unfolding do_write_to_fat
      write_to_fat-other other small' ne out =
          rw (write_to_fat-eq t previous first n v h, count)
            (link-other t (n - 1) first _ other link_previous-HasTable (omega arith) small' out
              ∙ ap (fat_get_next_cluster other) joined
              ∙ next-set_other previous first v t other h known small' (λ e. ne (sym e)))
