-- ===== src/Fat/Clusters/Links.antt =====
-- drivers/formats/fat.cpp: the loop of `do_write_to_fat`, entry by entry.
use native.Mathlib.Nat.{mod-eq_of_lt}
use jsd_os.Prelude.{
  ℕ, zero, suc, ◌+◌, ◌^◌, ◌≤◌, ◌<◌, ◌≡◌, ◌⊎◌, inl, refl, ap, sym, ◌∙◌, arith, dec_lt,
}
use jsd_os.Prelude.Words.{add32, add32-eq}
use jsd_os.BlockCache.{Memory, memcpy}
use jsd_os.Fat.{
  FatType, fat_12, fat_16, fat_32, ex_fat, fat_unknown, Volume, le_bytes, write_word, set_entry,
  set_entry_12, fat_get_next_cluster, fat_set_next_cluster,
}
use jsd_os.Fat.Packed.{IsBytes}
use jsd_os.Fat.Table.{fat_entry_bits, HasTable, next-set_self, next-set_other}
use jsd_os.Fat.Clusters.{link_clusters}

memcpy-IsBytes :
    (m : Memory) (a value n : ℕ) → IsBytes m → IsBytes (memcpy m a (le_bytes value) 0 n)
unfolding memcpy
memcpy-IsBytes m a value n b x = ground (arith, b x)

-- Writing an entry changes the bytes of the volume alone.
pub set-eq :
    (t : FatType) (cluster next : ℕ) (v : Volume)
    → fat_set_next_cluster t cluster next v
      ≡ record v { bytes = (fat_set_next_cluster t cluster next v).bytes }
unfolding fat_set_next_cluster set_entry set_entry_12 write_word
set-eq fat_unknown cluster next v = refl
set-eq fat_12 cluster next v = refl
set-eq fat_16 cluster next v = refl
set-eq fat_32 cluster next v = refl
set-eq ex_fat cluster next v = refl

set-IsBytes :
    (t : FatType) (cluster next : ℕ) (v : Volume)
    → IsBytes v.bytes
    → IsBytes (fat_set_next_cluster t cluster next v).bytes
unfolding fat_set_next_cluster set_entry set_entry_12 write_word
set-IsBytes fat_unknown cluster next v b = b
set-IsBytes fat_12 cluster next v b = memcpy-IsBytes _ _ _ _ b
set-IsBytes fat_16 cluster next v b = memcpy-IsBytes _ _ _ _ b
set-IsBytes fat_32 cluster next v b = memcpy-IsBytes _ _ _ _ b
set-IsBytes ex_fat cluster next v b = memcpy-IsBytes _ _ _ _ b

pub set-HasTable :
    (t : FatType) (cluster next : ℕ) (v : Volume)
    → HasTable t v
    → HasTable t (fat_set_next_cluster t cluster next v)
set-HasTable t cluster next v h = record {
  known = h.known;
  typed = ap (λ w. w.fat.type) (set-eq t cluster next v) ∙ h.typed;
  one_place = λ e.
      ap (λ w. w.fat.fat_block) (set-eq t cluster next v)
      ∙ h.one_place e
      ∙ sym (ap (λ w. w.fat.reserved_sectors) (set-eq t cluster next v));
  bytes = set-IsBytes t cluster next v h.bytes;
}

module _ (t : FatType) where
  pub link-HasTable :
      (n cluster : ℕ) (v : Volume) → HasTable t v → HasTable t (link_clusters t cluster n v)
  unfolding link_clusters
  link-HasTable zero cluster v h = h
  link-HasTable (suc n) cluster v h = link-HasTable n _ _ (set-HasTable t _ _ v h)

  pub link-eof : (n cluster : ℕ) (v : Volume) → (link_clusters t cluster n v).fat ≡ v.fat
  unfolding link_clusters
  link-eof zero cluster v = refl
  link-eof (suc n) cluster v =
      link-eof n _ _ ∙ ap (λ w. w.fat) (set-eq t cluster (add32 cluster 1) v)

  -- Clusters outside those linked keep their entries.
  pub link-other :
      (n cluster : ℕ) (v : Volume) (other : ℕ)
      → HasTable t v
      → cluster + n < 0x1000_0000
      → other < 0x1000_0000
      → (other < cluster) ⊎ (cluster + n ≤ other)
      → fat_get_next_cluster other (link_clusters t cluster n v) ≡ fat_get_next_cluster other v
  unfolding link_clusters
  link-other zero cluster v other h small small' out = refl
  link-other (suc n) cluster v other h small small' out =
      let up : add32 cluster 1 ≡ cluster + 1 = add32-eq cluster 1 (omega arith) in
      rw up (
        link-other n (cluster + 1) _ other (set-HasTable t cluster (cluster + 1) v h) (omega arith)
          small' (ground arith)
        ∙ next-set_other cluster (cluster + 1) v t other h (omega arith) small' (ground arith))

  -- Each linked cluster is followed by the one after it.
  pub link_self :
      (n cluster : ℕ) (v : Volume) (i : ℕ)
      → HasTable t v
      → cluster + n < 0x1000_0000
      → cluster + n < 2 ^ fat_entry_bits t
      → cluster ≤ i
      → i < cluster + n
      → fat_get_next_cluster i (link_clusters t cluster n v) ≡ i + 1
  unfolding link_clusters
  link_self zero cluster v i h small fits from to = absurd (omega arith)
  link_self (suc n) cluster v i h small fits from to =
      let up : add32 cluster 1 ≡ cluster + 1 = add32-eq cluster 1 (omega arith) in
      let h' = set-HasTable t cluster (cluster + 1) v h in
      rw up (elim (dec_lt cluster i) [
        | yes later ↦
            link_self n (cluster + 1) _ i h' (omega arith) (omega arith) (omega arith) (omega arith)
        | no here ↦
            let same : i ≡ cluster = omega arith in
            rw same (
              link-other n (cluster + 1) _ cluster h' (omega arith) (omega arith)
                (inl (omega arith))
              ∙ next-set_self cluster (cluster + 1) v t h (omega arith)
              ∙ mod-eq_of_lt (omega arith))
      ])
