-- ===== src/Fat/Clusters.antt =====
-- drivers/formats/fat.cpp: chains of clusters, from `fat_get_relative_cluster` to `fat_allocate_clusters`
-- and the release of a chain in `fat_delete_file`. An operation on the table returns the volume it
-- leaves; the stack `free_clusters` has its back first.
pub mod Links
pub mod Chain
pub mod Report
pub mod Reading
use jsd_os.Prelude.{
  ℕ, zero, suc, ◌+◌, ◌-◌, ◌*◌, ◌/◌, Bool, true, false, not, ◌&&◌, ◌||◌, List, [], ◌∷◌, ltb, ◌==◌,
  if◌then◌else◌,
}
use jsd_os.Prelude.Words.{add32, sub32, mul32}
use jsd_os.Fat.{
  FatType, fat_12, fat_16, fat_32, ex_fat, fat_unknown, ClusterSpan, Volume, FatDrive,
  fat_get_next_cluster, fat_set_next_cluster,
}

-- `FREE_CLUSTER`.
abbrev pub free_cluster : ℕ
free_cluster = 0

-- `fat_get_relative_cluster`: the counter bounds the steps.
pub fat_get_relative_cluster : ℕ → ℕ → Volume → ℕ
unfolding fat_get_next_cluster
fat_get_relative_cluster cluster zero v = cluster
fat_get_relative_cluster cluster (suc num_clusters) v =
    let next : ℕ = fat_get_next_cluster cluster v in
    let rest : ℕ = fat_get_relative_cluster next num_clusters v in
    if ltb next v.fat.eof_value then rest else next

-- A cluster an operation returns, and the volume it leaves.
pub record Linked : Type 0 where
  pub last_cluster : ℕ
  pub volume : Volume

-- The loop of `do_write_to_fat`: `n` clusters from `cluster` on are linked to the ones after them.
pub link_clusters : FatType → ℕ → ℕ → Volume → Volume
unfolding fat_set_next_cluster
link_clusters t cluster zero v = v
link_clusters t cluster (suc n) v =
    link_clusters t (add32 cluster 1) n (fat_set_next_cluster t cluster (add32 cluster 1) v)

pub link_previous : FatType → ℕ → ℕ → Volume → Volume
unfolding fat_set_next_cluster
link_previous t previous first_cluster v =
    if previous == 0 then v else fat_set_next_cluster t previous first_cluster v

pub do_write_to_fat : FatType → ℕ → ℕ → ℕ → Volume → Linked
unfolding link_clusters link_previous
do_write_to_fat t previous first_cluster num_clusters v = record {
  last_cluster = sub32 (add32 first_cluster num_clusters) 1;
  volume =
      link_clusters t first_cluster (sub32 num_clusters 1)
        (link_previous t previous first_cluster v);
}

-- A volume of unknown type fails the assertion.
pub write_to_fat : ℕ → ℕ → ℕ → Volume → Linked
unfolding do_write_to_fat
write_to_fat previous first_cluster num_clusters v = elim v.fat.type [
  | fat_12 ↦ do_write_to_fat fat_12 previous first_cluster num_clusters v
  | fat_16 ↦ do_write_to_fat fat_16 previous first_cluster num_clusters v
  | fat_32 ↦ do_write_to_fat fat_32 previous first_cluster num_clusters v
  | ex_fat ↦ do_write_to_fat ex_fat previous first_cluster num_clusters v
  | fat_unknown ↦ record { last_cluster = 0; volume = v }
]

unfoldable pub fat_cluster_is_free : ℕ → Volume → Bool
unfolding fat_get_next_cluster
fat_cluster_is_free cluster v = fat_get_next_cluster cluster v == free_cluster

abbrev pub with_free : List ClusterSpan → Volume → Volume
with_free spans v = record v { fat = record v.fat { free_clusters = spans } }

pub fat_mark_cluster_free : ℕ → Volume → Volume
unfolding write_to_fat
fat_mark_cluster_free cluster v =
    let w : Volume = (write_to_fat cluster free_cluster 1 v).volume in
    with_free (record { first_cluster = cluster; num_clusters = 1 } ∷ w.fat.free_clusters) w

-- What a loop of `fat_claim_clusters` comes to: it has returned, or clusters are still to be found.
pub data Claiming : Type 0 where
  claimed : Linked → Claiming
  wanting : ℕ → Linked → Claiming

-- The chain is ended and its last cluster returned.
pub end_chain : Linked → Linked
unfolding write_to_fat
end_chain l = record l {
  volume = (write_to_fat l.last_cluster l.volume.fat.eof_value 1 l.volume).volume;
}

-- One span joins the chain, of which `num_clusters` are wanted.
pub claim_span : ClusterSpan → ℕ → Linked → Claiming
unfolding write_to_fat end_chain
claim_span span num_clusters l =
    let grown : Linked =
      write_to_fat l.last_cluster span.first_cluster span.num_clusters l.volume in
    let left : ℕ = sub32 num_clusters span.num_clusters in
    if left == 0 then claimed (end_chain grown) else wanting left grown

-- The loop over the stack of freed clusters; its argument is the stack as it was at the start.
pub claim_listed : List ClusterSpan → ℕ → Linked → Claiming
unfolding claim_span
claim_listed [] num_clusters l = wanting num_clusters l
claim_listed (span ∷ spans) num_clusters l =
    elim (claim_span span num_clusters (record l { volume = with_free spans l.volume })) [
      | claimed done ↦ claimed done
      | wanting left grown ↦ claim_listed spans left grown
    ]

-- The inner loop of the search: where it stops, and the length of the span.
pub record Span : Type 0 where
  pub cluster : ℕ
  pub length : ℕ

pub extend_span : ℕ → Span → Volume → Span
unfolding fat_cluster_is_free
extend_span zero s v = s
extend_span (suc left) s v =
    let next : ℕ = add32 s.cluster 1 in
    let rest : Span = extend_span left (record { cluster = next; length = s.length + 1 }) v in
    if fat_cluster_is_free next v then rest else record s { cluster = next }

-- The search of the table, on fuel: the cluster grows in every round.
pub claim_searched : ℕ → ℕ → ℕ → Linked → Claiming
unfolding fat_cluster_is_free extend_span claim_span
claim_searched zero cluster num_clusters l = wanting num_clusters l
claim_searched (suc fuel) cluster num_clusters l = elim (ltb cluster l.volume.fat.num_clusters) [
  | false ↦ wanting num_clusters l
  | true ↦ elim (fat_cluster_is_free cluster l.volume) [
    | false ↦ claim_searched fuel (add32 cluster 1) num_clusters l
    | true ↦
        let found : Span =
          extend_span (num_clusters - 1) (record { cluster = cluster; length = 1 }) l.volume in
        elim (claim_span (record { first_cluster = cluster; num_clusters = found.length })
          num_clusters l) [
            | claimed done ↦ claimed done
            | wanting left grown ↦ claim_searched fuel (add32 found.cluster 1) left grown
          ]
  ]
]

-- With nothing left to find the table is searched no more; a failed search ends the chain it has made
-- and returns 0.
pub fat_claim_clusters : ℕ → ℕ → Volume → Linked
unfolding claim_listed claim_searched end_chain
fat_claim_clusters last_cluster num_clusters v =
    elim (claim_listed v.fat.free_clusters num_clusters
      (record { last_cluster = last_cluster; volume = v })) [
        | claimed done ↦ done
        | wanting left l ↦ elim (claim_searched v.fat.num_clusters 0 left l) [
          | claimed done ↦ done
          | wanting _ grown ↦ record (end_chain grown) { last_cluster = 0 }
        ]
      ]

-- The loop that skips the clusters a chain already has: how many are still wanted, after which one.
pub record Skipped : Type 0 where
  pub wanted : ℕ
  pub after : ℕ

unfoldable pub skip_allocated : ℕ → ℕ → Volume → Skipped
unfolding fat_get_next_cluster
skip_allocated last_cluster zero v = record { wanted = 0; after = last_cluster }
skip_allocated last_cluster (suc n) v =
    let next : ℕ = fat_get_next_cluster last_cluster v in
    let rest : Skipped = skip_allocated next n v in
    if next == v.fat.eof_value then record { wanted = suc n; after = last_cluster } else rest

-- The size reported, and the volume left.
pub record Allocated : Type 0 where
  pub size : ℕ
  pub volume : Volume

-- A 12-bit or 16-bit volume has a root directory of fixed size (`is_root` is FAT_ROOT_DIR_FLAG).
pub has_fixed_root : FatType → Bool
has_fixed_root fat_12 = true
has_fixed_root fat_16 = true
has_fixed_root _ = false

pub fat_allocate_clusters : ℕ → ℕ → Bool → Volume → Allocated
unfolding skip_allocated fat_claim_clusters has_fixed_root
fat_allocate_clusters start_cluster size_in_bytes is_root v =
    let cluster_size : ℕ = v.fat.cluster_size in
    let needed : ℕ = add32 size_in_bytes (sub32 cluster_size 1) / cluster_size in
    let s : Skipped = skip_allocated start_cluster needed v in
    let grown : Linked = fat_claim_clusters s.after s.wanted v in
    if has_fixed_root v.fat.type && is_root
    then record { size = mul32 v.fat.root_entries 32; volume = v }
    else if s.wanted == 0
    then record { size = size_in_bytes; volume = v }
    else record {
      size =
          if grown.last_cluster == 0
          then mul32 (sub32 needed grown.last_cluster) cluster_size
          else size_in_bytes;
      volume = grown.volume;
    }

-- The loop of `fat_delete_file` that makes the clusters available, for at most `num_clusters` of them.
pub free_chain : ℕ → ℕ → Volume → Volume
unfolding fat_get_next_cluster fat_mark_cluster_free
free_chain zero cluster v = v
free_chain (suc num_clusters) cluster v =
    let next : ℕ = fat_get_next_cluster cluster v in
    let rest : Volume = free_chain num_clusters next (fat_mark_cluster_free cluster v) in
    if next == v.fat.eof_value then v else rest
