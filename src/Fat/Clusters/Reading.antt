-- ===== src/Fat/Clusters/Reading.antt =====
-- drivers/formats/fat.cpp: `fat_read`, over the bytes of the partition. Blocks' addresses are taken not to wrap.
use jsd_os.Prelude.{
  ℕ, zero, suc, ◌+◌, ◌-◌, ◌*◌, ◌≤◌, ◌<◌, ◌≡◌, ◌≢◌, refl, ap, sym, ◌∙◌, bit_and, Bool, true, false,
  not, ◌&&◌, List, [], ◌∷◌, ◌++◌, bytes_at, ltb, leb, ◌==◌, if◌then◌else◌, subst, ℕ_discrete, arith,
}
use jsd_os.Prelude.Words.{word, u32, add32}
use jsd_os.Chunks.{FsChunks, filesystem_chunkify}
use jsd_os.Fat.{Volume, fat_get_next_cluster}
use jsd_os.Fat.Boot.{fat_cluster_to_block}
use jsd_os.Fat.Entries.{fat_root_dir_flag}
use jsd_os.Fat.Clusters.{fat_get_relative_cluster, has_fixed_root}
pub mod Contents

-- The cluster that `fat_read` returns and the bytes that it puts into the buffer.
pub record FileRead : Type 0 where
  pub cluster : ℕ
  pub contents : List ℕ

-- Where the blocks of a cluster start on the partition.
abbrev pub cluster_place : Volume → ℕ → ℕ
cluster_place v cluster = fat_cluster_to_block v.fat cluster * v.block_size

-- The loop over full clusters.
pub read_clusters : ℕ → ℕ → Volume → FileRead
unfolding fat_get_next_cluster
read_clusters zero cluster v = record { cluster = cluster; contents = [] }
read_clusters (suc num_clusters) cluster v =
    let rest : FileRead = read_clusters num_clusters (fat_get_next_cluster cluster v) v in
    if ltb cluster v.fat.eof_value
    then record rest {
      contents = bytes_at v.fat.cluster_size (cluster_place v cluster + 0) v.bytes ++ rest.contents;
    }
    else record { cluster = cluster; contents = [] }

-- What `fat_read` does with the chunks, from the cluster of the first.
pub read_from_cluster : FsChunks → ℕ → Volume → FileRead
unfolding fat_get_next_cluster read_clusters
read_from_cluster chunks cluster v =
    let start : List ℕ =
      if chunks.start_size == 0
      then []
      else bytes_at chunks.start_size (cluster_place v cluster + chunks.start_offset) v.bytes in
    let next : ℕ = if chunks.start_size == 0 then cluster else fat_get_next_cluster cluster v in
    let full : FileRead = read_clusters chunks.num_full_chunks next v in
    let last : List ℕ =
      if not (chunks.end_size == 0) && ltb full.cluster v.fat.eof_value
      then bytes_at chunks.end_size (cluster_place v full.cluster + 0) v.bytes
      else [] in
    record { cluster = full.cluster; contents = start ++ (full.contents ++ last) }

pub fat_read : ℕ → ℕ → ℕ → ℕ → Volume → FileRead
unfolding read_from_cluster fat_get_relative_cluster has_fixed_root
fat_read start_cluster offset size flags v =
    let chunks : FsChunks =
      filesystem_chunkify offset size (v.fat.cluster_size - 1) v.fat.cluster_size_log2 in
    let cluster : ℕ = fat_get_relative_cluster start_cluster chunks.start_chunk v in
    if leb v.fat.eof_value start_cluster
    then record { cluster = start_cluster; contents = [] }
    else if has_fixed_root v.fat.type && not (bit_and flags fat_root_dir_flag == 0)
    then record {
      cluster = bit_and (u32 offset) (v.fat.bytes_per_sector - 1);
      contents =
          bytes_at size (add32 v.fat.root_location start_cluster * v.block_size + u32 offset)
            v.bytes;
    }
    else if leb v.fat.eof_value cluster
    then record { cluster = cluster; contents = [] }
    else read_from_cluster chunks cluster v
