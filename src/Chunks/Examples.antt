-- ===== src/Chunks/Examples.antt =====
-- The cut of a range of bytes into blocks of 512, and each theorem at such a range.
use jsd_os.Prelude.{◌≡◌, refl, arith}
use jsd_os.Prelude.Words.{add32, sub32}
use jsd_os.Chunks.{filesystem_chunkify, filesystem_chunkify_npow}
use jsd_os.Chunks.Split.{Cuts}
use jsd_os.Chunks.Wrapping.{chunkify-Cuts, chunkify-npow}

three_parts : filesystem_chunkify 1000 2000 511 9 ≡ record {
  start_chunk = 1;
  start_offset = 488;
  start_size = 24;
  num_full_chunks = 3;
  end_size = 440;
}
unfolding filesystem_chunkify add32 sub32
three_parts = refl

chunkify-Cuts_example : Cuts 1000 2000 512 (filesystem_chunkify 1000 2000 511 9)
chunkify-Cuts_example = chunkify-Cuts 1000 2000 9 (omega arith)

chunkify-npow_example : filesystem_chunkify 1000 2000 511 9 ≡ filesystem_chunkify_npow 1000 2000 512
chunkify-npow_example = chunkify-npow 1000 2000 9 (omega arith)
