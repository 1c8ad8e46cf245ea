-- ===== src/Physical/Claim.antt =====
-- kernel/physical_manager.cpp: `claim_from_block`.
use jsd_os.Prelude.{ℕ, ◌+◌, ◌≤◌, ◌<◌, ◌≡◌, arith, not, ◌&&◌, length}
use jsd_os.Prelude.Words.{word, add32, sub32}
use jsd_os.Physical.{Block, claim_from_block}
use jsd_os.Physical.Regions.{within, free_at, Ordered, total}

module _ (b : Block) (offset size : ℕ) (fits : size + offset ≤ b.length)
    (bounded : b.offset + b.length < word) where
  pub free_at-claim :
      (a : ℕ)
      → free_at a (claim_from_block b offset size)
        ≡ (within a b.offset b.length && not (within a (b.offset + offset) size))
  unfolding claim_from_block add32 sub32
  free_at-claim a = ground arith

  pub claim-Ordered : Ordered (b.offset + b.length) b.offset (claim_from_block b offset size)
  unfolding claim_from_block add32 sub32
  claim-Ordered = ground arith

  pub total-claim : total (claim_from_block b offset size) + size ≡ b.length
  unfolding claim_from_block add32 sub32
  total-claim = ground arith

  pub length-claim : length (claim_from_block b offset size) ≤ 2
  unfolding claim_from_block add32 sub32
  length-claim = ground arith
