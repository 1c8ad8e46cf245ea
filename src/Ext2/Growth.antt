-- ===== src/Ext2/Growth.antt =====
-- drivers/formats/ext2.cpp: `ext2_allocate_blocks`.
use jsd_os.Prelude.{ℕ, ◌-◌, ◌*◌, ◌≤◌, ◌<◌, ◌≡◌, ap, arith}
use jsd_os.Prelude.Words.{word, add32, sub32, ◌>>>◌}
use jsd_os.Ext2.{Ext2Fs, Inode, extend_file, ext2_allocate_blocks}

-- The blocks that a number of bytes takes, as the code counts them.
unfoldable pub blocks_for : ℕ → Ext2Fs → ℕ
unfolding add32
blocks_for size fs = add32 size (fs.block_size - 1) >>> fs.log2_block_size

no_rounds :
    (needed allocated : ℕ)
    → allocated ≤ needed
    → needed ≤ 2 * allocated
    → needed < word
    → sub32 needed allocated - allocated ≡ 0
unfolding sub32
no_rounds needed allocated grows small bounded = omega (arith, grows, small, bounded)

-- Where a file is to grow to at most twice the blocks it has, `ext2_allocate_blocks` allocates none, and
-- still reports the size asked for.
pub allocate_blocks_none :
    (size : ℕ) (inod : Inode) (fs : Ext2Fs)
    → blocks_for inod.size fs ≤ blocks_for size fs
    → blocks_for size fs ≤ 2 * blocks_for inod.size fs
    → blocks_for size fs < word
    → ext2_allocate_blocks size inod fs ≡ (size, inod, fs)
unfolding ext2_allocate_blocks blocks_for extend_file
allocate_blocks_none size inod fs grows small bounded =
    let rounds : sub32 (blocks_for size fs) (blocks_for inod.size fs) - blocks_for inod.size fs
        ≡ 0 =
      no_rounds (blocks_for size fs) (blocks_for inod.size fs) grows small bounded in
    ap
      (λ n.
        let r : Inode × Ext2Fs = extend_file n (blocks_for inod.size fs) inod fs in
        (size, r.0, r.1))
      rounds
