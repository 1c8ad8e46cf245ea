-- ===== src/BlockCache/Writing.antt =====
-- kernel/filesystem/drives.cpp: `filesystem_write_to_disk` through the cache.
use native.Mathlib.Nat.{one-le-pow}
use jsd_os.Prelude.{
  ℕ, zero, suc, ◌+◌, ◌-◌, ◌*◌, ◌^◌, ◌≤◌, ◌<◌, ◌≡◌, ◌⊎◌, ◌≢◌, inl, inr, refl, ap, sym, subst, ◌∙◌,
  fun_ext, true, false, arith, ◌==◌, ◌&&◌, ltb, not, Bool-cases, ==_iff,
}
use jsd_os.Prelude.Words.{word, add32, add32-eq}
use jsd_os.Chunks.{FsChunks, filesystem_chunkify}
use jsd_os.Chunks.Split.{Cuts}
use jsd_os.Chunks.Wrapping.{chunkify-Cuts}
use jsd_os.BlockCache.{Memory, Drive, memcpy, write_to_block, supports_byte_access}
use jsd_os.BlockCache.Represents.{IsSized, Represents}
use jsd_os.BlockCache.Access.{SameSizes}
use jsd_os.BlockCache.Blocks.{IsSized-same, write_to_block-Represents, write_to_block-SameSizes}
use jsd_os.BlockCache.Disk.{
  Cursor, write_start, write_chunks, write_full, write_end, filesystem_write_to_disk,
}

memcpy-zero : (m : Memory) (a : ℕ) (buf : Memory) (p : ℕ) → memcpy m a buf p 0 ≡ m
unfolding memcpy
memcpy-zero m a buf p = fun_ext λ i. ground arith

-- Two copies of adjacent parts make up one.
memcpy-append :
    (m : Memory) (a : ℕ) (buf : Memory) (k n : ℕ)
    → memcpy (memcpy m a buf 0 k) (a + k) buf k n ≡ memcpy m a buf 0 (k + n)
unfolding memcpy
memcpy-append m a buf k n = fun_ext λ i. at i
  where
    at : (i : ℕ) → memcpy (memcpy m a buf 0 k) (a + k) buf k n i ≡ memcpy m a buf 0 (k + n) i
    at i = ground arith

-- The first `k` bytes of the write to address `a` are done, at drive sizes `log2` and so on.
record Wrote (d : Drive) (m : Memory) (a : ℕ) (buf : Memory) (k : ℕ) (e : Drive) : Type 0 where
  sized : IsSized e
  same : SameSizes d e
  stands : Represents e (memcpy m a buf 0 k)

SameSizes-trans : {d e f : Drive} → SameSizes d e → SameSizes e f → SameSizes d f
SameSizes-trans s t = record {
  same_size = t.same_size ∙ s.same_size;
  same_log2 = t.same_log2 ∙ s.same_log2;
  same_ratio = t.same_ratio ∙ s.same_ratio;
  same_buffer = t.same_buffer ∙ s.same_buffer;
  same_slots = t.same_slots ∙ s.same_slots;
  last_lt = omega (arith, t.last_lt, s.same_slots);
}

module _ (d : Drive) (m buffer buf : Memory) (a : ℕ) where
  part-Wrote :
      (e : Drive) (k block offset n : ℕ)
      → Wrote d m a buf k e
      → block < word
      → offset + n ≤ 2 ^ d.block_size_log2
      → block * 2 ^ d.block_size_log2 + offset ≡ a + k
      → Wrote d m a buf (k + n) (write_to_block e buffer block offset buf k n)
  part-Wrote e k block offset n w small fits place =
      let size = ap (λ x. 2 ^ x) w.same.same_log2 in
      let in_block : offset + n ≤ 2 ^ e.block_size_log2 = omega (arith, size) in
      let here : block * 2 ^ e.block_size_log2 + offset ≡ a + k =
        ap (λ x. block * x + offset) size ∙ place in
      let next =
        write_to_block-SameSizes e (memcpy m a buf 0 k) buffer w.sized w.stands block offset buf k n
          small in_block in
      record {
        sized = IsSized-same w.sized next;
        same = SameSizes-trans w.same next;
        stands =
            subst (Represents (write_to_block e buffer block offset buf k n))
              (memcpy-append m a buf k n)
              (subst
                (λ x.
                  Represents (write_to_block e buffer block offset buf k n)
                    (memcpy (memcpy m a buf 0 k) x buf k n))
                here
                (write_to_block-Represents e (memcpy m a buf 0 k) buffer w.sized w.stands block
                  offset buf k n small in_block));
      }

  -- A cursor that stands at a block boundary, behind the bytes that are done.
  record AtBlock (s : Cursor) : Type 0 where
    wrote : Wrote d m a buf s.at s.drive
    place : s.block * 2 ^ d.block_size_log2 ≡ a + s.at

  chunks-AtBlock :
      (g : IsSized d) (count : ℕ) (s : Cursor)
      → AtBlock s
      → s.block + count < word
      → let t = write_chunks buffer buf count s in
        AtBlock t × (t.at ≡ s.at + count * 2 ^ d.block_size_log2) × (t.block ≡ s.block + count)
  unfolding write_chunks
  chunks-AtBlock g zero s w h = (w, omega arith, omega arith)
  chunks-AtBlock g (suc count) s w h =
      let full : s.drive.block_size ≡ 2 ^ d.block_size_log2 = w.wrote.same.same_size ∙ g.size_pow in
      let next : add32 s.block 1 ≡ s.block + 1 = add32-eq s.block 1 (omega arith) in
      let t : Cursor = record {
        drive = write_to_block s.drive buffer s.block 0 buf s.at s.drive.block_size;
        block = add32 s.block 1;
        at = s.at + s.drive.block_size;
      } in
      let ready : AtBlock t = record {
        wrote =
            part-Wrote s.drive s.at s.block 0 s.drive.block_size w.wrote (omega arith)
              (omega (arith, full)) (omega (arith, w.place));
        place = ap (λ x. x * 2 ^ d.block_size_log2) next ∙ omega (arith, w.place, full);
      } in
      let rest = chunks-AtBlock g count t ready (omega (arith, next)) in
      (rest.0, omega (arith, rest, full), omega (arith, rest, next))

  nothing-Wrote : IsSized d → Represents d m → Wrote d m a buf 0 d
  nothing-Wrote g r = record {
    sized = g;
    same = record {
      same_size = refl;
      same_log2 = refl;
      same_ratio = refl;
      same_buffer = refl;
      same_slots = refl;
      last_lt = g.slots.2;
    };
    stands = subst (Represents d) (sym (memcpy-zero m a buf 0)) r;
  }

  -- Where a cursor stands after `k` bytes, of the `n` bytes of the write.
  abbrev Reached : ℕ → ℕ → ℕ → Cursor → Type 0
  Reached n k last t =
      Wrote d m a buf t.at t.drive
      × (t.at ≡ k)
      × (t.block ≤ last)
      × ((k ≡ n) ⊎ (t.block * 2 ^ d.block_size_log2 ≡ a + k))

  start-Reached :
      (g : IsSized d) (n : ℕ) (c : FsChunks) (offset block : ℕ)
      → Cuts offset n (2 ^ d.block_size_log2) c
      → Represents d m
      → block + 1 < word
      → block * 2 ^ d.block_size_log2 + c.start_offset ≡ a
      → Reached n c.start_size
          (block + 1)
          (write_start buffer buf c (record { drive = d; block = block; at = 0 }))
  unfolding write_start
  start-Reached g n c offset block cuts r h place = elim (Bool-cases (c.start_size == 0)) [
    | inl e ↦
        let z : c.start_size ≡ 0 = (==_iff _ _).0 e in
        rw e (
          nothing-Wrote g r,
          sym z,
          omega arith,
          ground (arith, z, cuts.start_ends, cuts.offset_lt),
        )
    | inr e ↦
        let next = add32-eq block 1 h in
        rw e (
          part-Wrote d 0 block c.start_offset c.start_size (nothing-Wrote g r) (omega arith)
              cuts.start_fits (omega (arith, place)),
          omega arith,
          omega (arith, next),
          behind next (ground (arith, e)) cuts.start_ends,
        )
  ]
    where
      behind :
          add32 block 1 ≡ block + 1
          → c.start_size ≢ 0
          → (c.start_size ≡ n)
            ⊎ (c.start_offset + c.start_size ≡ 2 ^ d.block_size_log2)
            ⊎ ((c.start_offset ≡ 0) × (c.start_size ≡ 0))
          → (c.start_size ≡ n) ⊎ (add32 block 1 * 2 ^ d.block_size_log2 ≡ a + c.start_size)
      behind next ne (inl all) = inl all
      behind next ne (inr (inl full)) =
          inr (ap (λ x. x * 2 ^ d.block_size_log2) next ∙ omega (arith, place, full))
      behind next ne (inr (inr (_, none))) = absurd (ne none)

  end-Wrote :
      (n : ℕ) (c : FsChunks) (s : Cursor) (last : ℕ)
      → Reached n s.at last s
      → s.at + c.end_size ≡ n
      → last < word
      → c.end_size < 2 ^ d.block_size_log2
      → Wrote d m a buf n (write_end buffer buf c s)
  unfolding write_end
  end-Wrote n c s last (w, _, low, place) sum small h = elim (Bool-cases (c.end_size == 0)) [
    | inl e ↦
        let z : c.end_size ≡ 0 = (==_iff _ _).0 e in
        rw e (subst (λ k. Wrote d m a buf k s.drive) (omega (arith, sum, z)) w)
    | inr e ↦ rw e (
        subst (λ k. Wrote d m a buf k (write_to_block s.drive buffer s.block 0 buf s.at c.end_size))
          sum
          (part-Wrote s.drive s.at s.block 0 c.end_size w (omega arith) (omega arith)
            (omega (arith, still place (ground (arith, e))))))
  ]
    where
      still :
          (s.at ≡ n) ⊎ (s.block * 2 ^ d.block_size_log2 ≡ a + s.at)
          → c.end_size ≢ 0
          → s.block * 2 ^ d.block_size_log2 ≡ a + s.at
      still (inl all) ne = absurd (ne (omega (arith, all, sum)))
      still (inr at_block) ne = at_block

  some_chunk : (count : ℕ) → count ≢ 0 → 2 ^ d.block_size_log2 ≤ count * 2 ^ d.block_size_log2
  some_chunk count ne = let pos : 1 ≤ count = omega arith in grind (arith, pos)

  full-Reached :
      (g : IsSized d) (n : ℕ) (c : FsChunks) (offset last : ℕ) (s : Cursor)
      → Cuts offset n (2 ^ d.block_size_log2) c
      → (d.needs_buffer ≡ true) ⊎ (c.num_full_chunks ≤ 1)
      → last + c.num_full_chunks < word
      → Reached n c.start_size last s
      → Reached n
          (c.start_size + c.num_full_chunks * 2 ^ d.block_size_log2)
          (last + c.num_full_chunks)
          (write_full buffer buf c s)
  unfolding write_full
  full-Reached g n c offset last s cuts by small (w, at_start, low, place) =
      elim (Bool-cases (c.num_full_chunks == 0)) [
        | inl e ↦
            let z : c.num_full_chunks ≡ 0 = (==_iff _ _).0 e in
            let none : c.start_size + c.num_full_chunks * 2 ^ d.block_size_log2 ≡ c.start_size =
              ap (λ x. c.start_size + x * 2 ^ d.block_size_log2) z ∙ omega arith in
            rw e (w, at_start ∙ sym none, omega arith, rw none place)
        | inr e ↦
            let buffered : (not s.drive.needs_buffer && ltb 1 c.num_full_chunks) ≡ false =
              ground (arith, by, w.same.same_buffer) in
            let whole = some_chunk c.num_full_chunks (ground (arith, e)) in
            let t =
              chunks-AtBlock g c.num_full_chunks s
                (record { wrote = w; place = at_block whole place }) (omega arith) in
            rw (e, buffered)
              (
                t.0.wrote,
                omega (arith, t.1, at_start),
                omega (arith, t.2),
                inr (t.0.place ∙ omega (arith, t.1, at_start)),
              )
      ]
    where
      at_block :
          2 ^ d.block_size_log2 ≤ c.num_full_chunks * 2 ^ d.block_size_log2
          → (c.start_size ≡ n) ⊎ (s.block * 2 ^ d.block_size_log2 ≡ a + c.start_size)
          → s.block * 2 ^ d.block_size_log2 ≡ a + s.at
      at_block whole (inl all) =
          absurd (omega (arith, whole, all, cuts.complete, one-le-pow d.block_size_log2 2))
      at_block whole (inr here) = here ∙ omega (arith, at_start)

le_times : (x b : ℕ) → 1 ≤ b → x ≤ x * b
le_times x b h = grind arith

-- The whole of `filesystem_write_to_disk`, where blocks go through the cache one by one.
module _ (d : Drive) (m buffer buf : Memory) (g : IsSized d) (r : Represents d m) where
  -- For a drive that goes through its cache and stands for the bytes `m`, `filesystem_write_to_disk` of
  -- `n` bytes at an offset of a block leaves a drive that stands for `m` with those bytes written there,
  -- where the driver needs buffers or the write has at most one whole block, and the range does not wrap.
  pub write_to_disk-Represents :
      (block_num offset n : ℕ)
      → supports_byte_access d ≡ false
      → block_num + offset + n + 1 < word
      → let c = filesystem_chunkify offset n (d.block_size - 1) d.block_size_log2 in
        (d.needs_buffer ≡ true) ⊎ (c.num_full_chunks ≤ 1)
        → Represents
            (filesystem_write_to_disk buffer buf d block_num offset n)
            (memcpy m (block_num * 2 ^ d.block_size_log2 + offset) buf 0 n)
  unfolding filesystem_write_to_disk
  write_to_disk-Represents block_num offset n blocks small by =
      let b : ℕ = 2 ^ d.block_size_log2 in
      let a : ℕ = block_num * b + offset in
      let c : FsChunks = filesystem_chunkify offset n (d.block_size - 1) d.block_size_log2 in
      let pos : 1 ≤ b = one-le-pow d.block_size_log2 2 (omega arith) in
      let cuts : Cuts offset n b c =
        rw g.size_pow (chunkify-Cuts offset n d.block_size_log2 (omega arith)) in
      let few = le_times c.start_chunk b pos in
      let some_full = le_times c.num_full_chunks b pos in
      let first : add32 block_num c.start_chunk ≡ block_num + c.start_chunk =
        add32-eq block_num c.start_chunk (omega (arith, few, cuts.located)) in
      let place : add32 block_num c.start_chunk * b + c.start_offset ≡ a =
        ap (λ x. x * b + c.start_offset) first ∙ omega (arith, cuts.located) in
      let fits : add32 block_num c.start_chunk + 1 + c.num_full_chunks < word =
        omega (arith, first, few, some_full, cuts.located, cuts.complete) in
      let started =
        start-Reached d m buffer buf a g n c offset (add32 block_num c.start_chunk) cuts r
          (omega (arith, fits)) place in
      let full =
        full-Reached d m buffer buf a g n c offset (add32 block_num c.start_chunk + 1) _ cuts by
          fits started in
      rw blocks
        (end-Wrote d m buffer buf a n c _ _ (full.0, refl, full.2, rw full.1 full.3)
          (omega (arith, full.1, cuts.complete)) fits cuts.end_lt).stands
