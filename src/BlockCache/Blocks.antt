-- ===== src/BlockCache/Blocks.antt =====
-- `write_to_block` and `read_from_block` as accesses to the memory that the drive stands for.
use native.Mathlib.Nat.{div-add-mod', mod-lt, one-le-pow, mul-le-mul_right, add-mul}
use jsd_os.Prelude.{
  ℕ, ◌+◌, ◌-◌, ◌*◌, ◌/◌, ◌%◌, ◌^◌, ◌≤◌, ◌<◌, ◌≡◌, refl, ap, sym, subst, ◌∙◌, Bool, true, false,
  arith, ◌==◌, ◌&&◌, inl, inr, Bool-cases, ==_iff, ltb, leb,
}
use mathlib.Core.Path.{ap₂}
use jsd_os.Prelude.Words.{word, u32, sub32, sub32-eq}
use jsd_os.Physical.Align.{pow-pos}
use jsd_os.BlockCache.{
  Memory, Drive, memcpy, block_rw, blocks_to_bytes, write_to_block, read_from_block,
}
use jsd_os.BlockCache.Represents.{IsSized, line, base, Represents, Stands}
use jsd_os.BlockCache.Access.{SameSizes, block_rw-Ready, Represents-after}

pub IsSized-same : {d e : Drive} → IsSized d → SameSizes d e → IsSized e
IsSized-same {d} {e} g s = record {
  size_pow = s.same_size ∙ g.size_pow ∙ ap (λ x. 2 ^ x) (sym s.same_log2);
  ratio_pow = rw s.same_ratio g.ratio_pow;
  line_fits = rw (line-same s) g.line_fits;
  slots = rw s.same_slots (g.slots.0, g.slots.1, s.last_lt);
}
  where
    line-same : SameSizes d e → line e ≡ line d
    line-same s = ap₂ (λ a b. a * 2 ^ b) s.same_ratio s.same_log2

-- A block lies in its line.
block_in_line : (x r b : ℕ) → 0 < r → x % r * b + b ≤ r * b
block_in_line x r b p =
    let below : x % r + 1 ≤ r = omega (arith, mod-lt x p) in
    omega (arith, mul-le-mul_right b below, add-mul (x % r) 1 b)

line_start : (x r b : ℕ) → x / r * r * b + x % r * b ≡ x * b
line_start x r b =
    omega (arith, add-mul (x / r * r) (x % r) b, ap (λ (t : ℕ). t * b) (div-add-mod' x r))

whole_line :
    (d : Drive)
    → IsSized d
    → (n : ℕ) → (n == blocks_to_bytes d d.num_blocks_per_cache) ≡ true
    → n ≡ line d
unfolding blocks_to_bytes
whole_line d g n e = (==_iff _ _).0 e ∙ omega (arith, g.line_fits)

settle : (e : Drive) (m : Memory) (s : ℕ) → Stands e m s false → Represents e m
settle e m s t = record {
  lines = λ i o h v which k. t.lines i o h v (inr refl) k;
  behind = t.behind;
  unique = t.unique;
  aligned = t.aligned;
  kept = t.kept;
}

module _ (d : Drive) (m buffer : Memory) (g : IsSized d) (r : Represents d m) (block offset : ℕ)
    (buf : Memory) (at n : ℕ) (small : block < word)
    (in_block : offset + n ≤ 2 ^ d.block_size_log2) where
  abbrev result : Bool → ℕ × Drive
  result whole = block_rw d buffer block whole

  -- Where the access goes in the slot's line.
  abbrev place : Bool → ℕ
  place whole =
      let out = result whole in blocks_to_bytes d (sub32 block (out.1.cache out.0).index) + offset

  place-eq :
      (whole : Bool)
      → let out = result whole in
        (base out.1 (out.1.cache out.0) + place whole ≡ block * 2 ^ d.block_size_log2 + offset)
        × (place whole + n ≤ line out.1)
  unfolding blocks_to_bytes
  place-eq whole =
      let out = result whole in
      let q = block_rw-Ready d m buffer g r block whole small in
      let ratio : ℕ = d.num_blocks_per_cache in
      let b : ℕ = 2 ^ d.block_size_log2 in
      let split = div-add-mod' block ratio in
      let inside = block_in_line block ratio b (pow-pos g.ratio_pow) in
      let diff : sub32 block (out.1.cache out.0).index ≡ block % ratio =
        ap (sub32 block) q.holds
        ∙ sub32-eq block (block / ratio * ratio) (omega (arith, split)) small
        ∙ omega (arith, split) in
      let fits : block % ratio * b < word =
        omega (arith, inside, g.line_fits, one-le-pow d.block_size_log2 2) in
      let at_slot : place whole ≡ block % ratio * b + offset =
        ap (λ x. u32 (x * b) + offset) diff ∙ omega (arith, fits) in
      let start : base out.1 (out.1.cache out.0) ≡ block / ratio * ratio * b =
        ap₂ (λ x y. x * 2 ^ y) q.holds q.sizes.same_log2 in
      let whole_line : line out.1 ≡ line d =
        ap₂ (λ x y. x * 2 ^ y) q.sizes.same_ratio q.sizes.same_log2 in
      (
        omega (arith, at_slot, start, line_start block ratio b),
        omega (arith, at_slot, whole_line, inside),
      )

  pub write_to_block-Represents :
      Represents
        (write_to_block d buffer block offset buf at n)
        (memcpy m (block * 2 ^ d.block_size_log2 + offset) buf at n)
  unfolding write_to_block
  write_to_block-Represents =
      let whole : Bool = n == blocks_to_bytes d d.num_blocks_per_cache in
      let out = result whole in
      let q = block_rw-Ready d m buffer g r block whole small in
      let p = place-eq whole in
      let full = λ (e : whole ≡ true).
        whole_line d g n e ∙ sym (ap₂ (λ x y. x * 2 ^ y) q.sizes.same_ratio q.sizes.same_log2) in
      subst (λ a. Represents (write_to_block d buffer block offset buf at n) (memcpy m a buf at n))
        p.0
        (Represents-after out.1 m out.0 whole q.stands q.in_cache q.is_valid (place whole) n p.1
          full buf at)

  pub write_to_block-SameSizes : SameSizes d (write_to_block d buffer block offset buf at n)
  unfolding write_to_block
  write_to_block-SameSizes =
      let q =
        block_rw-Ready d m buffer g r block (n == blocks_to_bytes d d.num_blocks_per_cache) small in
      record {
        same_size = q.sizes.same_size;
        same_log2 = q.sizes.same_log2;
        same_ratio = q.sizes.same_ratio;
        same_buffer = q.sizes.same_buffer;
        same_slots = q.sizes.same_slots;
        last_lt = q.sizes.last_lt;
      }

  pub read_from_block-Represents : Represents (read_from_block d buffer block offset buf at n).1 m
  unfolding read_from_block
  read_from_block-Represents = settle _ m _ (block_rw-Ready d m buffer g r block false small).stands

  pub read_from_block-SameSizes : SameSizes d (read_from_block d buffer block offset buf at n).1
  unfolding read_from_block
  read_from_block-SameSizes = (block_rw-Ready d m buffer g r block false small).sizes

  -- `read_from_block` copies the bytes that the drive stands for, whatever the cache holds, and leaves
  -- the rest of the buffer as it was; the bytes are to lie in one block, whose number is below 2 ^ 32.
  pub read_from_block_lem :
      (i : ℕ)
      → (read_from_block d buffer block offset buf at n).0 i
        ≡ memcpy buf at m (block * 2 ^ d.block_size_log2 + offset) n i
  unfolding read_from_block memcpy
  read_from_block_lem i =
      let out = result false in
      let q = block_rw-Ready d m buffer g r block false small in
      let p = place-eq false in
      let o : ℕ = place false + (i - at) in
      elim (Bool-cases (leb at i && ltb i (at + n))) [
        | inl in_range ↦
            let held =
              q.stands.lines out.0 o q.in_cache q.is_valid (inr refl)
                (ground (arith, in_range, p)) in
            let same : base out.1 (out.1.cache out.0) + o
                ≡ block * 2 ^ d.block_size_log2 + offset + (i - at) =
              omega (arith, p) in
            rw in_range (held ∙ ap m same)
        | inr beside ↦ rw beside refl
      ]
