-- ===== src/Chunks/Split.antt =====
-- kernel/filesystem/util.h: the cut of a range as arithmetic on unbounded numbers.
use native.Mathlib.Nat.{
  div-add-mod', mod-lt, mul-add-mod_self_right, mul-mod_left, mod-eq_of_lt, mul-div_cancel,
  zero-div, add-zero,
}
use jsd_os.Prelude.{
  ℕ, suc, ◌+◌, ◌-◌, ◌*◌, ◌/◌, ◌%◌, ◌≤◌, ◌<◌, ◌≡◌, ◌⊎◌, inl, inr, refl, ap, ◌∙◌, ◌≢◌, arith, dec_lt,
  ℕ_discrete, ◌==◌, if◌then◌else◌,
}
use jsd_os.Chunks.{FsChunks}

-- The cut with no word in the way.
abbrev pub split : ℕ → ℕ → ℕ → FsChunks
split offset length size =
    let end : ℕ =
      if offset / size == (offset + length) / size then 0 else (offset + length) % size in
    let start : ℕ = (length - end) % size in
    record {
      start_chunk = offset / size;
      start_offset = offset % size;
      start_size = start;
      num_full_chunks = (length - (start + end)) / size;
      end_size = end;
    }

-- `c` cuts the `length` bytes from `offset` on at the multiples of `size`, and nowhere else: a first
-- part that stays in its chunk and ends with it unless the range does, whole chunks, and a last part.
pub record Cuts (offset length size : ℕ) (c : FsChunks) : Type 0 where
  pub located : c.start_chunk * size + c.start_offset ≡ offset
  pub offset_lt : c.start_offset < size
  pub complete : c.start_size + c.num_full_chunks * size + c.end_size ≡ length
  pub start_fits : c.start_offset + c.start_size ≤ size
  pub end_lt : c.end_size < size
  pub start_ends :
      (c.start_size ≡ length)
      ⊎ (c.start_offset + c.start_size ≡ size)
      ⊎ ((c.start_offset ≡ 0) × (c.start_size ≡ 0))

no_less : (f t size s e l : ℕ) → f * size + s + l ≡ t * size + e → e < size → f ≢ t → f < t
no_less f t size s e l h k ne = grind arith

gap :
    (f t size s e l : ℕ)
    → f * size + s + l ≡ t * size + e
    → e < size
    → f ≢ t
    → l + s ≡ ((t - f - 1) * size + size) + e
gap f t size s e l h k ne =
    let lt = no_less f t size s e l h k ne in
    let whole : t ≡ f + 1 + (t - f - 1) = omega arith in
    omega (arith, ap (λ (x : ℕ). x * size) whole)

module _ (size : ℕ) (pos : 0 < size) where
  whole :
      (offset length : ℕ)
      → offset / size * size + offset % size + length
        ≡ (offset + length) / size * size + (offset + length) % size
  whole offset length = omega (arith, div-add-mod' offset size, div-add-mod' (offset + length) size)

  -- The range stays in one chunk.
  one_chunk :
      (offset length : ℕ) → offset / size ≡ (offset + length) / size → offset % size + length < size
  one_chunk offset length e =
      omega (arith, whole offset length, ap (λ (x : ℕ). x * size) e, mod-lt (offset + length) pos)

  -- The range reaches into a later chunk, `d` whole chunks behind the next one.
  later_chunk :
      (offset length : ℕ)
      → offset / size ≢ (offset + length) / size
      → (d : ℕ) × (length + offset % size ≡ (d * size + size) + (offset + length) % size)
  later_chunk offset length ne = (
    (offset + length) / size - offset / size - 1,
    gap (offset / size) ((offset + length) / size) size (offset % size) _ length
        (whole offset length) (mod-lt (offset + length) pos) ne,
  )

  -- The first part of such a range, where it does not begin with its chunk.
  inner_start : (d s : ℕ) → 0 < s → s < size → (d * size + size - s) % size ≡ size - s
  inner_start d s p h =
      let regroup : d * size + size - s ≡ d * size + (size - s) = omega arith in
      rw regroup (mul-add-mod_self_right d size (size - s) ∙ mod-eq_of_lt (omega arith))

  split_one :
      (offset length : ℕ)
      → offset / size ≡ (offset + length) / size
      → split offset length size ≡ record {
        start_chunk = offset / size;
        start_offset = offset % size;
        start_size = length;
        num_full_chunks = 0;
        end_size = 0;
      }
  split_one offset length e =
      let small = one_chunk offset length e in
      let start : length % size ≡ length = mod-eq_of_lt (omega arith) in
      ground (arith, start, zero-div size)

  abbrev later : ℕ → ℕ → ℕ → ℕ → FsChunks
  later offset length start full = record {
    start_chunk = offset / size;
    start_offset = offset % size;
    start_size = start;
    num_full_chunks = full;
    end_size = (offset + length) % size;
  }

  split-later :
      (offset length start full : ℕ)
      → offset / size ≢ (offset + length) / size
      → length ≡ start + full * size + (offset + length) % size
      → (full * size + start) % size ≡ start
      → split offset length size ≡ later offset length start full
  split-later offset length start full ne sum first =
      let front : length - (offset + length) % size ≡ full * size + start = omega (arith, sum) in
      let rest : length - (start + (offset + length) % size) ≡ full * size = omega (arith, sum) in
      let cut : (length - (offset + length) % size) % size ≡ start = rw front first in
      ground (arith, cut, rest, mul-div_cancel full pos)

  Cuts-later :
      (offset length start full : ℕ)
      → length ≡ start + full * size + (offset + length) % size
      → (offset % size + start ≡ size) ⊎ ((offset % size ≡ 0) × (start ≡ 0))
      → Cuts offset length size (later offset length start full)
  Cuts-later offset length start full sum ends = record {
    located = div-add-mod' offset size;
    offset_lt = mod-lt offset pos;
    complete = omega (arith, sum);
    start_fits = omega (arith, ends, mod-lt offset pos);
    end_lt = mod-lt (offset + length) pos;
    start_ends = inr ends;
  }

  Cuts-one :
      (offset length : ℕ)
      → offset / size ≡ (offset + length) / size
      → Cuts offset length size (split offset length size)
  Cuts-one offset length e = rw (split_one offset length e) (record {
    located = div-add-mod' offset size;
    offset_lt = mod-lt offset pos;
    complete = omega arith;
    start_fits = omega (arith, one_chunk offset length e);
    end_lt = pos;
    start_ends = inl refl;
  })

  Cuts-split_later :
      (offset length : ℕ)
      → offset / size ≢ (offset + length) / size
      → Cuts offset length size (split offset length size)
  Cuts-split_later offset length ne =
      let (d, sum) = later_chunk offset length ne in
      elim (dec_lt 0 (offset % size)) [
        | yes inner ↦
            let lt = mod-lt offset pos in
            let parts : length ≡ (size - offset % size) + d * size + (offset + length) % size =
              omega (arith, sum, lt) in
            let regroup : d * size + (size - offset % size) ≡ d * size + size - offset % size =
              omega (arith, lt) in
            rw
              (split-later offset length (size - offset % size) d ne parts
                (rw regroup (inner_start d (offset % size) inner lt)))
              (Cuts-later offset length (size - offset % size) d parts (inl (omega (arith, lt))))
        | no outer ↦
            let at_start : offset % size ≡ 0 = omega arith in
            let parts : length ≡ 0 + suc d * size + (offset + length) % size = omega (arith, sum) in
            let front : (suc d * size + 0) % size ≡ 0 =
              ap (λ (x : ℕ). x % size) (add-zero (suc d * size)) ∙ mul-mod_left (suc d) size in
            rw (split-later offset length 0 (suc d) ne parts front)
              (Cuts-later offset length 0 (suc d) parts (inr (at_start, refl)))
      ]

  pub split-Cuts : (offset length : ℕ) → Cuts offset length size (split offset length size)
  split-Cuts offset length = elim (ℕ_discrete (offset / size) ((offset + length) / size)) [
    | yes e ↦ Cuts-one offset length e
    | no ne ↦ Cuts-split_later offset length ne
  ]
