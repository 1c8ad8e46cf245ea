-- ===== src/Paging/Range.antt =====
-- kernel/memorymanager.cpp: the entries of consecutive pages.
use jsd_os.Prelude.{
  ℕ, suc, ◌+◌, ◌-◌, ◌*◌, ◌/◌, ◌≤◌, ◌<◌, ◌≡◌, ◌≢◌, ◌⊎◌, inl, inr, refl, ap, sym, ◌∙◌, ℕ_discrete,
  arith,
}
use jsd_os.Prelude.Words.{word, add32}
use jsd_os.Paging.{AddressSpace, page_size, memmanager_get_pt_entry}
use jsd_os.Paging.Mapping.{HasTable, Kept, Mapped, entry-same, HasTable-same}

abbrev pub InRange : ℕ → ℕ → ℕ → Type 0
InRange v n w = (v / 0x1000 ≤ w / 0x1000) × (w / 0x1000 < v / 0x1000 + n)

abbrev pub OutOfRange : ℕ → ℕ → ℕ → Type 0
OutOfRange v n w = (w / 0x1000 < v / 0x1000) ⊎ (v / 0x1000 + n ≤ w / 0x1000)

-- The `n` pages from the one of `v` on have the entries `value`, and no other page has lost its own.
pub record Range (v n : ℕ) (value : ℕ → ℕ) (s t : AddressSpace) : Type 0 where
  pub entries :
      (w : ℕ)
      → w < word
      → InRange v n w
      → HasTable w t × (memmanager_get_pt_entry w t ≡ value (w / 0x1000 - v / 0x1000))
  pub others : Kept (OutOfRange v n) s t

pub empty-Range : (v : ℕ) → (value : ℕ → ℕ) → (s : AddressSpace) → Range v 0 value s s
empty-Range v value s = record {
  entries = λ w small (low, high). absurd (omega (arith, low, high));
  others = λ w small out there. (there, refl);
}

pub values-Range :
    (v n : ℕ)
    → (f g : ℕ → ℕ) → (s t : AddressSpace) → ((i : ℕ) → i < n → f i ≡ g i)
    → Range v n f s t
    → Range v n g s t
values-Range v n f g s t same r = record {
  entries = λ w small (low, high).
      let (there, entry) = r.entries w small (low, high) in
      (there, entry ∙ same (w / 0x1000 - v / 0x1000) (omega (arith, low, high)));
  others = r.others;
}

module _ (v p flags left : ℕ) (value : ℕ → ℕ) (s t u : AddressSpace) (v_small : v < word)
    (fits : v / 0x1000 + suc left ≤ 0x10_0000) (first : p / 0x1000 * 0x1000 + flags ≡ value 0)
    (mapped : Mapped v p flags s t)
    (rest : Range (add32 v page_size) left (λ i. value (suc i)) t u) where
  -- The next page, or the start of the address space behind its last page.
  next :
      (add32 v page_size / 0x1000 ≡ v / 0x1000 + 1) ⊎ (left ≡ 0) × (add32 v page_size / 0x1000 ≡ 0)
  unfolding add32
  next = elim (ℕ_discrete (v / 0x1000) 0xf_ffff) [
    | yes e ↦ inr (omega (arith, fits, e), omega (arith, e, v_small))
    | no n ↦ inl (omega (arith, fits, n, v_small))
  ]

  before : (w : ℕ) → w / 0x1000 ≤ v / 0x1000 → OutOfRange (add32 v page_size) left w
  before w low = elim next [
    | inl e ↦ inl (omega (arith, e, low))
    | inr (none, e) ↦ inr (omega (arith, none, e))
  ]

  after : (w : ℕ) → v / 0x1000 + suc left ≤ w / 0x1000 → OutOfRange (add32 v page_size) left w
  after w high = elim next [
    | inl e ↦ inr (omega (arith, e, high))
    | inr (none, e) ↦ inr (omega (arith, none, e))
  ]

  page :
      (w : ℕ)
      → w < word
      → w / 0x1000 ≡ v / 0x1000
      → HasTable w u × (memmanager_get_pt_entry w u ≡ value (w / 0x1000 - v / 0x1000))
  page w small same =
      let (there, kept) =
        rest.others w small (before w (omega (arith, same)))
          (HasTable-same w v t same mapped.table) in
      let offset : w / 0x1000 - v / 0x1000 ≡ 0 = omega (arith, same) in
      (there, kept ∙ entry-same w v t same ∙ mapped.entry ∙ first ∙ ap value (sym offset))

  later :
      (w : ℕ)
      → w < word
      → v / 0x1000 < w / 0x1000
      → w / 0x1000 < v / 0x1000 + suc left
      → HasTable w u × (memmanager_get_pt_entry w u ≡ value (w / 0x1000 - v / 0x1000))
  later w small low high = elim next [
    | inl e ↦
        let (there, entry) = rest.entries w small (omega (arith, e, low), omega (arith, e, high)) in
        let offset : suc (w / 0x1000 - add32 v page_size / 0x1000) ≡ w / 0x1000 - v / 0x1000 =
          omega (arith, e, low) in
        (there, entry ∙ ap value offset)
    | inr (none, e) ↦ absurd (omega (arith, none, low, high))
  ]

  outside :
      (w : ℕ)
      → w < word
      → w / 0x1000 ≢ v / 0x1000
      → OutOfRange (add32 v page_size) left w
      → HasTable w s
      → HasTable w u × (memmanager_get_pt_entry w u ≡ memmanager_get_pt_entry w s)
  outside w small other out there =
      let (had, same) = mapped.others w small other there in
      let (has_now, same_now) = rest.others w small out had in (has_now, same_now ∙ same)

  pub step-Range : Range v (suc left) value s u
  step-Range = record {
    entries = λ w small (low, high). elim (ℕ_discrete (w / 0x1000) (v / 0x1000)) [
      | yes same ↦ page w small same
      | no n ↦ later w small (omega (arith, low, n)) high
    ];
    others = λ w small out there. elim out [
      | inl low ↦ outside w small (λ e. omega (arith, e, low)) (before w (omega (arith, low))) there
      | inr high ↦ outside w small (λ e. omega (arith, e, high)) (after w high) there
    ];
  }
