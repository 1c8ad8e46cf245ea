-- ===== src/Locks/Counting.antt =====
-- kernel/locks.h: how many tasks stand at places of a kind.
use jsd_os.Prelude.{ℕ, zero, suc, ◌+◌, ◌≤◌, ◌<◌, ◌≡◌, refl, ap, ℕ_discrete, arith}
use jsd_os.Locks.{Pc, update}

unfoldable pub total : (Pc → ℕ) → ℕ → (ℕ → Pc) → ℕ
total w zero pc = 0
total w (suc n) pc = w (pc n) + total w n pc

module _ (w : Pc → ℕ) where
  total-beyond : (n i : ℕ) (p : Pc) (pc : ℕ → Pc) → n ≤ i → total w n (update pc i p) ≡ total w n pc
  unfolding total
  total-beyond zero i p pc h = refl
  total-beyond (suc n) i p pc h = ground (arith, total-beyond n i p pc)

  pub total-update :
      (n i : ℕ) (p : Pc) (pc : ℕ → Pc)
      → i < n
      → total w n (update pc i p) + w (pc i) ≡ total w n pc + w p
  unfolding total
  total-update zero i p pc h = absurd (omega arith)
  total-update (suc n) i p pc h = elim (ℕ_discrete i n) [
    | yes last ↦ ground (arith, total-beyond n i p pc, ap pc last)
    | no before ↦ ground (arith, total-update n i p pc)
  ]

  pub member-le : (n i : ℕ) (pc : ℕ → Pc) → i < n → w (pc i) ≤ total w n pc
  unfolding total
  member-le zero i pc h = absurd (omega arith)
  member-le (suc n) i pc h = elim (ℕ_discrete i n) [
    | yes last ↦ ground (arith, ap pc last)
    | no before ↦ ground (arith, member-le n i pc)
  ]

  pub pair-le : (n i j : ℕ) (pc : ℕ → Pc) → i < j → j < n → w (pc i) + w (pc j) ≤ total w n pc
  unfolding total
  pair-le zero i j pc h k = absurd (omega arith)
  pair-le (suc n) i j pc h k = elim (ℕ_discrete j n) [
    | yes last ↦ ground (arith, member-le n i pc, ap pc last)
    | no before ↦ ground (arith, pair-le n i j pc)
  ]

  pub total-zero : (n : ℕ) (pc : ℕ → Pc) → ((i : ℕ) → w (pc i) ≡ 0) → total w n pc ≡ 0
  unfolding total
  total-zero zero pc h = refl
  total-zero (suc n) pc h = omega (arith, h n, total-zero n pc h)

  pub total-le : (n : ℕ) (pc : ℕ → Pc) → ((p : Pc) → w p ≤ 1) → total w n pc ≤ n
  unfolding total
  total-le zero pc h = omega arith
  total-le (suc n) pc h = omega (arith, h (pc n), total-le n pc h)
