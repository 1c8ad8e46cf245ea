-- ===== src/Locks/Exclusion.antt =====
-- kernel/locks.h: who is in the lock together, and tasks that wait for one another.
use jsd_os.Prelude.{
  ℕ, ◌+◌, ◌≤◌, ◌<◌, ◌≡◌, ◌⊎◌, inl, inr, refl, ap, ◌∙◌, Bool, true, false, none, some, dec_lt,
  ℕ_discrete, arith,
}
use jsd_os.Prelude.Words.{word}
use jsd_os.Locks.{
  KernelMutex, SharedMutex, Pc, reading, writing, want_upgrade, want_downgrade, upgrade_lock,
  kernel_try_lock_mutex, Move, upgrade_meta, upgrade_inner, downgrade, System, init, Step, runs,
  Steps, here, next,
}
use jsd_os.Locks.Counting.{total, member-le, pair-le}
use jsd_os.Locks.Invariant.{outer, counted, writer, held, Inv, init-Inv, Steps-Inv}

-- Between the return of `lock` or `upgrade` and the call of `unlock` or `downgrade`; and of
-- `lock_shared` or `downgrade` and `unlock_shared` or `upgrade`.
abbrev pub may_write : Pc → Bool
may_write writing = true
may_write want_downgrade = true
may_write _ = false

abbrev pub may_read : Pc → Bool
may_read reading = true
may_read want_upgrade = true
may_read _ = false

writes : (p : Pc) → may_write p ≡ true → writer p ≡ 1
writes p h = ground arith

reads : (p : Pc) → may_read p ≡ true → counted p ≡ 1
reads p h = ground arith

held-le : (m : KernelMutex) → held m ≤ 1
held-le none = omega arith
held-le (some owner) = omega arith

module _ (n : ℕ) (s : System) (inv : Inv n s) where
  open inv.tallies use {meta_held, exclusive_held, first_alone, shared_count}

  one_writer : total writer n s.pc ≤ 1
  one_writer = ground (
    arith,
    exclusive_held,
    first_alone,
    shared_count,
    meta_held,
    held-le s.mutex.exclusive_mtx,
    held-le s.mutex.meta_mutex,
  )

  no_reader : 0 < total writer n s.pc → total counted n s.pc ≡ 0
  no_reader h = ground (
    arith,
    exclusive_held,
    first_alone,
    shared_count,
    meta_held,
    held-le s.mutex.exclusive_mtx,
    held-le s.mutex.meta_mutex,
  )

-- In every state that fewer than 2 ^ 32 - 1 tasks reach by steps of the lock, a task that has it
-- exclusively is the only one that has it in any way.
pub exclusion :
    (n : ℕ) (s : System) (i j : ℕ)
    → n + 1 < word
    → Steps n init s
    → i < n
    → j < n
    → may_write (s.pc i) ≡ true
    → (may_write (s.pc j) ≡ true) ⊎ (may_read (s.pc j) ≡ true)
    → i ≡ j
exclusion n s i j few r lt lt' h (inr k) =
    let inv = Steps-Inv r (init-Inv n few) in
    absurd (
      omega (
        arith,
        writes (s.pc i) h,
        reads (s.pc j) k,
        member-le writer n i s.pc lt,
        member-le counted n j s.pc lt',
        no_reader n s inv,
      ))
exclusion n s i j few r lt lt' h (inl k) =
    let inv = Steps-Inv r (init-Inv n few) in
    elim (dec_lt i j) [
      | yes before ↦ absurd (
          omega (
            arith,
            writes (s.pc i) h,
            writes (s.pc j) k,
            pair-le writer n i j s.pc before lt',
            one_writer n s inv,
          ))
      | no not_before ↦ elim (dec_lt j i) [
        | yes before ↦ absurd (
            omega (
              arith,
              writes (s.pc i) h,
              writes (s.pc j) k,
              pair-le writer n j i s.pc before lt,
              one_writer n s inv,
            ))
        | no not_after ↦ omega arith
      ]
    ]

-- One task upgrades and waits for the readers to leave; another, a reader still, wants to upgrade too.
pub record Upgrading (n : ℕ) (s : System) (i j : ℕ) : Type 0 where
  pub first_task : i < n
  pub second_task : j < n
  pub waits : s.pc i ≡ upgrade_lock
  pub wants : s.pc j ≡ want_upgrade

module _ {n : ℕ} {s : System} {i j : ℕ} (inv : Inv n s) (u : Upgrading n s i j) where
  open inv.tallies use {meta_held, exclusive_held, first_alone, shared_count}

  waiting : outer (s.pc i) ≡ 1
  waiting = ground (arith, u.waits)

  wanting : counted (s.pc j) ≡ 1
  wanting = ground (arith, u.wants)

  both_held : (held s.mutex.meta_mutex ≡ 1) × (held s.mutex.exclusive_mtx ≡ 1)
  both_held =
      let in_outer = member-le outer n i s.pc u.first_task in
      let in_count = member-le counted n j s.pc u.second_task in
      ground (
        arith,
        waiting,
        wanting,
        in_outer,
        in_count,
        meta_held,
        exclusive_held,
        first_alone,
        shared_count,
        held-le s.mutex.exclusive_mtx,
        held-le s.mutex.meta_mutex,
      )

held_fails : (m : KernelMutex) (k : ℕ) → held m ≡ 1 → (kernel_try_lock_mutex m k).0 ≡ false
held_fails none k h = absurd (omega arith)
held_fails (some owner) k h = refl

-- What a step from either place needs.
wait_inner :
    {k : ℕ} {m m' : SharedMutex} {p p' : Pc}
    → Move k m p m' p'
    → p ≡ upgrade_lock
    → (kernel_try_lock_mutex m.exclusive_mtx k).0 ≡ true
wait_inner (upgrade_inner g) e = g
wait_inner downgrade e = absurd (cc)
wait_inner mv e = absurd (cc)

wait_meta :
    {k : ℕ} {m m' : SharedMutex} {p p' : Pc}
    → Move k m p m' p'
    → p ≡ want_upgrade
    → (kernel_try_lock_mutex m.meta_mutex k).0 ≡ true
wait_meta (upgrade_meta g) e = g
wait_meta downgrade e = absurd (cc)
wait_meta mv e = absurd (cc)

Step-Upgrading :
    {n i j : ℕ} {s t : System} → Step n s t → Inv n s → Upgrading n s i j → Upgrading n t i j
Step-Upgrading {i} {j} {s} (runs k {p} lt mv) inv u =
    let (meta, inner) = both_held inv u in
    elim (ℕ_discrete k i) [
      | yes one ↦
          absurd
            (cc (wait_inner mv (ap s.pc one ∙ u.waits), held_fails s.mutex.exclusive_mtx k inner))
      | no other ↦ elim (ℕ_discrete k j) [
        | yes two ↦
            absurd (cc (wait_meta mv (ap s.pc two ∙ u.wants), held_fails s.mutex.meta_mutex k meta))
        | no neither ↦ record {
          first_task = u.first_task;
          second_task = u.second_task;
          waits = ground (arith, u.waits);
          wants = ground (arith, u.wants);
        }
      ]
    ]

-- In any state that fewer than 2 ^ 32 - 1 tasks reach by steps of the lock, once one task in `upgrade`
-- waits for the readers to leave and another reader has come to `upgrade`, both stay where they are in
-- every later state: neither call returns.
pub upgrades_deadlock :
    (n : ℕ) (s t : System) (i j : ℕ)
    → n + 1 < word
    → Steps n init s
    → Upgrading n s i j
    → Steps n s t
    → Upgrading n t i j
upgrades_deadlock n s t i j few r u here = u
upgrades_deadlock n s t i j few r u (next {t = v} rest st) =
    Step-Upgrading st (Steps-Inv rest (Steps-Inv r (init-Inv n few)))
      (upgrades_deadlock n s v i j few r u rest)
