-- ===== src/Locks.antt =====
-- kernel/locks.cpp and kernel/locks.h: the kernel's mutex, and the lock that readers share, that a
-- reader can upgrade and a writer downgrade. A task's identifier is its index; no
-- task, INVALID_TASK_ID, is `none`.
use jsd_os.Prelude.{
  ℕ, zero, suc, ◌+◌, ◌-◌, ◌<◌, ◌≡◌, ◌≢◌, Bool, true, false, Option, none, some, ◌==◌, if◌then◌else◌,
}
use jsd_os.Prelude.Words.{u32, add32, sub32}
pub mod Counting
pub mod Invariant
pub mod Exclusion
mod Examples

-- `kernel_mutex`: its owner.
abbrev pub KernelMutex : Type 0
KernelMutex = Option ℕ

-- `do_try_lock_mutex`, a compare-and-swap: the owner that was there, and the mutex after.
abbrev pub do_try_lock_mutex : KernelMutex → ℕ → Option ℕ × KernelMutex
do_try_lock_mutex none my_pid = (none, some my_pid)
do_try_lock_mutex (some owner) my_pid = (some owner, some owner)

abbrev pub kernel_try_lock_mutex : KernelMutex → ℕ → Bool × KernelMutex
kernel_try_lock_mutex m my_pid =
    let (old, after) = do_try_lock_mutex m my_pid in
    (elim old [ none ↦ true | some _ ↦ false ], after)

-- No owner is asked for.
abbrev pub kernel_unlock_mutex : KernelMutex → KernelMutex
kernel_unlock_mutex m = none

-- `upgradable_shared_mutex` with the two mutexes and the count of its `shared_mutex`.
pub record SharedMutex : Type 0 where
  pub meta_mutex : KernelMutex
  pub exclusive_mtx : KernelMutex
  pub shared_mtx : KernelMutex
  pub num_shared : ℕ

abbrev pub init_shared_mutex : SharedMutex
init_shared_mutex = record {
  meta_mutex = none;
  exclusive_mtx = none;
  shared_mtx = none;
  num_shared = 0;
}

-- Where a task stands in the operations on the lock: what it does next.
pub data Pc : Type 0 where
  idle : Pc
  -- `lock`, with the outer mutex held
  lock_exclusive locked : Pc
  writing : Pc
  -- `lock_shared`, with the outer mutex held
  enter_shared count_in take_exclusive leave_shared leave_meta : Pc
  reading : Pc
  -- `unlock_shared`
  count_out give_exclusive leave_out : Pc
  -- `upgrade`: wanting the outer mutex, then with it `unlock_shared` and `lock`
  want_upgrade upgrade_shared upgrade_out upgrade_give upgrade_leave upgrade_lock : Pc
  -- `downgrade`: wanting the outer mutex, then with it `unlock` and `lock_shared`
  want_downgrade downgrade_give : Pc

-- One step of task `i`. A mutex that is owned lets nobody in: the failed attempts of
-- `kernel_lock_mutex` change nothing and are no steps.
pub data Move (i : ℕ) (m : SharedMutex) : Pc → SharedMutex → Pc → Type 0 where
  lock_meta :
      (kernel_try_lock_mutex m.meta_mutex i).0 ≡ true
      → Move i m idle
          (record m { meta_mutex = (kernel_try_lock_mutex m.meta_mutex i).1 })
          lock_exclusive
  lock_inner :
      (kernel_try_lock_mutex m.exclusive_mtx i).0 ≡ true
      → Move i m lock_exclusive
          (record m { exclusive_mtx = (kernel_try_lock_mutex m.exclusive_mtx i).1 })
          locked
  lock_done : Move i m locked (record m { meta_mutex = kernel_unlock_mutex m.meta_mutex }) writing
  unlock : Move i m writing (record m { exclusive_mtx = kernel_unlock_mutex m.exclusive_mtx }) idle
  share_meta :
      (kernel_try_lock_mutex m.meta_mutex i).0 ≡ true
      → Move i m idle
          (record m { meta_mutex = (kernel_try_lock_mutex m.meta_mutex i).1 })
          enter_shared
  share_enter :
      (kernel_try_lock_mutex m.shared_mtx i).0 ≡ true
      → Move i m enter_shared
          (record m { shared_mtx = (kernel_try_lock_mutex m.shared_mtx i).1 })
          count_in
  share_first :
      add32 m.num_shared 1 ≡ 1
      → Move i m count_in (record m { num_shared = add32 m.num_shared 1 }) take_exclusive
  share_more :
      add32 m.num_shared 1 ≢ 1
      → Move i m count_in (record m { num_shared = add32 m.num_shared 1 }) leave_shared
  share_exclusive :
      (kernel_try_lock_mutex m.exclusive_mtx i).0 ≡ true
      → Move i m take_exclusive
          (record m { exclusive_mtx = (kernel_try_lock_mutex m.exclusive_mtx i).1 })
          leave_shared
  share_leave :
      Move i m leave_shared (record m { shared_mtx = kernel_unlock_mutex m.shared_mtx }) leave_meta
  share_done :
      Move i m leave_meta (record m { meta_mutex = kernel_unlock_mutex m.meta_mutex }) reading
  unshare_enter :
      (kernel_try_lock_mutex m.shared_mtx i).0 ≡ true
      → Move i m reading
          (record m { shared_mtx = (kernel_try_lock_mutex m.shared_mtx i).1 })
          count_out
  unshare_last :
      sub32 m.num_shared 1 ≡ 0
      → Move i m count_out (record m { num_shared = sub32 m.num_shared 1 }) give_exclusive
  unshare_more :
      sub32 m.num_shared 1 ≢ 0
      → Move i m count_out (record m { num_shared = sub32 m.num_shared 1 }) leave_out
  unshare_exclusive :
      Move i m give_exclusive
        (record m { exclusive_mtx = kernel_unlock_mutex m.exclusive_mtx })
        leave_out
  unshare_done :
      Move i m leave_out (record m { shared_mtx = kernel_unlock_mutex m.shared_mtx }) idle
  upgrade : Move i m reading m want_upgrade
  upgrade_meta :
      (kernel_try_lock_mutex m.meta_mutex i).0 ≡ true
      → Move i m want_upgrade
          (record m { meta_mutex = (kernel_try_lock_mutex m.meta_mutex i).1 })
          upgrade_shared
  upgrade_enter :
      (kernel_try_lock_mutex m.shared_mtx i).0 ≡ true
      → Move i m upgrade_shared
          (record m { shared_mtx = (kernel_try_lock_mutex m.shared_mtx i).1 })
          upgrade_out
  upgrade_last :
      sub32 m.num_shared 1 ≡ 0
      → Move i m upgrade_out (record m { num_shared = sub32 m.num_shared 1 }) upgrade_give
  upgrade_more :
      sub32 m.num_shared 1 ≢ 0
      → Move i m upgrade_out (record m { num_shared = sub32 m.num_shared 1 }) upgrade_leave
  upgrade_exclusive :
      Move i m upgrade_give
        (record m { exclusive_mtx = kernel_unlock_mutex m.exclusive_mtx })
        upgrade_leave
  upgrade_done :
      Move i m upgrade_leave
        (record m { shared_mtx = kernel_unlock_mutex m.shared_mtx })
        upgrade_lock
  upgrade_inner :
      (kernel_try_lock_mutex m.exclusive_mtx i).0 ≡ true
      → Move i m upgrade_lock
          (record m { exclusive_mtx = (kernel_try_lock_mutex m.exclusive_mtx i).1 })
          locked
  downgrade : Move i m writing m want_downgrade
  downgrade_meta :
      (kernel_try_lock_mutex m.meta_mutex i).0 ≡ true
      → Move i m want_downgrade
          (record m { meta_mutex = (kernel_try_lock_mutex m.meta_mutex i).1 })
          downgrade_give
  downgrade_exclusive :
      Move i m downgrade_give
        (record m { exclusive_mtx = kernel_unlock_mutex m.exclusive_mtx })
        enter_shared

abbrev pub update : (ℕ → Pc) → ℕ → Pc → ℕ → Pc
update pc i p j = if j == i then p else pc j

-- The lock and `n` tasks.
pub record System : Type 0 where
  pub mutex : SharedMutex
  pub pc : ℕ → Pc

abbrev pub init : System
init = record { mutex = init_shared_mutex; pc = λ _. idle }

pub data Step (n : ℕ) (s : System) : System → Type 0 where
  runs :
      (i : ℕ) {m : SharedMutex} {p : Pc}
      → i < n
      → Move i s.mutex (s.pc i) m p
      → Step n s (record { mutex = m; pc = update s.pc i p })

-- The states that follow `s` in some steps.
pub data Steps (n : ℕ) (s : System) : System → Type 0 where
  here : Steps n s s
  next : {t u : System} → Steps n s t → Step n t u → Steps n s u
