-- ===== src/Locks/Invariant.antt =====
-- kernel/locks.h: what the mutexes and the count say of the tasks, in every state that is reached.
use jsd_os.Prelude.{ℕ, zero, suc, ◌+◌, ◌≤◌, ◌<◌, ◌≡◌, ◌≢◌, min, refl, true, none, some, arith}
use jsd_os.Prelude.Words.{word, add32, sub32}
use jsd_os.Locks.{
  KernelMutex, SharedMutex, Pc, idle, lock_exclusive, locked, writing, enter_shared, count_in,
  take_exclusive, leave_shared, leave_meta, reading, count_out, give_exclusive, leave_out,
  want_upgrade, upgrade_shared, upgrade_out, upgrade_give, upgrade_leave, upgrade_lock,
  want_downgrade, downgrade_give, Move, lock_meta, lock_inner, share_meta, share_enter, share_first,
  share_more, share_exclusive, unshare_enter, unshare_last, unshare_more, upgrade_meta,
  upgrade_enter, upgrade_last, upgrade_more, upgrade_inner, downgrade_meta, kernel_try_lock_mutex,
  update, System, init, Step, runs, Steps, here, next,
}
use jsd_os.Locks.Counting.{total, total-update, member-le, total-zero}

-- Kinds of places: with the outer mutex, but the next two; the first reader on its way to the exclusive
-- mutex; with the inner mutex, but the last; the last reader on its way to give the exclusive mutex up;
-- counted as a reader, but the first; and in possession of the exclusive mutex as a writer.
abbrev pub outer : Pc → ℕ
outer lock_exclusive = 1
outer locked = 1
outer enter_shared = 1
outer count_in = 1
outer leave_shared = 1
outer leave_meta = 1
outer upgrade_shared = 1
outer upgrade_out = 1
outer upgrade_give = 1
outer upgrade_leave = 1
outer upgrade_lock = 1
outer downgrade_give = 1
outer _ = 0

abbrev pub first : Pc → ℕ
first take_exclusive = 1
first _ = 0

abbrev pub inner : Pc → ℕ
inner count_in = 1
inner leave_shared = 1
inner count_out = 1
inner leave_out = 1
inner upgrade_out = 1
inner upgrade_leave = 1
inner _ = 0

abbrev pub last : Pc → ℕ
last give_exclusive = 1
last upgrade_give = 1
last _ = 0

abbrev pub counted : Pc → ℕ
counted leave_shared = 1
counted leave_meta = 1
counted reading = 1
counted count_out = 1
counted want_upgrade = 1
counted upgrade_shared = 1
counted upgrade_out = 1
counted _ = 0

abbrev pub writer : Pc → ℕ
writer locked = 1
writer writing = 1
writer want_downgrade = 1
writer downgrade_give = 1
writer _ = 0

abbrev pub held : KernelMutex → ℕ
held none = 0
held (some _) = 1

-- The lock and the numbers of tasks at each kind of place.
pub record Tallies (m : SharedMutex) (o f i l c w : ℕ) : Type 0 where
  pub meta_held : o + f ≡ held m.meta_mutex
  pub shared_held : i + f + l ≡ held m.shared_mtx
  pub shared_count : f + c ≡ m.num_shared
  pub exclusive_held : held m.exclusive_mtx + f ≡ w + l + min 1 m.num_shared
  pub first_alone : 0 < f → c ≡ 0
  pub last_alone : 0 < l → m.num_shared ≡ 0

pub record Inv (n : ℕ) (s : System) : Type 0 where
  pub few : n + 1 < word
  pub tallies :
      Tallies s.mutex
        (total outer n s.pc)
        (total first n s.pc)
        (total inner n s.pc)
        (total last n s.pc)
        (total counted n s.pc)
        (total writer n s.pc)

abbrev Guard : {i : ℕ} {m m' : SharedMutex} {p p' : Pc} → Move i m p m' p' → Type 0
Guard {i} {m} (lock_meta _) = (kernel_try_lock_mutex m.meta_mutex i).0 ≡ true
Guard {i} {m} (share_meta _) = (kernel_try_lock_mutex m.meta_mutex i).0 ≡ true
Guard {i} {m} (upgrade_meta _) = (kernel_try_lock_mutex m.meta_mutex i).0 ≡ true
Guard {i} {m} (downgrade_meta _) = (kernel_try_lock_mutex m.meta_mutex i).0 ≡ true
Guard {i} {m} (lock_inner _) = (kernel_try_lock_mutex m.exclusive_mtx i).0 ≡ true
Guard {i} {m} (share_exclusive _) = (kernel_try_lock_mutex m.exclusive_mtx i).0 ≡ true
Guard {i} {m} (upgrade_inner _) = (kernel_try_lock_mutex m.exclusive_mtx i).0 ≡ true
Guard {i} {m} (share_enter _) = (kernel_try_lock_mutex m.shared_mtx i).0 ≡ true
Guard {i} {m} (unshare_enter _) = (kernel_try_lock_mutex m.shared_mtx i).0 ≡ true
Guard {i} {m} (upgrade_enter _) = (kernel_try_lock_mutex m.shared_mtx i).0 ≡ true
Guard {m} (share_first _) = add32 m.num_shared 1 ≡ 1
Guard {m} (share_more _) = add32 m.num_shared 1 ≢ 1
Guard {m} (unshare_last _) = sub32 m.num_shared 1 ≡ 0
Guard {m} (unshare_more _) = sub32 m.num_shared 1 ≢ 0
Guard {m} (upgrade_last _) = sub32 m.num_shared 1 ≡ 0
Guard {m} (upgrade_more _) = sub32 m.num_shared 1 ≢ 0
Guard _ = Unit

guard : {i : ℕ} {m m' : SharedMutex} {p p' : Pc} (mv : Move i m p m' p') → Guard mv
guard (lock_meta g) = g
guard (share_meta g) = g
guard (upgrade_meta g) = g
guard (downgrade_meta g) = g
guard (lock_inner g) = g
guard (share_exclusive g) = g
guard (upgrade_inner g) = g
guard (share_enter g) = g
guard (unshare_enter g) = g
guard (upgrade_enter g) = g
guard (share_first g) = g
guard (share_more g) = g
guard (unshare_last g) = g
guard (unshare_more g) = g
guard (upgrade_last g) = g
guard (upgrade_more g) = g
guard _ = tt

-- A kind's number of tasks before and after one task goes from `p` to `p'`.
record Moved (w : Pc → ℕ) (p p' : Pc) (before after : ℕ) : Type 0 where
  kept : after + w p ≡ before + w p'
  member : w p ≤ before

Move-Tallies :
    {k : ℕ} {m m' : SharedMutex} {p p' : Pc} {o f i l c w o' f' i' l' c' w' : ℕ}
    → Move k m p m' p'
    → m.num_shared + 1 < word
    → Tallies m o f i l c w
    → Moved outer p p' o o'
    → Moved first p p' f f'
    → Moved inner p p' i i'
    → Moved last p p' l l'
    → Moved counted p p' c c'
    → Moved writer p p' w w'
    → Tallies m' o' f' i' l' c' w'
unfolding add32 sub32
Move-Tallies (lock_meta g) few t mo mf mi ml mc mw = ground arith
Move-Tallies mv few t mo mf mi ml mc mw = ground (arith, guard mv)

moved :
    (w : Pc → ℕ) (n k : ℕ) (pc : ℕ → Pc) (p : Pc)
    → k < n
    → Moved w (pc k) p (total w n pc) (total w n (update pc k p))
moved w n k pc p h = record { kept = total-update w n k p pc h; member = member-le w n k pc h }

-- Readers that are counted are no more than the tasks.
readers-le : (n : ℕ) (pc : ℕ → Pc) → total first n pc + total counted n pc ≤ n
unfolding total
readers-le zero pc = omega arith
readers-le (suc n) pc = let p : Pc = pc n in omega (arith, readers-le n pc, one_kind p)
  where
    one_kind : (p : Pc) → first p + counted p ≤ 1
    one_kind idle = omega arith
    one_kind p = ground arith

pub Step-Inv : {n : ℕ} {s t : System} → Step n s t → Inv n s → Inv n t
Step-Inv {n} {s} (runs k {p} lt mv) inv = record {
  few = inv.few;
  tallies =
      Move-Tallies mv (omega (arith, inv.few, inv.tallies.shared_count, readers-le n s.pc))
        inv.tallies (moved outer n k s.pc p lt) (moved first n k s.pc p lt)
        (moved inner n k s.pc p lt) (moved last n k s.pc p lt) (moved counted n k s.pc p lt)
        (moved writer n k s.pc p lt);
}

total-start : (n : ℕ) (w : Pc → ℕ) → w idle ≡ 0 → total w n (λ _. idle) ≡ 0
total-start n w h = total-zero w n (λ _. idle) (λ _. h)

pub init-Inv : (n : ℕ) → n + 1 < word → Inv n init
init-Inv n few = record {
  few = few;
  tallies = ground (
    arith,
    total-start n outer refl,
    total-start n first refl,
    total-start n inner refl,
    total-start n last refl,
    total-start n counted refl,
    total-start n writer refl,
  );
}

pub Steps-Inv : {n : ℕ} {s t : System} → Steps n s t → Inv n s → Inv n t
Steps-Inv here inv = inv
Steps-Inv (next r st) inv = Step-Inv st (Steps-Inv r inv)
