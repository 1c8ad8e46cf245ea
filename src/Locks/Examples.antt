-- ===== src/Locks/Examples.antt =====
-- The theorems on kernel/locks.h at two tasks.
use jsd_os.Prelude.{ℕ, ◌<◌, ◌≡◌, inl, refl, arith}
use jsd_os.Prelude.Words.{add32, sub32}
use jsd_os.Locks.{
  System, init, Steps, here, next, runs, lock_meta, lock_inner, lock_done, share_meta, share_enter,
  share_first, share_more, share_exclusive, share_leave, share_done, upgrade, upgrade_meta,
  upgrade_enter, upgrade_more, upgrade_done,
}
use jsd_os.Locks.Exclusion.{exclusion, Upgrading, upgrades_deadlock}

first_task : 0 < 2
first_task = omega arith

second_task : 1 < 2
second_task = omega arith

-- Task 0 locks.
abbrev one_writer : (s : System) × Steps 2 init s
one_writer = (
  _,
  next (next (next here (runs 0 first_task (lock_meta refl))) (runs 0 first_task (lock_inner refl)))
      (runs 0 first_task lock_done),
)

exclusion_example : ◌≡◌ {A = ℕ} 0 0
exclusion_example =
    exclusion 2 one_writer.0 0 0 (omega arith) one_writer.1 first_task first_task refl (inl refl)

-- Both tasks share the lock, and both come to upgrade.
abbrev two_readers : (s : System) × Steps 2 init s
unfolding add32
two_readers = (
  _,
  next
      (next
        (next
          (next
            (next
              (next
                (next
                  (next
                    (next
                      (next (next here (runs 0 first_task (share_meta refl)))
                        (runs 0 first_task (share_enter refl)))
                      (runs 0 first_task (share_first refl)))
                    (runs 0 first_task (share_exclusive refl)))
                  (runs 0 first_task share_leave))
                (runs 0 first_task share_done))
              (runs 1 second_task (share_meta refl)))
            (runs 1 second_task (share_enter refl)))
          (runs 1 second_task (share_more (omega arith))))
        (runs 1 second_task share_leave))
      (runs 1 second_task share_done),
)

abbrev both_upgrade : (s : System) × Steps 2 init s
unfolding add32 sub32
both_upgrade = (
  _,
  next
      (next
        (next
          (next (next (next two_readers.1 (runs 0 first_task upgrade)) (runs 1 second_task upgrade))
            (runs 0 first_task (upgrade_meta refl)))
          (runs 0 first_task (upgrade_enter refl)))
        (runs 0 first_task (upgrade_more (omega arith))))
      (runs 0 first_task upgrade_done),
)

upgrades_deadlock_example : Upgrading 2 both_upgrade.0 0 1
unfolding add32 sub32
upgrades_deadlock_example =
    upgrades_deadlock 2 both_upgrade.0 both_upgrade.0 0 1 (omega arith) both_upgrade.1
      (record { first_task = first_task; second_task = second_task; waits = refl; wants = refl })
      here
