-- ===== src/Sync/Tests.antt =====
-- The theorems on semaphores and locks at a small kernel.
use jat_os.Prelude.{ℕ, suc, ◌≡◌, ◌≢◌, refl, Bool, true, done, panic, arith}
use jat_os.Kernel.{TaskStatus, Kernel}
use jat_os.Sched.Demo.{demo}
use jat_os.IoQueue.Demo.{demo-SyncInv, demo-Caller}
use jat_os.Sync.{Lock, sema_down_round, sema_up, lock_acquire_round, lock_release, thread_exit}
use jat_os.Sync.Down.{Down, sema_down_round-Down}
use jat_os.Sync.Inv.{SyncInv}
use jat_os.Sync.Up.{Up, sema_up-Up}
use jat_os.Sync.Acquire.{LockInv, Acquired, lock_acquire_round-Acquired}
use jat_os.Sync.Release.{Released, lock_release-Released, lock_release-panic}
use jat_os.Sync.Protocol.{Step, acquires, ups, stop, step, Good, Steps-Good, Step-exclusive}
use jat_os.Sync.Exit.{thread_exit-Scheduled}

sema_down_example :
    (r : Bool × Kernel) × (sema_down_round true 50 demo ≡ done r) × Down demo 50 true r
sema_down_example = sema_down_round-Down demo 50 true demo-SyncInv demo-Caller

sema_up_example : (k' : Kernel) × (sema_up 50 demo ≡ done k') × Up demo 50 k'
sema_up_example = sema_up-Up demo 50 demo-SyncInv

-- A lock on the semaphore 60, which is free, and one on 50, which the thread 2 or 3 holds.
abbrev free_lock : Lock
free_lock = record { holder = 0; semaphore = 60; holder_repeat_nr = 0 }

abbrev held_lock : ℕ → ℕ → Lock
held_lock t n = record { holder = t; semaphore = 50; holder_repeat_nr = n }

free-LockInv : LockInv free_lock demo
free-LockInv = record { free = λ e. (refl, refl); held = λ e. absurd (ground arith) }

held-LockInv : (t n : ℕ) → LockInv (held_lock (suc t) (suc n)) demo
held-LockInv t n = record { free = λ e. absurd (ground arith); held = λ e. (omega arith, refl) }

lock_acquire_example :
    (r : Bool × Lock × Kernel) × (lock_acquire_round true free_lock demo ≡ done r)
    × Acquired true free_lock demo r
lock_acquire_example =
    lock_acquire_round-Acquired true free_lock demo demo-SyncInv free-LockInv demo-Caller refl
      (omega arith)

lock_release_example :
    (r : Lock × Kernel) × (lock_release (held_lock 2 2) demo ≡ done r)
    × Released (held_lock 2 2) demo r
lock_release_example =
    lock_release-Released (held_lock 2 2) demo demo-SyncInv (held-LockInv 1 1) refl refl

lock_release-panic_example : lock_release (held_lock 3 1) demo ≡ panic
lock_release-panic_example = lock_release-panic (held_lock 3 1) demo refl

demo-Good : Good (held_lock 3 1, demo)
demo-Good = record { inv = demo-SyncInv; lock_inv = held-LockInv 2 0; runs = refl }

abbrev after_up : Kernel
after_up = sema_up_at_60.0
  where
    sema_up_at_60 : (k' : Kernel) × (sema_up 60 demo ≡ done k') × Up demo 60 k'
    sema_up_at_60 = sema_up-Up demo 60 demo-SyncInv

up_first : Step (held_lock 3 1, demo) (held_lock 3 1, after_up)
up_first = ups 60 refl (sema_up-Up demo 60 demo-SyncInv).1

Steps-Good_example : Good (held_lock 3 1, after_up)
Steps-Good_example =
    Steps-Good (held_lock 3 1, demo) (held_lock 3 1, after_up) (step up_first stop) demo-Good

thread_exit_example :
    (k' : Kernel) × (thread_exit demo ≡ done k')
    × SyncInv k'
    × ((k'.task k'.cur).status ≡ TaskStatus.running)
    × ((k'.task 2).status ≡ TaskStatus.died)
    × (k'.cur ≢ 2)
thread_exit_example = thread_exit-Scheduled demo demo-SyncInv demo-Caller

abbrev refused :
    (r : Bool × Lock × Kernel) × (lock_acquire_round true (held_lock 3 1) demo ≡ done r)
    × Acquired true (held_lock 3 1) demo r
refused =
    lock_acquire_round-Acquired true (held_lock 3 1) demo demo-SyncInv (held-LockInv 2 0)
      demo-Caller refl (omega arith)

Step-exclusive_example : refused.0.1 ≡ held_lock 3 1
Step-exclusive_example =
    Step-exclusive (held_lock 3 1, demo) (refused.0.1, refused.0.2)
      (acquires true refused.0.0 demo-Caller refl (omega arith) refused.1) demo-Good refl refl
