-- ===== src/IoQueue/Tests.antt =====
-- The theorems on the queue at a small state.
use jat_os.Prelude.{◌≡◌, refl, if◌then◌else◌, done, arith}
use jat_os.Kernel.{Kernel}
use jat_os.Sched.Demo.{demo}
use jat_os.Sync.{Lock, lock_release}
use jat_os.Sync.Release.{Released}
use jat_os.IoQueue.{
  Ioqueue, Progress, ioq_empty, ioq_full, getchar_round, putchar_round, getchar_resume,
}
use jat_os.IoQueue.Demo.{letters, waited-IoInv, woken-IoInv, demo-Caller}
use jat_os.IoQueue.Move.{Took, Stored}
use jat_os.IoQueue.Get.{Waiting, getchar_round-Got}
use jat_os.IoQueue.Put.{Stalled, putchar_round-Put}
use jat_os.IoQueue.Resume.{getchar_resume-Got}

getchar_round_example :
    (r : Progress × Ioqueue × Kernel) × (getchar_round (letters 5 5) demo ≡ done r)
    × (if ioq_empty (letters 5 5) then Waiting (letters 5 5) demo r else Took (letters 5 5) demo r)
getchar_round_example =
    getchar_round-Got (letters 5 5) demo waited-IoInv demo-Caller refl (omega arith)

putchar_round_example :
    (r : Progress × Ioqueue × Kernel) × (putchar_round (letters 5 5) 67 demo ≡ done r)
    × (if ioq_full (letters 5 5)
        then Stalled (letters 5 5) demo r
        else Stored (letters 5 5) 67 demo r)
putchar_round_example =
    putchar_round-Put (letters 5 5) demo waited-IoInv demo-Caller refl 67 (omega arith)

getchar_resume_example :
    (p : Lock × Kernel) × (lock_release (letters 2 0).lock_consumer demo ≡ done p)
    × Released (letters 2 0).lock_consumer demo p
    × (r : Progress × Ioqueue × Kernel) × (getchar_resume (letters 2 0) demo ≡ done r)
    × (if ioq_empty (letters 2 0)
        then Waiting (record (letters 2 0) { lock_consumer = p.0 }) p.1 r
        else Took (record (letters 2 0) { lock_consumer = p.0 }) p.1 r)
getchar_resume_example =
    getchar_resume-Got (letters 2 0) demo woken-IoInv demo-Caller refl refl (omega arith)
