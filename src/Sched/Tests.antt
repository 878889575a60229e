-- ===== src/Sched/Tests.antt =====
-- The scheduler's theorems at a small kernel.
use jat_os.Prelude.{◌≡◌, refl, true, false, ◌==◌, if◌then◌else◌, done, arith}
use jat_os.Bitmap.{Bitmap}
use jat_os.Bitmap.Set.{IsBytes}
use jat_os.Kernel.{TaskStatus, Task, Kernel, set_status}
use jat_os.Sched.{
  schedule, thread_block, thread_unblock, thread_yield, intr_timer_handler, free_pages,
}
use jat_os.Sched.Demo.{demo, demo-Inv, no_pages, thread}
use jat_os.Sched.Reap.{taken_at_start, give_back, free_pages_leak}
use jat_os.Sched.Switch.{Scheduled, schedule-Scheduled}
use jat_os.Sched.Timer.{Ticked, timer-Ticked}
use jat_os.Sched.Calls.{
  yielding, Yielded, thread_block-Scheduled, thread_yield-Scheduled, Unblocked,
  thread_unblock-Unblocked,
}

schedule_example : (k' : Kernel) × (schedule true demo ≡ done k') × Scheduled demo true k'
schedule_example = schedule-Scheduled true demo demo-Inv refl

thread_block_example :
    (k' : Kernel) × (thread_block TaskStatus.waiting demo ≡ done k')
    × Scheduled (set_status (record demo { intr = false }) 2 TaskStatus.waiting) false k'
thread_block_example = thread_block-Scheduled demo demo-Inv refl TaskStatus.waiting refl

thread_yield_example :
    (k' : Kernel) × (thread_yield demo ≡ done k') × Yielded demo (yielding demo demo-Inv refl) k'
thread_yield_example = thread_yield-Scheduled demo demo-Inv refl

thread_unblock_example : (k' : Kernel) × (thread_unblock 4 demo ≡ done k') × Unblocked demo 4 k'
thread_unblock_example = thread_unblock-Unblocked 4 demo demo-Inv refl

timer_example : (k' : Kernel) × (intr_timer_handler demo ≡ done k') × Ticked demo k'
timer_example = timer-Ticked demo demo-Inv refl refl refl

-- A process that holds the pages 0 and 1 of its address space.
abbrev two_pages : Bitmap
two_pages = record { bits = λ i. if i == 0 then 3 else 0; btmp_bytes_len = 1 }

abbrev holder_of_two : Task
holder_of_two = record (thread 9 TaskStatus.died) { vaddr_bitmap = two_pages }

two_pages-IsBytes : IsBytes two_pages
two_pages-IsBytes i = ground arith

free_pages_leak_example :
    free_pages 3 holder_of_two 0 0x8048000 no_pages
    ≡ give_back (taken_at_start two_pages) 3 holder_of_two 0 0x8048000 no_pages
free_pages_leak_example = free_pages_leak 3 holder_of_two 0 0x8048000 no_pages two_pages-IsBytes
