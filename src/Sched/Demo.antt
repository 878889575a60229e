-- ===== src/Sched/Demo.antt =====
-- A kernel with the idle thread 1 asleep, the thread 2 running, 3 ready, and 4 waiting at the
-- semaphore 50, the value of which is 0, as that of the semaphore 62.
use jat_os.Prelude.{ℕ, ◌+◌, ◌==◌, true, false, [], ◌∷◌, if◌then◌else◌, arith}
use jat_os.Bitmap.{Bitmap}
use jat_os.Kernel.{TaskStatus, Task, Kernel}
use jat_os.Kernel.Queue.{count}
use jat_os.Sched.Inv.{Inv}

abbrev pub no_pages : Bitmap
no_pages = record { bits = λ _. 0; btmp_bytes_len = 1 }

abbrev pub thread : ℕ → TaskStatus → Task
thread pid s = record {
  pid = pid;
  parent_pid = 3;
  status = s;
  priority = 20;
  ticks = 5;
  elapsed_ticks = 0;
  pgdir = 0;
  vaddr_bitmap = no_pages;
  addr_v2p = λ a. a;
  waiting_sema = 70 + pid;
  stack_magic = 0x20240825;
  resumes_with = true;
}

abbrev pub demo_status : ℕ → TaskStatus
demo_status t =
    if t == 1
    then TaskStatus.waiting
    else if t == 2
    then TaskStatus.running
    else if t == 3
    then TaskStatus.ready
    else TaskStatus.blocked

abbrev pub demo : Kernel
demo = record {
  task = λ t. thread t (demo_status t);
  cur = 2;
  idle_thread = 1;
  intr = false;
  ready_list = 3 ∷ [];
  second_list = [];
  third_list = [];
  all_list = 2 ∷ 1 ∷ 3 ∷ 4 ∷ [];
  sema = λ s.
      if s == 50
      then record { value = 0; waiters = 4 ∷ [] }
      else record { value = (if s == 62 then 0 else 1); waiters = [] };
  user_pool = no_pages;
  user_pool_start = 0;
  ticks = 0;
}

pub demo-Inv : Inv demo
demo-Inv = record { counted = λ t. unfold count in ground arith; alone = λ t. ground arith }
