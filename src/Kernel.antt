-- ===== src/Kernel.antt =====
-- The state that the thread code shares: kernel/include/thread.h, the ready queues of
-- kernel/thread/thread.c, and the semaphores of kernel/include/sync.h. A thread goes by the
-- address of its `task_struct`. The queues are sequences of threads; DList has the lists of
-- kernel/list/list.c that hold such sequences. `general_tag` stands for the place of a thread in a
-- ready queue or among the waiters of a semaphore, and `all_list_tag` for its place in the list of
-- all threads.
pub mod Queue
use jat_os.Prelude.{
  ℕ, ◌-◌, ◌^◌, Bool, true, false, not, ◌&&◌, ◌||◌, List, [], ◌∷◌, ◌++◌, ◌==◌, if◌then◌else◌,
  Outcome, done, fault, ◌>>=◌, ◌>>◌, assert,
}
use jat_os.Bitmap.{Bitmap}

-- `enum task_status`
pub data TaskStatus : Type 0 where
  running ready blocked waiting hanging died : TaskStatus

-- The fields of `struct task_struct` that the thread code reads, with the page bitmap and the
-- translation `addr_v2p` of its address space. `resumes_with` is the interrupt flag that the thread
-- restores when it runs again: `old_status` of the call in which it stopped, or the flag of the
-- frame that the timer interrupted.
pub record Task : Type 0 where
  pub pid : ℕ
  pub parent_pid : ℕ
  pub status : TaskStatus
  pub priority : ℕ
  pub ticks : ℕ
  pub elapsed_ticks : ℕ
  pub pgdir : ℕ
  pub vaddr_bitmap : Bitmap
  pub addr_v2p : ℕ → ℕ
  pub waiting_sema : ℕ
  pub stack_magic : ℕ
  pub resumes_with : Bool

-- `struct semaphore`, with `uint8_t value`.
pub record Semaphore : Type 0 where
  pub value : ℕ
  pub waiters : List ℕ

pub record Kernel : Type 0 where
  pub task : ℕ → Task
  pub cur : ℕ
  pub idle_thread : ℕ
  pub intr : Bool
  pub ready_list : List ℕ
  pub second_list : List ℕ
  pub third_list : List ℕ
  pub all_list : List ℕ
  pub sema : ℕ → Semaphore
  pub user_pool : Bitmap
  pub user_pool_start : ℕ
  pub ticks : ℕ

abbrev pub first_prio : ℕ
first_prio = 30

abbrev pub second_prio : ℕ
second_prio = 20

abbrev pub third_prio : ℕ
third_prio = 10

abbrev pub first_ticks : ℕ
first_ticks = 25

abbrev pub second_ticks : ℕ
second_ticks = 15

abbrev pub third_ticks : ℕ
third_ticks = 10

abbrev pub uint32_max : ℕ
uint32_max = 2 ^ 32 - 1

-- Whether two values of `enum task_status` are the same.
abbrev pub is_running : TaskStatus → Bool
is_running TaskStatus.running = true
is_running _ = false

abbrev pub is_ready : TaskStatus → Bool
is_ready TaskStatus.ready = true
is_ready _ = false

abbrev pub is_died : TaskStatus → Bool
is_died TaskStatus.died = true
is_died _ = false

abbrev pub is_blocked : TaskStatus → Bool
is_blocked TaskStatus.blocked = true
is_blocked _ = false

-- One of the three states in which a thread sleeps.
abbrev pub sleeps : TaskStatus → Bool
sleeps TaskStatus.blocked = true
sleeps TaskStatus.waiting = true
sleeps TaskStatus.hanging = true
sleeps _ = false

-- Neither on the processor nor ready for it.
abbrev pub rests : TaskStatus → Bool
rests TaskStatus.running = false
rests TaskStatus.ready = false
rests _ = true

abbrev pub set_task : Kernel → ℕ → Task → Kernel
set_task k t new = record k { task = λ u. if t == u then new else k.task u }

abbrev pub set_status : Kernel → ℕ → TaskStatus → Kernel
set_status k t s = set_task k t (record (k.task t) { status = s })

abbrev pub set_sema : Kernel → ℕ → Semaphore → Kernel
set_sema k s new = record k { sema = λ u. if s == u then new else k.sema u }
