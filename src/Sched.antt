-- ===== src/Sched.antt =====
-- The scheduler: kernel/thread/thread.c, and the timer interrupt of kernel/device/timer.c.
-- A switch is the change of `cur` and of the interrupt flag. The loading of the page directory and
-- of the stack pointers (`process_activate`, `switch_to`) is no part of the state.
pub mod Reap
pub mod Inv
pub mod Pick
pub mod Park
pub mod Switch
pub mod Calls
pub mod Timer
pub mod Demo
mod Tests
use jat_os.Prelude.{
  ℕ, zero, suc, ◌+◌, ◌-◌, ◌/◌, ◌%◌, ◌^◌, ◌≡◌, Bool, true, false, not, ◌&&◌, ◌||◌, List, [], ◌∷◌,
  ◌++◌, ◌==◌, if◌then◌else◌, Outcome, done, fault, ◌>>=◌, ◌>>◌, assert,
}
use jat_os.Bitmap.{Bitmap, bitmap_scan_test, bitmap_set}
use jat_os.Kernel.{
  TaskStatus, Task, Kernel, first_prio, second_prio, third_prio, first_ticks, second_ticks,
  third_ticks, uint32_max, is_running, is_ready, is_died, is_blocked, sleeps, set_task, set_status,
}
use jat_os.Kernel.Queue.{member, remove}

-- `list_remove(&t->general_tag)`, from whichever list holds the tag
unfoldable pub unlink : ℕ → Kernel → Kernel
unlink t k = record k {
  ready_list = remove t k.ready_list;
  second_list = remove t k.second_list;
  third_list = remove t k.third_list;
  sema = λ s. record (k.sema s) { waiters = remove t (k.sema s).waiters };
}

abbrev pub is_empty : List ℕ → Bool
is_empty [] = true
is_empty (_ ∷ _) = false

abbrev pub idle_queues : Kernel → Bool
idle_queues k = is_empty k.ready_list && (is_empty k.second_list && is_empty k.third_list)

-- The interrupt flag is saved and restored, which leaves it.
pub thread_unblock_idle : Kernel → ℕ → Outcome Kernel
thread_unblock_idle k t = if is_ready (k.task t).status then done k else do
  assert (not (member t k.third_list))
  done (set_status (record k { third_list = t ∷ k.third_list }) t TaskStatus.ready)

-- `list_pop` of the first queue that is not empty. `list_pop` of an empty third queue returns the
-- address of its tail, which belongs to no thread.
pub pick : List ℕ → List ℕ → List ℕ → Kernel → Outcome (ℕ × Kernel)
pick (t ∷ first) second third k = done (t, record k { ready_list = first })
pick [] (t ∷ second) third k = done (t, record k { second_list = second })
pick [] [] (t ∷ third) k = done (t, record k { third_list = third })
pick [] [] [] k = fault

-- The three ways to append the running thread to a queue.
enqueue_first : Kernel → ℕ → Outcome Kernel
enqueue_first k t = do
  assert (not (member t k.ready_list))
  done (record k { ready_list = k.ready_list ++ t ∷ [] })

enqueue_second : Kernel → ℕ → Outcome Kernel
enqueue_second k t = do
  assert (not (member t k.second_list))
  done (record k { second_list = k.second_list ++ t ∷ [] })

enqueue_third : Kernel → ℕ → Outcome Kernel
enqueue_third k t = do
  assert (not (member t k.third_list))
  done (record k { third_list = k.third_list ++ t ∷ [] })

-- The time slice is used up: one queue down, the third queue being the last.
pub requeue_expired : Kernel → ℕ → Outcome Kernel
unfolding enqueue_second enqueue_third
requeue_expired k t =
    if (k.task t).priority == first_prio
    then enqueue_second
        (set_task k t (record (k.task t) {
          status = TaskStatus.ready;
          priority = second_prio;
          ticks = second_ticks;
        }))
        t
    else enqueue_third
        (set_task k t (record (k.task t) {
          status = TaskStatus.ready;
          priority = third_prio;
          ticks = third_ticks;
        }))
        t

-- The thread is preempted: the end of its own queue, the rest of its slice kept.
pub requeue_kept : Kernel → ℕ → Outcome Kernel
unfolding enqueue_first enqueue_second enqueue_third
requeue_kept k t =
    let k1 = set_status k t TaskStatus.ready in
    if (k.task t).priority == first_prio
    then enqueue_first k1 t
    else if (k.task t).priority == second_prio
    then enqueue_second k1 t
    else enqueue_third
        (set_task k t (record (k.task t) { status = TaskStatus.ready; priority = third_prio })) t

-- One page of the dying process: `bitmap_scan_test(...) == 1`, then `bitmap_set` in the pool.
free_page : Task → ℕ → ℕ → Bitmap → Outcome Bitmap
free_page t start vaddr pool =
    if bitmap_scan_test t.vaddr_bitmap ((vaddr - 0x8048000) / 4096) == 1
    then (let phyaddr = t.addr_v2p vaddr in
        if not (phyaddr == 0)
        then bitmap_set pool ((phyaddr + 2 ^ 32 - start) % 2 ^ 32 / 4096) 0
        else done pool)
    else done pool

-- `while (vaddr < USER_STACK3_VADDR + PG_SIZE)`, over the number of pages that are left
pub free_pages : ℕ → Task → ℕ → ℕ → Bitmap → Outcome Bitmap
free_pages zero t start vaddr pool = done pool
free_pages (suc n) t start vaddr pool = do
  pool' ← free_page t start vaddr pool
  free_pages n t start (vaddr + 0x1000) pool'

-- The pages between USER_VADDR_START and USER_STACK3_VADDR + PG_SIZE.
abbrev pub user_pages : ℕ
user_pages = (0xc0000000 - 0x8048000) / 0x1000

pub reap : Kernel → ℕ → Outcome Kernel
unfolding free_page unlink
reap k t =
    let k1 = unlink t k in
    if not ((k.task t).pgdir == 0)
    then (do
      pool ← free_pages user_pages (k.task t) k.user_pool_start 0x8048000 k.user_pool
      done (record k1 { user_pool = pool }))
    else done k1

-- What becomes of the thread that gives up the processor, by its status.
pub park : Kernel → ℕ → Outcome Kernel
unfolding requeue_expired requeue_kept reap
park k t =
    if is_running (k.task t).status
    then (if (k.task t).ticks == uint32_max then requeue_expired k t else requeue_kept k t)
    else if is_blocked (k.task t).status
    then done (set_task k t (record (k.task t) { priority = third_prio }))
    else if is_died (k.task t).status
    then reap k t
    else done k

-- `next->status = TASK_RUNNING`, and the switch.
abbrev pub switch : Kernel → ℕ → Kernel
switch k next = record (set_status k next TaskStatus.running) {
  cur = next;
  intr = (k.task next).resumes_with;
}

-- `resumes` is the interrupt flag with which the caller goes on when it is switched to again.
pub schedule : Bool → Kernel → Outcome Kernel
schedule resumes k = do
  assert (not k.intr)
  let saved = set_task k k.cur (record (k.task k.cur) { resumes_with = resumes })
  k1 ← if idle_queues k then thread_unblock_idle saved k.idle_thread else done saved
  p ← pick k1.ready_list k1.second_list k1.third_list k1
  k2 ← park p.1 k.cur
  done (switch k2 p.0)

pub thread_block : TaskStatus → Kernel → Outcome Kernel
thread_block stat k = do
  let k1 = record k { intr = false }
  assert (sleeps stat)
  schedule k.intr (set_status k1 k.cur stat)

pub thread_unblock : ℕ → Kernel → Outcome Kernel
unfolding unlink
thread_unblock t k = do
  assert (sleeps (k.task t).status)
  let k1 = unlink t k
  let k2 = record k1 { ready_list = t ∷ k1.ready_list }
  done (
      set_task k2 t (record (k.task t) {
        status = TaskStatus.ready;
        priority = first_prio;
        ticks = first_ticks;
      }))

pub thread_yield : Kernel → Outcome Kernel
thread_yield k = do
  let k1 = record k { intr = false }
  assert (not (member k.cur k.ready_list))
  let k2 = record k1 { ready_list = k.ready_list ++ k.cur ∷ [] }
  schedule k.intr (
      set_task k2 k.cur
        (record (k.task k.cur) { status = TaskStatus.ready; priority = first_prio }))

-- The branch on the slice that is left, for the current thread `t` with its counter stepped.
pub timer_branch : Kernel → Task → Outcome Kernel
timer_branch k t =
    let out = set_task k k.cur (record t { ticks = uint32_max }) in
    let on = set_task k k.cur (record t { ticks = t.ticks - 1 }) in
    if t.ticks == 0
    then schedule true out
    else if t.priority == second_prio
    then (if is_empty k.ready_list then done on else schedule true on)
    else if t.priority == third_prio
    then (if is_empty k.ready_list && is_empty k.second_list then done on else schedule true on)
    else done on

-- The interrupt gate has turned interrupts off, and the interrupted frame had them on.
pub intr_timer_handler : Kernel → Outcome Kernel
intr_timer_handler k = do
  let t = k.task k.cur
  assert (t.stack_magic == 0x20240825)
  let elapsed = (t.elapsed_ticks + 1) % 2 ^ 32
  timer_branch (record k { ticks = (k.ticks + 1) % 2 ^ 32 }) (record t { elapsed_ticks = elapsed })
