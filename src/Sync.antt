-- ===== src/Sync.antt =====
-- Semaphores and locks: kernel/thread/sync.c; and thread_wait and thread_exit of
-- kernel/thread/thread.c, which stand on them.
-- A call that has to wait is cut where the processor goes to another thread: a round of `sema_down`
-- or `lock_acquire` either gets through or leaves the thread asleep, and the thread takes the next
-- round when it runs again, with the interrupt flag `old_status` that its call began with.
pub mod Inv
pub mod Down
pub mod Up
pub mod Acquire
pub mod Release
pub mod Protocol
pub mod Exit
mod Tests
use jat_os.Prelude.{
  ℕ, zero, suc, ◌+◌, ◌-◌, ◌%◌, ◌^◌, Bool, true, false, not, ◌&&◌, List, [], ◌∷◌, ◌++◌, ltb, ◌==◌,
  if◌then◌else◌, Outcome, done, ◌>>=◌, ◌>>◌, assert,
}
use jat_os.Kernel.{TaskStatus, Task, Semaphore, Kernel, set_task, set_status, set_sema}
use jat_os.Kernel.Queue.{member, remove}
use jat_os.Sched.{unlink, schedule, thread_block, thread_unblock}

-- `struct lock`, with the address of its semaphore. No holder is NULL.
pub record Lock : Type 0 where
  pub holder : ℕ
  pub semaphore : ℕ
  pub holder_repeat_nr : ℕ

abbrev pub null : ℕ
null = 0

pub sema_init : Kernel → ℕ → ℕ → Kernel
sema_init k s value = set_sema k s (record { value = value % 256; waiters = [] })

pub lock_init : Kernel → Lock → Lock × Kernel
unfolding sema_init
lock_init k l = (record l { holder = null; holder_repeat_nr = 0 }, sema_init k l.semaphore 1)

-- `if (!elem_find(...)) { list_remove(...); list_append(...); }`
pub wait_at : ℕ → Kernel → Kernel
wait_at s k =
    let k1 = unlink k.cur k in
    if member k.cur (k.sema s).waiters
    then k
    else set_sema k1 s (record (k1.sema s) { waiters = (k1.sema s).waiters ++ k.cur ∷ [] })

-- One round of the loop, with interrupts off: whether the semaphore was taken.
pub sema_down_round : Bool → ℕ → Kernel → Outcome (Bool × Kernel)
sema_down_round old_status s k =
    if (k.sema s).value == 0
    then (do k' ← thread_block TaskStatus.blocked (wait_at s k); done (false, k'))
    else done (
      true,
      record (set_sema k s (record (k.sema s) { value = (k.sema s).value - 1 })) {
        intr = old_status;
      },
    )

pub sema_down : ℕ → Kernel → Outcome (Bool × Kernel)
sema_down s k = sema_down_round k.intr s (record k { intr = false })

-- `if (!list_empty(&waiters)) thread_unblock(list_pop(&waiters))`
pub wake_first : List ℕ → ℕ → Kernel → Outcome Kernel
wake_first [] s k = done k
wake_first (t ∷ rest) s k = thread_unblock t (set_sema k s (record (k.sema s) { waiters = rest }))

pub sema_up : ℕ → Kernel → Outcome Kernel
sema_up s k = do
  k1 ← wake_first (k.sema s).waiters s (record k { intr = false })
  let more = record (k1.sema s) { value = ((k1.sema s).value + 1) % 256 }
  done (record (set_sema k1 s more) { intr = k.intr })

-- Behind the round of `sema_down` inside `lock_acquire`.
acquire_end : Bool → Lock → Bool → Kernel → Outcome (Bool × Lock × Kernel)
acquire_end old_status l false k = done (false, l, k)
acquire_end old_status l true k = do
  assert (l.holder_repeat_nr == 0)
  done (true, record l { holder = k.cur; holder_repeat_nr = 1 }, record k { intr = old_status })

-- One round of `lock_acquire`: whether the lock is held when it ends.
pub lock_acquire_round : Bool → Lock → Kernel → Outcome (Bool × Lock × Kernel)
unfolding acquire_end
lock_acquire_round old_status l k =
    let again = record l { holder_repeat_nr = (l.holder_repeat_nr + 1) % 2 ^ 32 } in
    if not (l.holder == k.cur)
    then sema_down_round false l.semaphore (record k { intr = false })
      >>= (λ p. acquire_end old_status l p.0 p.1)
    else done (true, again, record k { intr = old_status })

pub lock_acquire : Lock → Kernel → Outcome (Bool × Lock × Kernel)
lock_acquire l k = lock_acquire_round k.intr l k

-- The last release, which gives the lock free.
release_last : Lock → Kernel → Outcome (Lock × Kernel)
release_last l k = do
  assert (l.holder_repeat_nr == 1)
  k' ← sema_up l.semaphore (record k { intr = false })
  done (record l { holder = null; holder_repeat_nr = 0 }, record k' { intr = k.intr })

-- The early return skips the last line of the function, which restores the interrupt flag.
pub lock_release : Lock → Kernel → Outcome (Lock × Kernel)
unfolding release_last
lock_release l k = do
  assert (l.holder == k.cur)
  let fewer = record l { holder_repeat_nr = l.holder_repeat_nr - 1 }
  if ltb 1 l.holder_repeat_nr then done (fewer, record k { intr = false }) else release_last l k

pub thread_wait : Kernel → Outcome (Bool × Kernel)
thread_wait k = sema_down (k.task k.cur).waiting_sema k

-- The walk over the list of all threads.
pub wake_parents : ℕ → List ℕ → Kernel → Outcome Kernel
wake_parents parent_pid [] k = done k
wake_parents parent_pid (t ∷ ts) k = do
  k' ← if (k.task t).pid == parent_pid then sema_up (k.task t).waiting_sema k else done k
  wake_parents parent_pid ts k'

-- `pid_t` has 16 bits: the parent -1 is 65535.
pub thread_exit : Kernel → Outcome Kernel
thread_exit k = do
  let k1 = set_status (unlink k.cur (record k { intr = false })) k.cur TaskStatus.died
  let parent = (k.task k.cur).parent_pid
  k2 ← if not (parent == 2 ^ 16 - 1) then wake_parents parent k1.all_list k1 else done k1
  schedule k.intr k2
