-- ===== src/IoQueue.antt =====
-- The queue of characters between threads: kernel/device/ioqueue.c.
-- A call is cut where the processor goes to another thread. `getchar_round` is the call up to there,
-- `getchar_wait` goes on when the thread was asleep at the lock, `getchar_resume` when it was woken
-- in `ioq_wait`; and so for `ioq_putchar`.
pub mod Ring
pub mod Wake
pub mod Inv
pub mod Move
pub mod Block
pub mod Get
pub mod Put
pub mod Resume
pub mod Demo
mod Tests
use jat_os.Prelude.{
  ℕ, zero, suc, ◌+◌, ◌-◌, ◌%◌, Bool, true, false, not, List, [], ◌∷◌, leb, ◌==◌, if◌then◌else◌,
  Outcome, done, ◌>>=◌, ◌>>◌, assert,
}
use jat_os.Kernel.{TaskStatus, Kernel}
use jat_os.Sched.{thread_block, thread_unblock}
use jat_os.Sync.{Lock, null, lock_init, lock_acquire_round, lock_release}

abbrev pub bufsize : ℕ
bufsize = 64

-- `struct ioqueue`. `producer` and `consumer` are the threads that wait, or NULL; `buf` gives the
-- character at an index.
pub record Ioqueue : Type 0 where
  pub lock_consumer : Lock
  pub lock_producer : Lock
  pub producer : ℕ
  pub consumer : ℕ
  pub buf : ℕ → ℕ
  pub head : ℕ
  pub tail : ℕ

-- How far a call gets: to its end, or asleep at the lock or at the queue.
pub data Progress : Type 0 where
  returned : ℕ → Progress
  at_lock at_queue : Progress

pub ioqueue_init : Kernel → Ioqueue → Ioqueue × Kernel
ioqueue_init k q =
    let p = lock_init k q.lock_producer in
    let c = lock_init p.1 q.lock_consumer in
    (
      record q {
        lock_producer = p.0;
        lock_consumer = c.0;
        producer = null;
        consumer = null;
        head = 0;
        tail = 0;
      },
      c.1,
    )

unfoldable pub next_pos : ℕ → ℕ
next_pos pos = (pos + 1) % bufsize

unfoldable pub ioq_full : Ioqueue → Bool
unfolding next_pos
ioq_full q = next_pos q.head == q.tail

unfoldable pub ioq_empty : Ioqueue → Bool
ioq_empty q = q.head == q.tail

unfoldable pub ioq_length : Ioqueue → ℕ
ioq_length q = if leb q.tail q.head then q.head - q.tail else bufsize - (q.tail - q.head)

-- `ioq_wait(&ioq->consumer)` up to the switch.
pub wait_consumer : Ioqueue → Kernel → Outcome (Progress × Ioqueue × Kernel)
wait_consumer q k = do
  assert (q.consumer == null)
  k' ← thread_block TaskStatus.blocked k
  done (at_queue, record q { consumer = k.cur }, k')

-- `ioq_wait(&ioq->producer)` up to the switch.
pub wait_producer : Ioqueue → Kernel → Outcome (Progress × Ioqueue × Kernel)
wait_producer q k = do
  assert (q.producer == null)
  k' ← thread_block TaskStatus.blocked k
  done (at_queue, record q { producer = k.cur }, k')

-- `if (*waiter != NULL) wakeup(waiter)`: the thread is unblocked, if there is one.
pub wakeup : ℕ → Kernel → Outcome Kernel
wakeup waiter k = if not (waiter == null) then thread_unblock waiter k else done k

-- `ioq_getchar` behind its loop.
pub take_char : Ioqueue → Kernel → Outcome (Progress × Ioqueue × Kernel)
unfolding next_pos wakeup
take_char q k = do
  let byte = q.buf q.tail
  k' ← wakeup q.producer k
  done (returned byte, record q { tail = next_pos q.tail; producer = null }, k')

-- `ioq_putchar` behind its loop.
pub put_char : Ioqueue → ℕ → Kernel → Outcome (Progress × Ioqueue × Kernel)
unfolding next_pos wakeup
put_char q byte k = do
  k' ← wakeup q.consumer k
  done (
    returned byte,
    record q {
      buf = λ i. if q.head == i then byte else q.buf i;
      head = next_pos q.head;
      consumer = null;
    },
    k',
  )

wait_if_held_consumer : Ioqueue → Bool × Lock × Kernel → Outcome (Progress × Ioqueue × Kernel)
wait_if_held_consumer q r =
    if r.0
    then wait_consumer (record q { lock_consumer = r.1 }) r.2
    else done (at_lock, record q { lock_consumer = r.1 }, r.2)

wait_if_held_producer : Ioqueue → Bool × Lock × Kernel → Outcome (Progress × Ioqueue × Kernel)
wait_if_held_producer q r =
    if r.0
    then wait_producer (record q { lock_producer = r.1 }) r.2
    else done (at_lock, record q { lock_producer = r.1 }, r.2)

-- The body of the loop of `ioq_getchar`, and of `ioq_putchar`.
pub getchar_wait : Bool → Ioqueue → Kernel → Outcome (Progress × Ioqueue × Kernel)
unfolding wait_if_held_consumer
getchar_wait old_status q k =
    lock_acquire_round old_status q.lock_consumer k >>= wait_if_held_consumer q

pub putchar_wait : Bool → Ioqueue → Kernel → Outcome (Progress × Ioqueue × Kernel)
unfolding wait_if_held_producer
putchar_wait old_status q k =
    lock_acquire_round old_status q.lock_producer k >>= wait_if_held_producer q

pub getchar_round : Ioqueue → Kernel → Outcome (Progress × Ioqueue × Kernel)
getchar_round q k = if ioq_empty q then getchar_wait k.intr q k else take_char q k

pub putchar_round : Ioqueue → ℕ → Kernel → Outcome (Progress × Ioqueue × Kernel)
putchar_round q byte k = if ioq_full q then putchar_wait k.intr q k else put_char q byte k

-- Woken in `ioq_wait`: the lock is given back and the loop goes on.
pub getchar_resume : Ioqueue → Kernel → Outcome (Progress × Ioqueue × Kernel)
getchar_resume q k = do
  p ← lock_release q.lock_consumer k
  getchar_round (record q { lock_consumer = p.0 }) p.1

pub putchar_resume : Ioqueue → ℕ → Kernel → Outcome (Progress × Ioqueue × Kernel)
putchar_resume q byte k = do
  p ← lock_release q.lock_producer k
  putchar_round (record q { lock_producer = p.0 }) byte p.1
