-- ===== src/IoQueue/Inv.antt =====
-- The invariant of a queue of kernel/device/ioqueue.c together with the kernel.
use jat_os.Prelude.{◌≡◌, false, ◌==◌}
use jat_os.Kernel.{Kernel}
use jat_os.Sync.{null}
use jat_os.Sync.Inv.{SyncInv}
use jat_os.Sync.Acquire.{LockInv}
use jat_os.IoQueue.{Ioqueue}
use jat_os.IoQueue.Ring.{RingInv}
use jat_os.IoQueue.Wake.{Waiter}

pub record IoInv (q : Ioqueue) (k : Kernel) : Type 0 where
  pub ring : RingInv q
  pub sync : SyncInv k
  pub consumer_lock : LockInv q.lock_consumer k
  pub producer_lock : LockInv q.lock_producer k
  pub two_locks : (q.lock_consumer.semaphore == q.lock_producer.semaphore) ≡ false
  pub consumer : (q.consumer == null) ≡ false → Waiter k q.lock_consumer q.consumer
  pub producer : (q.producer == null) ≡ false → Waiter k q.lock_producer q.producer
  pub apart : (q.consumer == null) ≡ false → (q.producer == q.consumer) ≡ false
