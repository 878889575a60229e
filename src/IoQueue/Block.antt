-- ===== src/IoQueue/Block.antt =====
-- thread_block, as a queue of kernel/device/ioqueue.c calls it.
use jat_os.Prelude.{ℕ, ◌≡◌, ◌≢◌, refl, true, false, ◌==◌, done, arith}
use jat_os.Kernel.{TaskStatus, Kernel, sleeps, set_status}
use jat_os.Kernel.Queue.{count}
use jat_os.Sched.{thread_block}
use jat_os.Sched.Switch.{Scheduled-Framed}
use jat_os.Sched.Calls.{thread_block-Scheduled}
use jat_os.Sync.Inv.{Waits, SyncInv, Caller, Framed-Waits}
use jat_os.IoQueue.Wake.{Kept}

-- The caller is blocked without a place in any list, and another thread runs.
pub record Blocked (k k' : Kernel) : Type 0 where
  pub inv : SyncInv k'
  pub blocked : (k'.task k.cur).status ≡ TaskStatus.blocked
  pub other : k'.cur ≢ k.cur
  pub runs : (k'.task k'.cur).status ≡ TaskStatus.running
  pub values : (s : ℕ) → (k'.sema s).value ≡ (k.sema s).value
  pub same_idle : k'.idle_thread ≡ k.idle_thread
  pub unqueued : (s : ℕ) → count k.cur (k'.sema s).waiters ≡ 0
  pub kept : (t : ℕ) → sleeps (k.task t).status ≡ true → (k.idle_thread == t) ≡ false → Kept k k' t

module _ (k : Kernel) (inv : SyncInv k) (c : Caller k) where
  abbrev stopped : Kernel
  stopped = set_status (record k { intr = false }) k.cur TaskStatus.blocked

  Waits-stopped : Waits stopped
  Waits-stopped = record {
    asleep = λ s t h. ground (arith, inv.waits.asleep s t);
    idle_free = inv.waits.idle_free;
    once = inv.waits.once;
  }

  pub thread_block-Blocked :
      (k' : Kernel) × (thread_block TaskStatus.blocked k ≡ done k') × Blocked k k'
  thread_block-Blocked =
      let (k', e, sch) = thread_block-Scheduled k inv.queues c.run TaskStatus.blocked refl in
      let blocked : (k'.task k.cur).status ≡ TaskStatus.blocked =
        ground (arith, sch.sleepers k.cur, c.not_idle) in
      (
        k',
        e,
        record {
          inv = record {
            queues = sch.inv;
            waits = Framed-Waits stopped k' (Scheduled-Framed stopped k' k.intr sch) Waits-stopped;
          };
          blocked = blocked;
          other = λ same. ground (arith, blocked, sch.runs);
          runs = sch.runs;
          values = sch.values;
          same_idle = sch.same_idle;
          unqueued = λ s. ground (arith, sch.waiters s k.cur, inv.waits.asleep s k.cur, c.run);
          kept = λ t h ne. record {
            status = ground (arith, sch.sleepers t, c.run);
            same_idle = sch.same_idle;
            waiters = λ s. sch.waiters s t;
          };
        },
      )
