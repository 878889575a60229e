-- ===== src/Sync/Inv.antt =====
-- The invariant of the semaphores of kernel/thread/sync.c.
use jat_os.Prelude.{ℕ, ◌+◌, ◌≤◌, ◌≡◌, false, ◌==◌, if◌then◌else◌, Bool-cases, inl, inr, arith}
use jat_os.Kernel.{TaskStatus, Kernel, sleeps}
use jat_os.Kernel.Queue.{count}
use jat_os.Sched.Inv.{Inv}
use jat_os.Sched.Switch.{Framed}

-- Every waiter of a semaphore sleeps, the idle thread waits nowhere, and a thread waits at most
-- once, at one semaphore.
pub record Waits (k : Kernel) : Type 0 where
  pub asleep : (s t : ℕ) → sleeps (k.task t).status ≡ false → count t (k.sema s).waiters ≡ 0
  pub idle_free : (s : ℕ) → count k.idle_thread (k.sema s).waiters ≡ 0
  pub once :
      (s u t : ℕ)
      → count t (k.sema s).waiters + (if s == u then 0 else count t (k.sema u).waiters) ≤ 1

-- The invariant of the ready queues and the semaphores.
pub record SyncInv (k : Kernel) : Type 0 where
  pub queues : Inv k
  pub waits : Waits k

-- The caller of a waiting function: running, and not the idle thread.
pub record Caller (k : Kernel) : Type 0 where
  pub run : (k.task k.cur).status ≡ TaskStatus.running
  pub not_idle : (k.idle_thread == k.cur) ≡ false

-- A switch keeps this invariant.
pub Framed-Waits : (k k' : Kernel) → Framed k k' → Waits k → Waits k'
Framed-Waits k k' sch w = record {
  asleep = λ s t h. elim (Bool-cases (sleeps (k.task t).status)) [
    | inr e ↦ omega (arith, sch.waiters s t, w.asleep s t e)
    | inl e ↦ elim (Bool-cases (k.idle_thread == t)) [
      | inr ne ↦ absurd (ground (arith, sch.sleepers t (ground arith) ne))
      | inl eq ↦ ground (arith, sch.waiters s t, w.idle_free s)
    ]
  ];
  idle_free = λ s. ground (arith, sch.same_idle, sch.waiters s k.idle_thread, w.idle_free s);
  once = λ s u t. ground (arith, sch.waiters s t, sch.waiters u t, w.once s u t);
}
