-- ===== src/IoQueue/Wake.antt =====
-- The threads that wait at a queue of kernel/device/ioqueue.c, and their waking.
use jat_os.Prelude.{
  ℕ, ◌≤◌, ◌≡◌, refl, ap, ◌∙◌, true, false, ◌∷◌, ◌==◌, Bool-cases, inl, inr, done, arith,
}
use jat_os.Kernel.{TaskStatus, Task, Kernel, sleeps}
use jat_os.Kernel.Queue.{count, count-remove}
use jat_os.Sched.Calls.{Unblocked, thread_unblock-Unblocked}
use jat_os.Sync.{Lock, null}
use jat_os.Sync.Down.{Asleep}
use jat_os.Sync.Inv.{Waits, SyncInv}
use jat_os.IoQueue.{wakeup}

-- A thread that waits at a queue sleeps, holds the lock of its side, and waits at no semaphore.
pub record Waiter (k : Kernel) (l : Lock) (t : ℕ) : Type 0 where
  pub asleep : sleeps (k.task t).status ≡ true
  pub holds : l.holder ≡ t
  pub not_idle : (k.idle_thread == t) ≡ false
  pub unqueued : (s : ℕ) → count t (k.sema s).waiters ≡ 0

-- What changes in the kernel may not touch for a thread to go on waiting.
pub record Kept (k k' : Kernel) (t : ℕ) : Type 0 where
  pub status : (k'.task t).status ≡ (k.task t).status
  pub same_idle : k'.idle_thread ≡ k.idle_thread
  pub waiters : (s : ℕ) → count t (k'.sema s).waiters ≤ count t (k.sema s).waiters

pub Waiter-Kept :
    (k k' : Kernel) (l l' : Lock) (t : ℕ)
    → l'.holder ≡ l.holder
    → Kept k k' t
    → Waiter k l t
    → Waiter k' l' t
Waiter-Kept k k' l l' t same kept w = record {
  asleep = ap sleeps kept.status ∙ w.asleep;
  holds = same ∙ w.holds;
  not_idle = ground (arith, kept.same_idle, w.not_idle);
  unqueued = λ s. omega (arith, kept.waiters s, w.unqueued s);
}

pub Asleep-Kept :
    (k k' : Kernel) (s : ℕ) (l : Lock) (t : ℕ)
    → (k.cur == t) ≡ false
    → Waiter k l t
    → Asleep k s k'
    → Kept k k' t
Asleep-Kept k k' s l t ne w a = record {
  status = a.sleepers t w.asleep w.not_idle;
  same_idle = a.same_idle;
  waiters = λ u. a.waiters u t ne;
}

Unblocked-Waits : (k k' : Kernel) (t : ℕ) → Unblocked k t k' → Waits k → Waits k'
Unblocked-Waits k k' t un w = record {
  asleep = λ s x h. ground (
    arith,
    un.waiters s,
    un.others x,
    w.asleep s x,
    w.once s s x,
    count-remove x t (k.sema s).waiters,
  );
  idle_free = λ s. ground (
    arith,
    un.waiters s,
    un.same_idle,
    w.idle_free s,
    count-remove k.idle_thread t (k.sema s).waiters,
  );
  once = λ s u x. ground (
    arith,
    un.waiters s,
    un.waiters u,
    w.once s u x,
    count-remove x t (k.sema s).waiters,
    count-remove x t (k.sema u).waiters,
  );
}

-- The thread `t`, if it is none, is ready at the front of the first queue; every other goes on.
pub record Awoken (k : Kernel) (t : ℕ) (k' : Kernel) : Type 0 where
  pub inv : SyncInv k'
  pub same_cur : k'.cur ≡ k.cur
  pub same_intr : k'.intr ≡ k.intr
  pub values : (s : ℕ) → (k'.sema s).value ≡ (k.sema s).value
  pub kept : (u : ℕ) → (t == u) ≡ false → (k'.task u ≡ k.task u) × Kept k k' u
  pub ready :
      (t == null) ≡ false
      → (k'.ready_list ≡ t ∷ k.ready_list) × ((k'.task t).status ≡ TaskStatus.ready)
  pub nobody : (t == null) ≡ true → k' ≡ k

pub wakeup-Awoken :
    (k : Kernel) (t : ℕ)
    → SyncInv k
    → ((t == null) ≡ false → sleeps (k.task t).status ≡ true)
    → (k' : Kernel) × (wakeup t k ≡ done k') × Awoken k t k'
unfolding wakeup
wakeup-Awoken k t inv asleep = elim (Bool-cases (t == null)) [
  | inl e ↦ (
    k,
    rw e refl,
    record {
      inv = inv;
      same_cur = refl;
      same_intr = refl;
      values = λ s. refl;
      kept = λ u ne. (refl, record { status = refl; same_idle = refl; waiters = λ s. omega arith });
      ready = λ f. absurd (ground arith);
      nobody = λ _. refl;
    },
  )
  | inr e ↦
      let (k', f, un) = thread_unblock-Unblocked t k inv.queues (asleep e) in
      (
        k',
        rw (e, f) refl,
        record {
          inv = record { queues = un.inv; waits = Unblocked-Waits k k' t un inv.waits };
          same_cur = un.same_cur;
          same_intr = un.same_intr;
          values = un.values;
          kept = λ u ne. (
            un.others u ne,
            record {
              status = ap (λ (x : Task). x.status) (un.others u ne);
              same_idle = un.same_idle;
              waiters = λ s. ground (arith, un.waiters s, count-remove u t (k.sema s).waiters);
            },
          );
          ready = λ _. (un.front, ap (λ (x : Task). x.status) un.new_task);
          nobody = λ g. absurd (ground arith);
        },
      )
]
