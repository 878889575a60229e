-- ===== src/IoQueue/Resume.antt =====
-- A thread of kernel/device/ioqueue.c that runs again in `ioq_wait`.
use jat_os.Prelude.{
  ℕ, ◌^◌, ◌<◌, ◌≡◌, refl, ap, ◌∙◌, true, false, ltb, ◌==◌, if◌then◌else◌, Bool-cases, List-cases,
  inl, inr, done, >>=-done, arith,
}
use jat_os.Kernel.{Task, Kernel}
use jat_os.Kernel.Queue.{count}
use jat_os.Sync.{Lock, null, lock_release}
use jat_os.Sync.Inv.{Caller}
use jat_os.Sync.Up.{Up}
use jat_os.Sync.Acquire.{LockInv-value}
use jat_os.Sync.Release.{Released, lock_release-Released}
use jat_os.IoQueue.{Ioqueue, Progress, ioq_empty, ioq_full, getchar_resume, putchar_resume}
use jat_os.IoQueue.Wake.{Waiter-Kept, Kept}
use jat_os.IoQueue.Inv.{IoInv}
use jat_os.IoQueue.Move.{Took, Stored}
use jat_os.IoQueue.Get.{Waiting, getchar_round-Got}
use jat_os.IoQueue.Put.{Stalled, putchar_round-Put}

Up-Kept :
    (k k' : Kernel) (s t : ℕ) → Up k s k' → ((u : ℕ) → count t (k.sema u).waiters ≡ 0) → Kept k k' t
Up-Kept k k' s t up unqueued = record {
  status = elim (List-cases (k.sema s).waiters) [
    | inl e ↦ ap (λ (f : ℕ → Task). (f t).status) (up.nobody e).0
    | inr (u, rest, e) ↦
        unfold count in ground (arith, (up.woken u rest e).3 t, unqueued s, ap (count t) e)
  ];
  same_idle = up.same_idle;
  waiters = λ u. up.fewer u t;
}

-- A release by the holder, whatever its depth.
Released-Kept :
    (l : Lock) (k : Kernel) (r : Lock × Kernel) (t : ℕ)
    → Released l k r
    → ((u : ℕ) → count t (k.sema u).waiters ≡ 0)
    → Kept k r.1 t
Released-Kept l k r t rel unqueued = elim (Bool-cases (ltb 1 l.holder_repeat_nr)) [
  | inr e ↦ Up-Kept k r.1 l.semaphore t (rel.last e).1 unqueued
  | inl e ↦ record {
    status = ap (λ (x : Kernel). (x.task t).status) (rel.nested e).1;
    same_idle = ap (λ (x : Kernel). x.idle_thread) (rel.nested e).1;
    waiters = λ u. ground (arith, ap (λ (x : Kernel). (x.sema u).waiters) (rel.nested e).1);
  }
]

Released-value :
    (l : Lock) (k : Kernel) (r : Lock × Kernel) (s : ℕ)
    → Released l k r
    → (l.semaphore == s) ≡ false
    → (r.1.sema s).value ≡ (k.sema s).value
Released-value l k r s rel ne = elim (Bool-cases (ltb 1 l.holder_repeat_nr)) [
  | inr e ↦ (rel.last e).1.other_values s ne
  | inl e ↦ ap (λ (x : Kernel). (x.sema s).value) (rel.nested e).1
]

module _ (q : Ioqueue) (k : Kernel) (inv : IoInv q k) (c : Caller k)
    (task_at : (k.cur == null) ≡ false) where
  Caller-Released : (l : Lock) (r : Lock × Kernel) → Released l k r → Caller r.1
  Caller-Released l r rel =
      let kept =
        Released-Kept l k r k.cur rel (λ u. ground (arith, inv.sync.waits.asleep u k.cur, c.run)) in
      record {
        run = ground (arith, kept.status, rel.same_cur, c.run);
        not_idle = ground (arith, kept.same_idle, rel.same_cur, c.not_idle);
      }

  IoInv-consumer :
      (q.lock_consumer.holder == k.cur) ≡ true
      → (r : Lock × Kernel) → Released q.lock_consumer k r
      → IoInv (record q { lock_consumer = r.0 }) r.1
  IoInv-consumer own r rel = record {
    ring = record { head_in = inv.ring.head_in; tail_in = inv.ring.tail_in };
    sync = rel.inv;
    consumer_lock = rel.lock_inv;
    producer_lock =
        LockInv-value q.lock_producer k r.1 (Released-value q.lock_consumer k r _ rel inv.two_locks)
          inv.producer_lock;
    two_locks = ground (arith, rel.same_semaphore, inv.two_locks);
    consumer = λ f. let w = inv.consumer f in absurd (ground (arith, w.holds, w.asleep, c.run));
    producer = λ f.
        let w = inv.producer f in
        Waiter-Kept k r.1 q.lock_producer q.lock_producer q.producer refl
          (Released-Kept q.lock_consumer k r q.producer rel w.unqueued) w;
    apart = inv.apart;
  }

  -- Under the invariant of the queue, its locks and the kernel, a running thread that holds the
  -- consumers' lock, and is not the idle one nor at NULL, gives a level of that lock back and then
  -- goes on as a new call of `ioq_getchar` does, with no ASSERT that fails.
  pub getchar_resume-Got :
      (q.lock_consumer.holder == k.cur) ≡ true
      → q.lock_consumer.holder_repeat_nr < 2 ^ 32
      → (p : Lock × Kernel) × (lock_release q.lock_consumer k ≡ done p)
        × Released q.lock_consumer k p
        × (r : Progress × Ioqueue × Kernel) × (getchar_resume q k ≡ done r)
        × (if ioq_empty q
            then Waiting (record q { lock_consumer = p.0 }) p.1 r
            else Took (record q { lock_consumer = p.0 }) p.1 r)
  unfolding getchar_resume ioq_empty
  getchar_resume-Got own small =
      let (p, e, rel) =
        lock_release-Released q.lock_consumer k inv.sync inv.consumer_lock task_at own in
      let held = inv.consumer_lock.held in
      let (r, f, out) =
        getchar_round-Got (record q { lock_consumer = p.0 }) p.1 (IoInv-consumer own p rel)
          (Caller-Released q.lock_consumer p rel) (ground (arith, rel.same_cur, task_at))
          (ground (arith, rel.fewer, held)) in
      (p, e, rel, r, >>=-done (lock_release q.lock_consumer k) _ p e ∙ f, out)

  IoInv-producer :
      (q.lock_producer.holder == k.cur) ≡ true
      → (r : Lock × Kernel) → Released q.lock_producer k r
      → IoInv (record q { lock_producer = r.0 }) r.1
  IoInv-producer own r rel = record {
    ring = record { head_in = inv.ring.head_in; tail_in = inv.ring.tail_in };
    sync = rel.inv;
    producer_lock = rel.lock_inv;
    consumer_lock =
        LockInv-value q.lock_consumer k r.1
          (Released-value q.lock_producer k r _ rel (ground (arith, inv.two_locks)))
          inv.consumer_lock;
    two_locks = ground (arith, rel.same_semaphore, inv.two_locks);
    producer = λ f. let w = inv.producer f in absurd (ground (arith, w.holds, w.asleep, c.run));
    consumer = λ f.
        let w = inv.consumer f in
        Waiter-Kept k r.1 q.lock_consumer q.lock_consumer q.consumer refl
          (Released-Kept q.lock_producer k r q.consumer rel w.unqueued) w;
    apart = inv.apart;
  }

  -- The same of a producer that runs again and `ioq_putchar`.
  pub putchar_resume-Put :
      (byte : ℕ)
      → (q.lock_producer.holder == k.cur) ≡ true
      → q.lock_producer.holder_repeat_nr < 2 ^ 32
      → (p : Lock × Kernel) × (lock_release q.lock_producer k ≡ done p)
        × Released q.lock_producer k p
        × (r : Progress × Ioqueue × Kernel) × (putchar_resume q byte k ≡ done r)
        × (if ioq_full q
            then Stalled (record q { lock_producer = p.0 }) p.1 r
            else Stored (record q { lock_producer = p.0 }) byte p.1 r)
  unfolding putchar_resume ioq_full
  putchar_resume-Put byte own small =
      let (p, e, rel) =
        lock_release-Released q.lock_producer k inv.sync inv.producer_lock task_at own in
      let held = inv.producer_lock.held in
      let (r, f, out) =
        putchar_round-Put (record q { lock_producer = p.0 }) p.1 (IoInv-producer own p rel)
          (Caller-Released q.lock_producer p rel) (ground (arith, rel.same_cur, task_at)) byte
          (ground (arith, rel.fewer, held)) in
      (p, e, rel, r, >>=-done (lock_release q.lock_producer k) _ p e ∙ f, out)
