-- ===== src/IoQueue/Get.antt =====
-- ioq_getchar of kernel/device/ioqueue.c.
use jat_os.Prelude.{
  ℕ, ◌+◌, ◌^◌, ◌<◌, ◌≡◌, ◌≢◌, refl, sym, ap, ◌∙◌, Bool, true, false, ◌||◌, ◌==◌, if◌then◌else◌,
  Bool-cases, inl, inr, done, >>=-done, arith,
}
use jat_os.Kernel.{TaskStatus, Kernel}
use jat_os.Sync.{Lock, null, lock_acquire_round}
use jat_os.Sync.Inv.{Caller}
use jat_os.Sync.Acquire.{LockInv-value, Acquired, lock_acquire_round-Acquired}
use jat_os.IoQueue.{
  Ioqueue, Progress, at_lock, at_queue, ioq_empty, ioq_length, wait_consumer, wait_if_held_consumer,
  getchar_wait, getchar_round,
}
use jat_os.IoQueue.Ring.{contents}
use jat_os.IoQueue.Wake.{Waiter-Kept, Kept, Asleep-Kept}
use jat_os.IoQueue.Inv.{IoInv}
use jat_os.IoQueue.Block.{Blocked, thread_block-Blocked}
use jat_os.IoQueue.Move.{Took, take_char-Took}

-- The caller sleeps, at the lock of the consumers if another thread holds it, else as the consumer of
-- the queue; the characters are as before.
pub record Waiting (q : Ioqueue) (k : Kernel) (r : Progress × Ioqueue × Kernel) : Type 0 where
  pub inv : IoInv r.1 r.2
  pub blocked : (r.2.task k.cur).status ≡ TaskStatus.blocked
  pub other : r.2.cur ≢ k.cur
  pub same_contents : contents r.1 ≡ contents q
  pub place :
      if (q.lock_consumer.holder == null) || (q.lock_consumer.holder == k.cur)
      then (r.0 ≡ at_queue) × (r.1.consumer ≡ k.cur)
      else (r.0 ≡ at_lock) × (r.1.consumer ≡ q.consumer)

module _ (q : Ioqueue) (k : Kernel) (inv : IoInv q k) (c : Caller k)
    (task_at : (k.cur == null) ≡ false) where
  module _ (old_status : Bool) (a : Bool × Lock × Kernel)
      (acq : Acquired old_status q.lock_consumer k a) where
    abbrev relocked : Ioqueue
    relocked = record q { lock_consumer = a.1 }

    nobody_waits : a.0 ≡ true → (q.consumer == null) ≡ true
    nobody_waits e = elim (Bool-cases (q.consumer == null)) [
      | inl none ↦ none
      | inr some ↦
          let w = inv.consumer some in absurd (ground (arith, w.holds, w.asleep, acq.got, c.run))
    ]

    Kept-acquired : a.0 ≡ true → (t : ℕ) → Kept k a.2 t
    Kept-acquired e t = record {
      status = ground (arith, acq.holds e);
      same_idle = (acq.others e).0;
      waiters = λ s. ground (arith, (acq.others e).1 s);
    }

    Caller-acquired : a.0 ≡ true → Caller a.2
    Caller-acquired e = record {
      run = ground (arith, acq.holds e, c.run);
      not_idle = ground (arith, acq.holds e, acq.others e, c.not_idle);
    }

    Waiting-queue :
        a.0 ≡ true
        → (k' : Kernel) → Blocked a.2 k'
        → Waiting q k (at_queue, record relocked { consumer = a.2.cur }, k')
    unfolding ioq_length
    Waiting-queue e k' b =
        let (holds, _, same_cur, same_task, _) = acq.holds e in
        let blocked : (k'.task k.cur).status ≡ TaskStatus.blocked =
          ground (arith, b.blocked, same_cur) in
        record {
          inv = record {
            ring = record { head_in = inv.ring.head_in; tail_in = inv.ring.tail_in };
            sync = b.inv;
            consumer_lock = LockInv-value a.1 a.2 k' (b.values _) acq.lock_inv;
            producer_lock =
                LockInv-value q.lock_producer k k'
                  (ground (
                    arith,
                    b.values q.lock_producer.semaphore,
                    (acq.others e).2 q.lock_producer.semaphore,
                    inv.two_locks,
                  ))
                  inv.producer_lock;
            two_locks = ground (arith, acq.same_semaphore, inv.two_locks);
            consumer = λ f. record {
              asleep = ground (arith, b.blocked);
              holds = ground (arith, holds, same_cur);
              not_idle = ground (arith, b.same_idle, (acq.others e).0, same_cur, c.not_idle);
              unqueued = b.unqueued;
            };
            producer = λ f.
                let w =
                  Waiter-Kept k a.2 q.lock_producer q.lock_producer q.producer refl
                    (Kept-acquired e q.producer) (inv.producer f) in
                Waiter-Kept a.2 k' q.lock_producer q.lock_producer q.producer refl
                  (b.kept q.producer w.asleep w.not_idle) w;
            apart = λ f. elim (Bool-cases (q.producer == null)) [
              | inl none ↦ ground (arith, same_cur, task_at)
              | inr some ↦ ground (arith, (inv.producer some).asleep, c.run, same_cur)
            ];
          };
          blocked = blocked;
          other = λ same. ground (arith, b.other, same_cur);
          same_contents = refl;
          place = rw (sym acq.got ∙ e) (refl, same_cur);
        }

    Waiting-lock : a.0 ≡ false → Waiting q k (at_lock, relocked, a.2)
    unfolding ioq_length
    Waiting-lock e =
        let (same, s) = acq.waits e in
        let holder : a.1.holder ≡ q.lock_consumer.holder = ap (λ (x : Lock). x.holder) same in
        record {
          inv = record {
            ring = record { head_in = inv.ring.head_in; tail_in = inv.ring.tail_in };
            sync = acq.inv;
            consumer_lock = acq.lock_inv;
            producer_lock = LockInv-value q.lock_producer k a.2 (s.values _) inv.producer_lock;
            two_locks = ground (arith, acq.same_semaphore, inv.two_locks);
            consumer = λ f.
                let w = inv.consumer f in
                Waiter-Kept k a.2 q.lock_consumer a.1 q.consumer holder
                  (Asleep-Kept k a.2 _ q.lock_consumer q.consumer (ground (arith, w.asleep, c.run))
                    w s)
                  w;
            producer = λ f.
                let w = inv.producer f in
                Waiter-Kept k a.2 q.lock_producer q.lock_producer q.producer refl
                  (Asleep-Kept k a.2 _ q.lock_producer q.producer (ground (arith, w.asleep, c.run))
                    w s)
                  w;
            apart = inv.apart;
          };
          blocked = s.blocked;
          other = s.other;
          same_contents = refl;
          place = rw (sym acq.got ∙ e) (refl, refl);
        }

    wait_if_held-Waiting :
        (r : Progress × Ioqueue × Kernel) × (wait_if_held_consumer q a ≡ done r) × Waiting q k r
    unfolding wait_if_held_consumer wait_consumer
    wait_if_held-Waiting = elim (Bool-cases a.0) [
      | inr e ↦ ((at_lock, relocked, a.2), rw e refl, Waiting-lock e)
      | inl e ↦
          let (k', f, b) = thread_block-Blocked a.2 acq.inv (Caller-acquired e) in
          (
            (at_queue, record relocked { consumer = a.2.cur }, k'),
            rw (e, nobody_waits e, f) refl,
            Waiting-queue e k' b,
          )
    ]

  -- One turn of the waiting loop, from its beginning or from the lock on.
  pub getchar_wait-Waiting :
      (old_status : Bool)
      → q.lock_consumer.holder_repeat_nr + 1 < 2 ^ 32
      → (r : Progress × Ioqueue × Kernel) × (getchar_wait old_status q k ≡ done r) × Waiting q k r
  unfolding getchar_wait wait_if_held_consumer
  getchar_wait-Waiting old_status small =
      let (a, e, acq) =
        lock_acquire_round-Acquired old_status q.lock_consumer k inv.sync inv.consumer_lock c
          task_at small in
      let (r, f, w) = wait_if_held-Waiting old_status a acq in
      (
        r,
        >>=-done (lock_acquire_round old_status q.lock_consumer k) (wait_if_held_consumer q) a e
            ∙ f,
        w,
      )

  -- Under the invariant of the queue, its locks and the kernel, a call of `ioq_getchar` by a
  -- running thread that is not the idle one nor at NULL, with the consumers' lock nested less than
  -- 2 ^ 32 - 1 deep, fails no ASSERT up to the first switch to another thread, and keeps the
  -- invariant. If the queue has a character, the oldest one is returned and gone from the queue,
  -- and a producer that waited is ready at the front of the first queue. Else the caller sleeps:
  -- as the consumer, with the consumers' lock, if that was free or its own, and else at that lock.
  pub getchar_round-Got :
      q.lock_consumer.holder_repeat_nr + 1 < 2 ^ 32
      → (r : Progress × Ioqueue × Kernel) × (getchar_round q k ≡ done r)
        × (if ioq_empty q then Waiting q k r else Took q k r)
  unfolding getchar_round
  getchar_round-Got small = elim (Bool-cases (ioq_empty q)) [
    | inl e ↦ let (r, f, w) = getchar_wait-Waiting k.intr small in (r, rw e f, rw e w)
    | inr e ↦ let (r, f, t) = take_char-Took q k inv e in (r, rw e f, rw e t)
  ]
