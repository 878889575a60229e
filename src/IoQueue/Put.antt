-- ===== src/IoQueue/Put.antt =====
-- ioq_putchar of kernel/device/ioqueue.c.
use jat_os.Prelude.{
  ℕ, ◌+◌, ◌^◌, ◌<◌, ◌≡◌, ◌≢◌, refl, sym, ap, ◌∙◌, Bool, true, false, ◌||◌, ◌==◌, if◌then◌else◌,
  Bool-cases, inl, inr, done, >>=-done, arith,
}
use jat_os.Kernel.{TaskStatus, Kernel}
use jat_os.Sync.{Lock, null, lock_acquire_round}
use jat_os.Sync.Inv.{Caller}
use jat_os.Sync.Acquire.{LockInv-value, Acquired, lock_acquire_round-Acquired}
use jat_os.IoQueue.{
  Ioqueue, Progress, at_lock, at_queue, ioq_full, ioq_length, wait_producer, wait_if_held_producer,
  putchar_wait, putchar_round, put_char,
}
use jat_os.IoQueue.Ring.{contents}
use jat_os.IoQueue.Wake.{Waiter-Kept, Kept, Asleep-Kept}
use jat_os.IoQueue.Inv.{IoInv}
use jat_os.IoQueue.Block.{Blocked, thread_block-Blocked}
use jat_os.IoQueue.Move.{Stored, put_char-Stored}

-- The caller sleeps, at the lock of the producers if another thread holds it, else as the producer of
-- the queue; the characters are as before.
pub record Stalled (q : Ioqueue) (k : Kernel) (r : Progress × Ioqueue × Kernel) : Type 0 where
  pub inv : IoInv r.1 r.2
  pub blocked : (r.2.task k.cur).status ≡ TaskStatus.blocked
  pub other : r.2.cur ≢ k.cur
  pub same_contents : contents r.1 ≡ contents q
  pub place :
      if (q.lock_producer.holder == null) || (q.lock_producer.holder == k.cur)
      then (r.0 ≡ at_queue) × (r.1.producer ≡ k.cur)
      else (r.0 ≡ at_lock) × (r.1.producer ≡ q.producer)

module _ (q : Ioqueue) (k : Kernel) (inv : IoInv q k) (c : Caller k)
    (task_at : (k.cur == null) ≡ false) where
  module _ (old_status : Bool) (a : Bool × Lock × Kernel)
      (acq : Acquired old_status q.lock_producer k a) where
    abbrev relocked : Ioqueue
    relocked = record q { lock_producer = a.1 }

    nobody_waits : a.0 ≡ true → (q.producer == null) ≡ true
    nobody_waits e = elim (Bool-cases (q.producer == null)) [
      | inl none ↦ none
      | inr some ↦
          let w = inv.producer some in absurd (ground (arith, w.holds, w.asleep, acq.got, c.run))
    ]

    Kept-acquired : a.0 ≡ true → (t : ℕ) → Kept k a.2 t
    Kept-acquired e t = record {
      status = ground (arith, acq.holds e);
      same_idle = (acq.others e).0;
      waiters = λ s. ground (arith, (acq.others e).1 s);
    }

    Caller-acquired : a.0 ≡ true → Caller a.2
    Caller-acquired e = record {
      run = ground (arith, acq.holds e, c.run);
      not_idle = ground (arith, acq.holds e, acq.others e, c.not_idle);
    }

    Stalled-queue :
        a.0 ≡ true
        → (k' : Kernel) → Blocked a.2 k'
        → Stalled q k (at_queue, record relocked { producer = a.2.cur }, k')
    unfolding ioq_length
    Stalled-queue e k' b =
        let (holds, _, same_cur, same_task, _) = acq.holds e in
        let blocked : (k'.task k.cur).status ≡ TaskStatus.blocked =
          ground (arith, b.blocked, same_cur) in
        record {
          inv = record {
            ring = record { head_in = inv.ring.head_in; tail_in = inv.ring.tail_in };
            sync = b.inv;
            producer_lock = LockInv-value a.1 a.2 k' (b.values _) acq.lock_inv;
            consumer_lock =
                LockInv-value q.lock_consumer k k'
                  (ground (
                    arith,
                    b.values q.lock_consumer.semaphore,
                    (acq.others e).2 q.lock_consumer.semaphore,
                    inv.two_locks,
                  ))
                  inv.consumer_lock;
            two_locks = ground (arith, acq.same_semaphore, inv.two_locks);
            producer = λ f. record {
              asleep = ground (arith, b.blocked);
              holds = ground (arith, holds, same_cur);
              not_idle = ground (arith, b.same_idle, (acq.others e).0, same_cur, c.not_idle);
              unqueued = b.unqueued;
            };
            consumer = λ f.
                let w =
                  Waiter-Kept k a.2 q.lock_consumer q.lock_consumer q.consumer refl
                    (Kept-acquired e q.consumer) (inv.consumer f) in
                Waiter-Kept a.2 k' q.lock_consumer q.lock_consumer q.consumer refl
                  (b.kept q.consumer w.asleep w.not_idle) w;
            apart = λ f. ground (arith, (inv.consumer f).asleep, c.run, same_cur);
          };
          blocked = blocked;
          other = λ same. ground (arith, b.other, same_cur);
          same_contents = refl;
          place = rw (sym acq.got ∙ e) (refl, same_cur);
        }

    Stalled-lock : a.0 ≡ false → Stalled q k (at_lock, relocked, a.2)
    unfolding ioq_length
    Stalled-lock e =
        let (same, s) = acq.waits e in
        let holder : a.1.holder ≡ q.lock_producer.holder = ap (λ (x : Lock). x.holder) same in
        record {
          inv = record {
            ring = record { head_in = inv.ring.head_in; tail_in = inv.ring.tail_in };
            sync = acq.inv;
            producer_lock = acq.lock_inv;
            consumer_lock = LockInv-value q.lock_consumer k a.2 (s.values _) inv.consumer_lock;
            two_locks = ground (arith, acq.same_semaphore, inv.two_locks);
            producer = λ f.
                let w = inv.producer f in
                Waiter-Kept k a.2 q.lock_producer a.1 q.producer holder
                  (Asleep-Kept k a.2 _ q.lock_producer q.producer (ground (arith, w.asleep, c.run))
                    w s)
                  w;
            consumer = λ f.
                let w = inv.consumer f in
                Waiter-Kept k a.2 q.lock_consumer q.lock_consumer q.consumer refl
                  (Asleep-Kept k a.2 _ q.lock_consumer q.consumer (ground (arith, w.asleep, c.run))
                    w s)
                  w;
            apart = inv.apart;
          };
          blocked = s.blocked;
          other = s.other;
          same_contents = refl;
          place = rw (sym acq.got ∙ e) (refl, refl);
        }

    wait_if_held-Stalled :
        (r : Progress × Ioqueue × Kernel) × (wait_if_held_producer q a ≡ done r) × Stalled q k r
    unfolding wait_if_held_producer wait_producer
    wait_if_held-Stalled = elim (Bool-cases a.0) [
      | inr e ↦ ((at_lock, relocked, a.2), rw e refl, Stalled-lock e)
      | inl e ↦
          let (k', f, b) = thread_block-Blocked a.2 acq.inv (Caller-acquired e) in
          (
            (at_queue, record relocked { producer = a.2.cur }, k'),
            rw (e, nobody_waits e, f) refl,
            Stalled-queue e k' b,
          )
    ]

  -- One turn of the waiting loop, from its beginning or from the lock on.
  pub putchar_wait-Stalled :
      (old_status : Bool)
      → q.lock_producer.holder_repeat_nr + 1 < 2 ^ 32
      → (r : Progress × Ioqueue × Kernel) × (putchar_wait old_status q k ≡ done r) × Stalled q k r
  unfolding putchar_wait wait_if_held_producer
  putchar_wait-Stalled old_status small =
      let (a, e, acq) =
        lock_acquire_round-Acquired old_status q.lock_producer k inv.sync inv.producer_lock c
          task_at small in
      let (r, f, w) = wait_if_held-Stalled old_status a acq in
      (
        r,
        >>=-done (lock_acquire_round old_status q.lock_producer k) (wait_if_held_producer q) a e
            ∙ f,
        w,
      )

  -- Under the invariant of the queue, its locks and the kernel, a call of `ioq_putchar` by a
  -- running thread that is not the idle one nor at NULL, with the producers' lock nested less than
  -- 2 ^ 32 - 1 deep, fails no ASSERT up to the first switch to another thread, and keeps the
  -- invariant. If the queue has room, the character stands behind all others, and a consumer that
  -- waited is ready at the front of the first queue. Else the caller sleeps: as the producer, with
  -- the producers' lock, if that was free or its own, and else at that lock.
  pub putchar_round-Put :
      (byte : ℕ)
      → q.lock_producer.holder_repeat_nr + 1 < 2 ^ 32
      → (r : Progress × Ioqueue × Kernel) × (putchar_round q byte k ≡ done r)
        × (if ioq_full q then Stalled q k r else Stored q byte k r)
  unfolding putchar_round
  putchar_round-Put byte small = elim (Bool-cases (ioq_full q)) [
    | inl e ↦ let (r, f, w) = putchar_wait-Stalled k.intr small in (r, rw e f, rw e w)
    | inr e ↦ let (r, f, t) = put_char-Stored q k inv byte e in (r, rw e f, rw e t)
  ]

-- On a queue with room, a call of `ioq_putchar` stores the character.
pub putchar_round-room :
    (q : Ioqueue) (k : Kernel) (byte : ℕ)
    → ioq_full q ≡ false
    → putchar_round q byte k ≡ put_char q byte k
unfolding putchar_round
putchar_round-room q k byte room = rw room refl
