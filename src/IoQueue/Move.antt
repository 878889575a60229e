-- ===== src/IoQueue/Move.antt =====
-- ioq_getchar and ioq_putchar of kernel/device/ioqueue.c behind their loops.
use jat_os.Prelude.{ℕ, ◌≡◌, refl, false, [], ◌∷◌, ◌++◌, done, arith}
use jat_os.Kernel.{Kernel}
use jat_os.Sync.{null}
use jat_os.Sync.Acquire.{LockInv-value}
use jat_os.IoQueue.{Ioqueue, Progress, returned, next_pos, ioq_full, ioq_empty, take_char, put_char}
use jat_os.IoQueue.Ring.{contents, contents-put, contents-take, write}
use jat_os.IoQueue.Wake.{Waiter-Kept, Awoken, wakeup-Awoken}
use jat_os.IoQueue.Inv.{IoInv}

-- The oldest character is returned, and a producer that waited is woken.
pub record Took (q : Ioqueue) (k : Kernel) (r : Progress × Ioqueue × Kernel) : Type 0 where
  pub inv : IoInv r.1 r.2
  pub taken : (c : ℕ) × (r.0 ≡ returned c) × (contents q ≡ c ∷ contents r.1)
  pub woken : Awoken k q.producer r.2
  pub no_producer : r.1.producer ≡ null
  pub same_locks : (r.1.lock_consumer ≡ q.lock_consumer) × (r.1.lock_producer ≡ q.lock_producer)

-- The character stands behind all others, and a consumer that waited is woken.
pub record Stored (q : Ioqueue) (byte : ℕ) (k : Kernel) (r : Progress × Ioqueue × Kernel)
    : Type 0 where
  pub inv : IoInv r.1 r.2
  pub ends : r.0 ≡ returned byte
  pub stored : contents r.1 ≡ contents q ++ byte ∷ []
  pub woken : Awoken k q.consumer r.2
  pub no_consumer : r.1.consumer ≡ null
  pub same_locks : (r.1.lock_consumer ≡ q.lock_consumer) × (r.1.lock_producer ≡ q.lock_producer)

module _ (q : Ioqueue) (k : Kernel) (inv : IoInv q k) where
  pub take_char-Took :
      ioq_empty q ≡ false
      → (r : Progress × Ioqueue × Kernel) × (take_char q k ≡ done r) × Took q k r
  unfolding take_char
  take_char-Took some_left =
      let (k', e, aw) = wakeup-Awoken k q.producer inv.sync (λ f. (inv.producer f).asleep) in
      let q' : Ioqueue = record q { tail = next_pos q.tail; producer = null } in
      let (ring, moved) = contents-take q q' inv.ring some_left refl refl refl in
      (
        (returned (q.buf q.tail), q', k'),
        rw e refl,
        record {
          inv = record {
            ring = ring;
            sync = aw.inv;
            consumer_lock = LockInv-value q.lock_consumer k k' (aw.values _) inv.consumer_lock;
            producer_lock = LockInv-value q.lock_producer k k' (aw.values _) inv.producer_lock;
            two_locks = inv.two_locks;
            consumer = λ f.
                Waiter-Kept k k' q.lock_consumer q.lock_consumer q.consumer refl
                  (aw.kept q.consumer (inv.apart f)).1 (inv.consumer f);
            producer = λ f. absurd (ground arith);
            apart = λ f. ground arith;
          };
          taken = (q.buf q.tail, refl, moved);
          woken = aw;
          no_producer = refl;
          same_locks = (refl, refl);
        },
      )

  pub put_char-Stored :
      (byte : ℕ)
      → ioq_full q ≡ false
      → (r : Progress × Ioqueue × Kernel) × (put_char q byte k ≡ done r) × Stored q byte k r
  unfolding put_char
  put_char-Stored byte room =
      let (k', e, aw) = wakeup-Awoken k q.consumer inv.sync (λ f. (inv.consumer f).asleep) in
      let q' : Ioqueue = record q {
        buf = write q.buf q.head byte;
        head = next_pos q.head;
        consumer = null;
      } in
      let (ring, moved) = contents-put q q' byte inv.ring room refl refl refl in
      (
        (returned byte, q', k'),
        rw e refl,
        record {
          inv = record {
            ring = ring;
            sync = aw.inv;
            consumer_lock = LockInv-value q.lock_consumer k k' (aw.values _) inv.consumer_lock;
            producer_lock = LockInv-value q.lock_producer k k' (aw.values _) inv.producer_lock;
            two_locks = inv.two_locks;
            consumer = λ f. absurd (ground arith);
            producer = λ f.
                Waiter-Kept k k' q.lock_producer q.lock_producer q.producer refl
                  (aw.kept q.producer (ground (arith, inv.apart))).1 (inv.producer f);
            apart = λ f. absurd (ground arith);
          };
          ends = refl;
          stored = moved;
          woken = aw;
          no_consumer = refl;
          same_locks = (refl, refl);
        },
      )
