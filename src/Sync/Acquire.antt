-- ===== src/Sync/Acquire.antt =====
-- lock_acquire of kernel/thread/sync.c.
use jat_os.Prelude.{
  ℕ, ◌+◌, ◌%◌, ◌^◌, ◌<◌, ◌≡◌, refl, Bool, true, false, ◌||◌, ◌==◌, Bool-cases, inl, inr, done,
  arith,
}
use jat_os.Kernel.{Kernel}
use jat_os.Sync.{Lock, null, acquire_end, lock_acquire_round}
use jat_os.Sync.Down.{Asleep, Down, sema_down_round-Down}
use jat_os.Sync.Inv.{SyncInv, Caller}

-- A free lock has the value 1 at its semaphore, and a held one has 0.
pub record LockInv (l : Lock) (k : Kernel) : Type 0 where
  pub free : (l.holder == null) ≡ true → (l.holder_repeat_nr ≡ 0) × ((k.sema l.semaphore).value ≡ 1)
  pub held :
      (l.holder == null) ≡ false → (0 < l.holder_repeat_nr) × ((k.sema l.semaphore).value ≡ 0)

-- What a round of `lock_acquire` leaves: it gets through if the lock is free or held by the caller.
pub record Acquired (old_status : Bool) (l : Lock) (k : Kernel) (r : Bool × Lock × Kernel)
    : Type 0 where
  pub inv : SyncInv r.2
  pub lock_inv : LockInv r.1 r.2
  pub got : r.0 ≡ (l.holder == null) || (l.holder == k.cur)
  pub holds :
      r.0 ≡ true
      → (r.1.holder ≡ k.cur)
        × (r.1.holder_repeat_nr ≡ l.holder_repeat_nr + 1)
        × (r.2.cur ≡ k.cur)
        × (r.2.task ≡ k.task)
        × (r.2.intr ≡ old_status)
  pub waits : r.0 ≡ false → (r.1 ≡ l) × Asleep k l.semaphore r.2
  pub same_semaphore : r.1.semaphore ≡ l.semaphore
  pub others :
      r.0 ≡ true
      → (r.2.idle_thread ≡ k.idle_thread)
        × ((u : ℕ) → (r.2.sema u).waiters ≡ (k.sema u).waiters)
        × ((u : ℕ) → (l.semaphore == u) ≡ false → (r.2.sema u).value ≡ (k.sema u).value)

-- The invariant of a lock looks at the value of its semaphore only.
pub LockInv-value :
    (l : Lock) (k k' : Kernel)
    → (k'.sema l.semaphore).value ≡ (k.sema l.semaphore).value
    → LockInv l k
    → LockInv l k'
LockInv-value l k k' e li = record {
  free = λ f. ground (arith, li.free f);
  held = λ f. ground (arith, li.held f);
}

pub SyncInv-intr : (k : Kernel) (flag : Bool) → SyncInv k → SyncInv (record k { intr = flag })
SyncInv-intr k flag inv = record {
  queues = record { counted = inv.queues.counted; alone = inv.queues.alone };
  waits = record {
    asleep = inv.waits.asleep;
    idle_free = inv.waits.idle_free;
    once = inv.waits.once;
  };
}

module _ (old_status : Bool) (l : Lock) (k : Kernel) (inv : SyncInv k) (li : LockInv l k)
    (c : Caller k) (task_at : (k.cur == null) ≡ false) where
  abbrev deeper : Lock
  deeper = record l { holder_repeat_nr = (l.holder_repeat_nr + 1) % 2 ^ 32 }

  Acquired-again :
      (l.holder == k.cur) ≡ true
      → l.holder_repeat_nr + 1 < 2 ^ 32
      → Acquired old_status l k (true, deeper, record k { intr = old_status })
  Acquired-again own small = record {
    inv = SyncInv-intr k old_status inv;
    lock_inv = record {
      free = λ e. ground (arith, li.free e);
      held = λ e. ground (arith, li.held e);
    };
    got = ground arith;
    holds = λ _. (ground arith, ground arith, refl, refl, refl);
    waits = λ f. absurd (ground arith);
    same_semaphore = refl;
    others = λ _. (refl, λ u. refl, λ u ne. refl);
  }

  module _ (other : (l.holder == k.cur) ≡ false) (p : Bool × Kernel)
      (d : Down (record k { intr = false }) l.semaphore false p) where
    abbrev owned : Lock
    owned = record l { holder = k.cur; holder_repeat_nr = 1 }

    Acquired-taken :
        p.0 ≡ true → Acquired old_status l k (true, owned, record p.1 { intr = old_status })
    Acquired-taken e =
        let t = d.taken e in
        record {
          inv = SyncInv-intr p.1 old_status d.inv;
          lock_inv = record {
            free = λ f. absurd (ground arith);
            held = λ f. ground (arith, t.value, d.got, li.free, li.held);
          };
          got = ground (arith, d.got, li.held);
          holds =
              λ _. (refl, ground (arith, d.got, li.held, li.free), t.same_cur, t.same_task, refl);
          waits = λ f. absurd (ground arith);
          same_semaphore = refl;
          others = λ _. (
            t.same_idle,
            λ u. ground (arith, t.waiters, t.others u),
            λ u ne. ground (arith, t.others u),
          );
        }

    Acquired-asleep : p.0 ≡ false → Acquired old_status l k (false, l, p.1)
    Acquired-asleep e =
        let a = d.asleep e in
        record {
          inv = d.inv;
          lock_inv = record {
            free = λ f. ground (arith, a.values l.semaphore, li.free f);
            held = λ f. ground (arith, a.values l.semaphore, li.held f);
          };
          got = ground (arith, d.got, li.free);
          holds = λ f. absurd (ground arith);
          waits = λ _. (
            refl,
            record {
              blocked = a.blocked;
              waits_once = a.waits_once;
              other = a.other;
              runs = a.runs;
              values = a.values;
              same_idle = a.same_idle;
              sleepers = a.sleepers;
              waiters = a.waiters;
            },
          );
          same_semaphore = refl;
          others = λ f. absurd (ground arith);
        }

    acquire_end-Acquired :
        (r : Bool × Lock × Kernel) × (acquire_end old_status l p.0 p.1 ≡ done r)
        × Acquired old_status l k r
    unfolding acquire_end
    acquire_end-Acquired = elim (Bool-cases p.0) [
      | inr e ↦ ((false, l, p.1), rw e refl, Acquired-asleep e)
      | inl e ↦
          let t = d.taken e in
          (
            (true, owned, record p.1 { intr = old_status }),
            rw e (ground (arith, d.got, li.held, li.free, t.same_cur)),
            Acquired-taken e,
          )
    ]

  -- Under the invariants of the queues, the semaphores and the lock, a round of `lock_acquire` by
  -- a running thread that is not the idle one nor at NULL, with the lock nested less than 2 ^ 32 -
  -- 1 deep, fails no ASSERT and keeps the invariants. It gets through exactly if the lock is free
  -- or the caller holds it, and then the caller holds it one level deeper; else the caller sleeps
  -- among the waiters, the lock is as before, and another thread runs.
  pub lock_acquire_round-Acquired :
      l.holder_repeat_nr + 1 < 2 ^ 32
      → (r : Bool × Lock × Kernel) × (lock_acquire_round old_status l k ≡ done r)
        × Acquired old_status l k r
  unfolding lock_acquire_round
  lock_acquire_round-Acquired small = elim (Bool-cases (l.holder == k.cur)) [
    | inl own ↦
        ((true, deeper, record k { intr = old_status }), rw own refl, Acquired-again own small)
    | inr other ↦
        let (p, e, d) =
          sema_down_round-Down (record k { intr = false }) l.semaphore false
            (SyncInv-intr k false inv) (record { run = c.run; not_idle = c.not_idle }) in
        let (r, f, a) = acquire_end-Acquired other p d in (r, rw (other, e) f, a)
  ]
