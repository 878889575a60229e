-- ===== src/Sync/Release.antt =====
-- lock_release of kernel/thread/sync.c.
use jat_os.Prelude.{
  ◌-◌, ◌≡◌, refl, true, false, ltb, ◌==◌, Bool-cases, inl, inr, done, panic, arith,
}
use jat_os.Kernel.{Kernel}
use jat_os.Sync.{Lock, null, release_last, lock_release}
use jat_os.Sync.Inv.{SyncInv}
use jat_os.Sync.Up.{Up, sema_up-Up}
use jat_os.Sync.Acquire.{LockInv, SyncInv-intr}

-- What a release by the holder leaves. Only the last release gives the lock free, wakes the first
-- waiter, and restores the interrupt flag.
pub record Released (l : Lock) (k : Kernel) (r : Lock × Kernel) : Type 0 where
  pub inv : SyncInv r.1
  pub lock_inv : LockInv r.0 r.1
  pub fewer : r.0.holder_repeat_nr ≡ l.holder_repeat_nr - 1
  pub same_cur : r.1.cur ≡ k.cur
  pub same_semaphore : r.0.semaphore ≡ l.semaphore
  pub nested :
      ltb 1 l.holder_repeat_nr ≡ true → (r.0.holder ≡ l.holder) × (r.1 ≡ record k { intr = false })
  pub last : ltb 1 l.holder_repeat_nr ≡ false → (r.0.holder ≡ null) × Up k l.semaphore r.1

module _ (l : Lock) (k : Kernel) (inv : SyncInv k) (li : LockInv l k)
    (task_at : (k.cur == null) ≡ false) (own : (l.holder == k.cur) ≡ true) where
  abbrev shallower : Lock
  shallower = record l { holder_repeat_nr = l.holder_repeat_nr - 1 }

  abbrev freed : Lock
  freed = record l { holder = null; holder_repeat_nr = 0 }

  Released-nested :
      ltb 1 l.holder_repeat_nr ≡ true → Released l k (shallower, record k { intr = false })
  Released-nested deep = record {
    inv = SyncInv-intr k false inv;
    lock_inv = record { free = λ e. absurd (ground arith); held = λ e. ground (arith, li.held e) };
    fewer = refl;
    same_cur = refl;
    same_semaphore = refl;
    nested = λ _. (refl, refl);
    last = λ f. absurd (ground arith);
  }

  -- The release inside which `sema_up` runs with interrupts off.
  Up-flag :
      (k' : Kernel)
      → Up (record k { intr = false }) l.semaphore k'
      → Up k l.semaphore (record k' { intr = k.intr })
  Up-flag k' up = record {
    inv = SyncInv-intr k' k.intr up.inv;
    value = up.value;
    other_values = up.other_values;
    same_cur = up.same_cur;
    same_idle = up.same_idle;
    flag = refl;
    woken = up.woken;
    fewer = up.fewer;
    nobody = up.nobody;
  }

  Released-last :
      ltb 1 l.holder_repeat_nr ≡ false
      → (k' : Kernel) → Up (record k { intr = false }) l.semaphore k'
      → Released l k (freed, record k' { intr = k.intr })
  Released-last once k' up = record {
    inv = SyncInv-intr k' k.intr up.inv;
    lock_inv = record {
      free = λ e. ground (arith, li.held, up.value);
      held = λ e. absurd (ground arith);
    };
    fewer = ground arith;
    same_cur = up.same_cur;
    same_semaphore = refl;
    nested = λ f. absurd (ground arith);
    last = λ _. (refl, Up-flag k' up);
  }

  -- Under the invariants of the queues, the semaphores and the lock, a release by the holder,
  -- which is not at NULL, fails no ASSERT and keeps the invariants. A nested one takes a level
  -- away and returns with interrupts off, whatever they were before; the last one frees the lock,
  -- acts on the kernel as `sema_up` of its semaphore does, and restores the interrupt flag.
  pub lock_release-Released : (r : Lock × Kernel) × (lock_release l k ≡ done r) × Released l k r
  unfolding lock_release release_last
  lock_release-Released = elim (Bool-cases (ltb 1 l.holder_repeat_nr)) [
    | inl deep ↦ ((shallower, record k { intr = false }), rw (own, deep) refl, Released-nested deep)
    | inr once ↦
        let (k', e, up) =
          sema_up-Up (record k { intr = false }) l.semaphore (SyncInv-intr k false inv) in
        let one : (l.holder_repeat_nr == 1) ≡ true = ground (arith, li.held) in
        (
          (freed, record k' { intr = k.intr }),
          rw (own, once, one, e) refl,
          Released-last once k' up,
        )
  ]

-- A release by a thread that does not hold the lock fails the ASSERT.
pub lock_release-panic :
    (l : Lock) (k : Kernel) → (l.holder == k.cur) ≡ false → lock_release l k ≡ panic
unfolding lock_release
lock_release-panic l k other = rw other refl
