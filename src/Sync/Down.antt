-- ===== src/Sync/Down.antt =====
-- sema_down of kernel/thread/sync.c.
use jat_os.Prelude.{
  ℕ, suc, ◌+◌, ◌-◌, ◌≤◌, ◌≡◌, ◌≢◌, refl, Bool, true, false, not, [], ◌∷◌, ◌==◌, if◌then◌else◌,
  Bool-cases, inl, inr, done, arith,
}
use jat_os.Kernel.{TaskStatus, Kernel, sleeps, set_status, set_sema}
use jat_os.Kernel.Queue.{count, count-append, count-remove, remove, member-count}
use jat_os.Sched.{unlink}
use jat_os.Sched.Inv.{Inv}
use jat_os.Sched.Switch.{Scheduled, Scheduled-Framed}
use jat_os.Sched.Calls.{thread_block-Scheduled}
use jat_os.Sync.{wait_at, sema_down_round}
use jat_os.Sync.Inv.{Waits, SyncInv, Caller, Framed-Waits}

module _ (k : Kernel) (s : ℕ) (inv : SyncInv k) (c : Caller k) where
  wait_at-Inv : Inv (wait_at s k)
  unfolding wait_at unlink
  wait_at-Inv = record {
    counted = λ u. ground (
      arith,
      inv.queues.counted u,
      inv.queues.counted k.cur,
      c.run,
      member-count k.cur (k.sema s).waiters,
      inv.waits.asleep s k.cur,
      count-remove u k.cur k.ready_list,
      count-remove u k.cur k.second_list,
      count-remove u k.cur k.third_list,
    );
    alone = λ u. ground (arith, inv.queues.alone u);
  }

  wait_at_frame :
      ((wait_at s k).task ≡ k.task)
      × ((wait_at s k).cur ≡ k.cur)
      × ((wait_at s k).intr ≡ k.intr)
      × ((wait_at s k).idle_thread ≡ k.idle_thread)
  unfolding wait_at unlink
  wait_at_frame = ground arith

  wait_at_semas :
      (u t : ℕ)
      → (((wait_at s k).sema u).value ≡ (k.sema u).value)
        × (count t ((wait_at s k).sema u).waiters
            ≡ count t (k.sema u).waiters + (if s == u then (if k.cur == t then 1 else 0) else 0))
  unfolding wait_at unlink count
  wait_at_semas u t = ground (
    arith,
    c.run,
    member-count k.cur (k.sema s).waiters,
    inv.waits.asleep s k.cur,
    inv.waits.asleep u k.cur,
    count-remove t k.cur (k.sema u).waiters,
    count-append t (remove k.cur (k.sema u).waiters) (k.cur ∷ []),
  )

  -- The kernel in which `thread_block` calls `schedule`.
  abbrev sleeping : Kernel
  sleeping = set_status (record (wait_at s k) { intr = false }) (wait_at s k).cur TaskStatus.blocked

  Waits-sleeping : Waits sleeping
  Waits-sleeping = record {
    asleep = λ u t h. ground (arith, (wait_at_semas u t).1, wait_at_frame, inv.waits.asleep u t);
    idle_free = λ u. ground (
      arith,
      (wait_at_semas u k.idle_thread).1,
      wait_at_frame,
      inv.waits.idle_free u,
      c.not_idle,
    );
    once = λ u v t. ground (
      arith,
      (wait_at_semas u t).1,
      (wait_at_semas v t).1,
      inv.waits.once u v t,
      c.run,
      inv.waits.asleep u k.cur,
      inv.waits.asleep v k.cur,
    );
  }

-- The semaphore is taken: one less, nothing else has changed but the interrupt flag.
pub record Taken (k : Kernel) (s : ℕ) (old_status : Bool) (k' : Kernel) : Type 0 where
  pub value : suc (k'.sema s).value ≡ (k.sema s).value
  pub waiters : (k'.sema s).waiters ≡ (k.sema s).waiters
  pub others : (u : ℕ) → (s == u) ≡ false → k'.sema u ≡ k.sema u
  pub same_task : k'.task ≡ k.task
  pub same_cur : k'.cur ≡ k.cur
  pub same_idle : k'.idle_thread ≡ k.idle_thread
  pub flag : k'.intr ≡ old_status

-- The caller sleeps among the waiters, and another thread runs.
pub record Asleep (k : Kernel) (s : ℕ) (k' : Kernel) : Type 0 where
  pub blocked : (k'.task k.cur).status ≡ TaskStatus.blocked
  pub waits_once : count k.cur (k'.sema s).waiters ≡ 1
  pub other : k'.cur ≢ k.cur
  pub runs : (k'.task k'.cur).status ≡ TaskStatus.running
  pub values : (u : ℕ) → (k'.sema u).value ≡ (k.sema u).value
  pub same_idle : k'.idle_thread ≡ k.idle_thread
  pub sleepers :
      (t : ℕ)
      → sleeps (k.task t).status ≡ true
      → (k.idle_thread == t) ≡ false
      → (k'.task t).status ≡ (k.task t).status
  pub waiters :
      (u t : ℕ) → (k.cur == t) ≡ false → count t (k'.sema u).waiters ≤ count t (k.sema u).waiters

pub record Down (k : Kernel) (s : ℕ) (old_status : Bool) (r : Bool × Kernel) : Type 0 where
  pub inv : SyncInv r.1
  pub got : r.0 ≡ not ((k.sema s).value == 0)
  pub taken : r.0 ≡ true → Taken k s old_status r.1
  pub asleep : r.0 ≡ false → Asleep k s r.1

module _ (k : Kernel) (s : ℕ) (old_status : Bool) (inv : SyncInv k) (c : Caller k) where
  abbrev took : Kernel
  took = record (set_sema k s (record (k.sema s) { value = (k.sema s).value - 1 })) {
    intr = old_status;
  }

  SyncInv-took : SyncInv took
  SyncInv-took = record {
    queues = record { counted = inv.queues.counted; alone = inv.queues.alone };
    waits = record {
      asleep = λ u t h. ground (arith, inv.waits.asleep u t h);
      idle_free = λ u. ground (arith, inv.waits.idle_free u);
      once = λ u v t. ground (arith, inv.waits.once u v t);
    };
  }

  Down-took : ((k.sema s).value == 0) ≡ false → Down k s old_status (true, took)
  Down-took some_left = record {
    inv = SyncInv-took;
    got = ground arith;
    taken = λ _. record {
      value = ground arith;
      waiters = ground arith;
      others = λ u ne. ground arith;
      same_task = refl;
      same_cur = refl;
      same_idle = refl;
      flag = refl;
    };
    asleep = λ f. absurd (ground arith);
  }

  Down-slept :
      ((k.sema s).value == 0) ≡ true
      → (k' : Kernel) → Scheduled (sleeping k s inv c) (wait_at s k).intr k'
      → Down k s old_status (false, k')
  Down-slept none_left k' sch =
      let frame = wait_at_frame k s inv c in
      let here = wait_at_semas k s inv c s k.cur in
      let blocked : (k'.task k.cur).status ≡ TaskStatus.blocked =
        ground (arith, sch.sleepers k.cur, frame, c.not_idle) in
      record {
        inv = record {
          queues = sch.inv;
          waits = Framed-Waits _ k' (Scheduled-Framed _ k' _ sch) (Waits-sleeping k s inv c);
        };
        got = ground arith;
        taken = λ f. absurd (ground arith);
        asleep = λ _. record {
          blocked = blocked;
          waits_once =
              ground
                (arith, sch.same_sema, here.1, frame, c.not_idle, c.run, inv.waits.asleep s k.cur);
          other = λ e. ground (arith, blocked, sch.runs);
          runs = sch.runs;
          values = λ u. ground (arith, sch.values u, (wait_at_semas k s inv c u k.cur).0);
          same_idle = ground (arith, sch.same_idle, frame);
          sleepers = λ t h ne. ground (arith, sch.sleepers t, frame, c.run);
          waiters = λ u t ne. ground (arith, sch.waiters u t, (wait_at_semas k s inv c u t).1);
        };
      }

  -- Under the invariant of the queues and the semaphores, a round of `sema_down` by a running
  -- thread that is not the idle one fails no ASSERT and keeps the invariant. With a value other
  -- than 0 it takes one from it, changes no thread, and restores the interrupt flag. With the
  -- value 0 the caller is blocked, stands once among the waiters, and another thread runs.
  pub sema_down_round-Down :
      (r : Bool × Kernel) × (sema_down_round old_status s k ≡ done r) × Down k s old_status r
  unfolding sema_down_round
  sema_down_round-Down = elim (Bool-cases ((k.sema s).value == 0)) [
    | inr some_left ↦ ((true, took), rw some_left refl, Down-took some_left)
    | inl none_left ↦
        let frame = wait_at_frame k s inv c in
        let (k', e, sch) =
          thread_block-Scheduled (wait_at s k) (wait_at-Inv k s inv c)
            (ground (arith, frame, c.run)) TaskStatus.blocked refl in
        ((false, k'), rw (none_left, e) refl, Down-slept none_left k' sch)
  ]
