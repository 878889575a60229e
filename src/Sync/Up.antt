-- ===== src/Sync/Up.antt =====
-- sema_up of kernel/thread/sync.c.
use jat_os.Prelude.{
  ℕ, ◌+◌, ◌%◌, ◌≤◌, ◌≡◌, refl, ap, true, false, List, [], ◌∷◌, ◌==◌, List-cases, inl, inr, done,
  >>=-done, arith,
}
use jat_os.Kernel.{TaskStatus, Kernel, sleeps, set_sema}
use jat_os.Kernel.Queue.{count, count-remove, remove-absent}
use jat_os.Sched.Inv.{Inv}
use jat_os.Sched.Calls.{Unblocked, thread_unblock-Unblocked}
use jat_os.Sync.{wake_first, sema_up}
use jat_os.Sync.Inv.{Waits, SyncInv}

-- What `sema_up` leaves. `woken` is the waiter that is first, if there is one.
pub record Up (k : Kernel) (s : ℕ) (k' : Kernel) : Type 0 where
  pub inv : SyncInv k'
  pub value : (k'.sema s).value ≡ ((k.sema s).value + 1) % 256
  pub other_values : (u : ℕ) → (s == u) ≡ false → (k'.sema u).value ≡ (k.sema u).value
  pub same_cur : k'.cur ≡ k.cur
  pub same_idle : k'.idle_thread ≡ k.idle_thread
  pub flag : k'.intr ≡ k.intr
  pub woken :
      (t : ℕ) (rest : List ℕ)
      → (k.sema s).waiters ≡ t ∷ rest
      → (k'.ready_list ≡ t ∷ k.ready_list)
        × ((k'.task t).status ≡ TaskStatus.ready)
        × ((k'.sema s).waiters ≡ rest)
        × ((u : ℕ) → (t == u) ≡ false → k'.task u ≡ k.task u)
  pub fewer : (u t : ℕ) → count t (k'.sema u).waiters ≤ count t (k.sema u).waiters
  pub nobody : (k.sema s).waiters ≡ [] → (k'.task ≡ k.task) × (k'.ready_list ≡ k.ready_list)

module _ (k : Kernel) (s : ℕ) (inv : SyncInv k) where
  abbrev popped : List ℕ → Kernel
  popped rest = set_sema (record k { intr = false }) s (record (k.sema s) { waiters = rest })

  Waits-popped :
      (t : ℕ) (rest : List ℕ)
      → (k.sema s).waiters ≡ t ∷ rest
      → (k' : Kernel) → Unblocked (popped rest) t k'
      → Waits k'
  Waits-popped t rest e k' un =
      let here = λ (u : ℕ). ap (count u) e in
      record {
        asleep = λ u x h.
            unfold count in
            ground (
              arith,
              here x,
              here t,
              un.waiters u,
              un.new_task,
              un.others x,
              inv.waits.asleep u x,
              inv.waits.asleep s x,
              inv.waits.once u u x,
              inv.waits.once s s x,
              count-remove x t (k.sema u).waiters,
              count-remove x t rest,
            );
        idle_free = λ u.
            unfold count in
            ground (
              arith,
              here k.idle_thread,
              un.waiters u,
              un.same_idle,
              inv.waits.idle_free u,
              count-remove k.idle_thread t (k.sema u).waiters,
              count-remove k.idle_thread t rest,
            );
        once = λ u v x.
            unfold count in
            ground (
              arith,
              here x,
              un.waiters u,
              un.waiters v,
              inv.waits.once u v x,
              count-remove x t (k.sema u).waiters,
              count-remove x t (k.sema v).waiters,
              count-remove x t rest,
            );
      }

  abbrev raised : Kernel → Kernel
  raised k1 =
      record (set_sema k1 s (record (k1.sema s) { value = ((k1.sema s).value + 1) % 256 })) {
        intr = k.intr;
      }

  SyncInv-raised : (k1 : Kernel) → Inv k1 → Waits k1 → SyncInv (raised k1)
  SyncInv-raised k1 i w = record {
    queues = record { counted = i.counted; alone = i.alone };
    waits = record {
      asleep = λ u t h. ground (arith, w.asleep u t h);
      idle_free = λ u. ground (arith, w.idle_free u);
      once = λ u v t. ground (arith, w.once u v t);
    };
  }

  Up-popped :
      (t : ℕ) (rest : List ℕ)
      → (k.sema s).waiters ≡ t ∷ rest
      → (k1 : Kernel) → Unblocked (popped rest) t k1
      → Up k s (raised k1)
  Up-popped t rest e k1 un = record {
    inv = SyncInv-raised k1 un.inv (Waits-popped t rest e k1 un);
    value = ground (arith, un.values s);
    other_values = λ u ne. ground (arith, un.values u);
    same_cur = un.same_cur;
    same_idle = un.same_idle;
    flag = refl;
    woken = λ t' rest' e'.
        let te : t ≡ t' = cc in
        let re : rest ≡ rest' = cc in
        (
          ground (arith, te, un.front),
          ground (arith, te, un.new_task),
          unfold count in
              ground (
                arith,
                re,
                un.waiters s,
                ap (count t) e,
                inv.waits.once s s t,
                remove-absent t rest,
              ),
          λ u ne. ground (arith, te, un.others u),
        );
    fewer = λ u x.
        unfold count in
        ground (
          arith,
          un.waiters u,
          ap (count x) e,
          count-remove x t (k.sema u).waiters,
          count-remove x t rest,
        );
    nobody = λ n. absurd (ground arith);
  }

  Inv-popped : (rest : List ℕ) → Inv (popped rest)
  Inv-popped rest = record { counted = inv.queues.counted; alone = inv.queues.alone }

  waiter-sleeps :
      (t : ℕ) (rest : List ℕ) → (k.sema s).waiters ≡ t ∷ rest → sleeps (k.task t).status ≡ true
  waiter-sleeps t rest e = unfold count in ground (arith, inv.waits.asleep s t, ap (count t) e)

  Up-quiet : (k.sema s).waiters ≡ [] → Up k s (raised (record k { intr = false }))
  Up-quiet e = record {
    inv =
        SyncInv-raised (record k { intr = false })
          (record { counted = inv.queues.counted; alone = inv.queues.alone })
          (record {
            asleep = inv.waits.asleep;
            idle_free = inv.waits.idle_free;
            once = inv.waits.once;
          });
    value = ground arith;
    other_values = λ u ne. ground arith;
    same_cur = refl;
    same_idle = refl;
    flag = refl;
    woken = λ t rest e'. absurd (ground arith);
    fewer = λ u x. ground arith;
    nobody = λ _. (refl, refl);
  }

  -- Under the invariant of the queues and the semaphores, `sema_up` fails no ASSERT and keeps the
  -- invariant. It adds one to the value (of 8 bits) and leaves the other values, the current
  -- thread and the interrupt flag. The first waiter, if there is one, leaves the waiters and
  -- stands ready at the front of the first queue; no other thread changes.
  pub sema_up-Up : (k' : Kernel) × (sema_up s k ≡ done k') × Up k s k'
  unfolding sema_up wake_first
  sema_up-Up = elim (List-cases (k.sema s).waiters) [
    | inl e ↦ (
      raised (record k { intr = false }),
      >>=-done (wake_first (k.sema s).waiters s (record k { intr = false })) _
          (record k { intr = false }) (rw e refl),
      Up-quiet e,
    )
    | inr (t, rest, e) ↦
        let (k1, f, un) =
          thread_unblock-Unblocked t (popped rest) (Inv-popped rest) (waiter-sleeps t rest e) in
        (raised k1, rw (e, f) refl, Up-popped t rest e k1 un)
  ]
