-- ===== src/Sched/Calls.antt =====
-- The calls that lead to `schedule` or away from it: thread_block, thread_yield and thread_unblock
-- of kernel/thread/thread.c.
use jat_os.Prelude.{
  ℕ, List, ◌≡◌, refl, sym, done-injective, ap, ◌∙◌, true, false, not, [], ◌∷◌, ◌++◌, ◌==◌, done,
  assert-true, arith,
}
use jat_os.Kernel.{TaskStatus, Kernel, sleeps, set_task, set_status, first_prio}
use jat_os.Kernel.Queue.{
  count, count-append, count-remove, remove, remove-absent, member, member-count,
}
use jat_os.Sched.{thread_block, thread_unblock, thread_yield, schedule, switch}
use jat_os.Sched.Inv.{Inv}
use jat_os.Sched.Switch.{Scheduled, saved, schedule-rotates, schedule-Scheduled}

-- What a yield from `k` leaves, by way of the kernel `y` that `schedule` gets. The caller went to
-- the end of the first queue, with the first priority, and the front of that queue runs.
pub record Yielded (k y k' : Kernel) : Type 0 where
  pub scheduled : Scheduled y k.intr k'
  pub rotated : k'.cur ∷ k'.ready_list ≡ k.ready_list ++ k.cur ∷ []
  pub priority : (k'.task k.cur).priority ≡ first_prio
  pub second : k'.second_list ≡ k.second_list
  pub third : k'.third_list ≡ k.third_list

snoc-some : (xs : List ℕ) (t : ℕ) → (x : ℕ) × (ys : List ℕ) × (xs ++ t ∷ [] ≡ x ∷ ys)
snoc-some [] t = (t, [], refl)
snoc-some (x ∷ xs) t = (x, xs ++ t ∷ [], refl)

module _ (k : Kernel) (inv : Inv k) (run : (k.task k.cur).status ≡ TaskStatus.running) where
  Inv-sleep :
      (stat : TaskStatus)
      → sleeps stat ≡ true
      → Inv (set_status (record k { intr = false }) k.cur stat)
  Inv-sleep stat s = record {
    counted = λ u. ground (arith, inv.counted u, inv.counted k.cur);
    alone = λ u. ground (arith, inv.alone u);
  }

  -- Under the invariant of the queues, a running thread that blocks is put in the given state and
  -- gives way, as `schedule` does it; it takes its interrupt flag along.
  pub thread_block-Scheduled :
      (stat : TaskStatus)
      → sleeps stat ≡ true
      → (k' : Kernel) × (thread_block stat k ≡ done k')
        × Scheduled (set_status (record k { intr = false }) k.cur stat) k.intr k'
  unfolding thread_block
  thread_block-Scheduled stat s =
      let (k', e, sch) = schedule-Scheduled k.intr _ (Inv-sleep stat s) refl in
      (k', assert-true (sleeps stat) _ s ∙ e, sch)

  abbrev pub yielding : Kernel
  yielding =
      set_task (record k { intr = false; ready_list = k.ready_list ++ k.cur ∷ [] }) k.cur
        (record (k.task k.cur) { status = TaskStatus.ready; priority = first_prio })

  Inv-yield : Inv yielding
  Inv-yield = record {
    counted = λ u.
        unfold count in
        ground (arith, inv.counted u, inv.counted k.cur, count-append u k.ready_list (k.cur ∷ []));
    alone = λ u. ground (arith, inv.alone u);
  }

  yielding-Yielded :
      (k' : Kernel)
      → schedule k.intr yielding ≡ done k'
      → Scheduled yielding k.intr k'
      → Yielded k yielding k'
  yielding-Yielded k' e sch =
      let (t, ts, filled) = snoc-some k.ready_list k.cur in
      let next : Kernel = switch (record (saved k.intr yielding) { ready_list = ts }) t in
      let same : k' ≡ next =
        done-injective (sym e ∙ schedule-rotates k.intr yielding t ts refl filled (ground arith)) in
      record {
        scheduled = sch;
        rotated = ap (λ (x : Kernel). x.cur ∷ x.ready_list) same ∙ sym filled;
        priority = ap (λ (x : Kernel). (x.task k.cur).priority) same ∙ ground arith;
        second = ap (λ (x : Kernel). x.second_list) same;
        third = ap (λ (x : Kernel). x.third_list) same;
      }

  -- Under the invariant of the queues, a running thread that yields goes to the end of the first
  -- queue with the first priority, and `schedule` runs the front of that queue and leaves the other
  -- queues; no ASSERT fails, and the invariant is kept.
  pub thread_yield-Scheduled : (k' : Kernel) × (thread_yield k ≡ done k') × Yielded k yielding k'
  unfolding thread_yield
  thread_yield-Scheduled =
      let (k', e, sch) = schedule-Scheduled k.intr yielding Inv-yield refl in
      (
        k',
        assert-true (not (member k.cur k.ready_list)) _
              (ground (arith, member-count k.cur k.ready_list, inv.counted k.cur))
            ∙ e,
        yielding-Yielded k' e sch,
      )

-- A sleeping thread that is unblocked stands at the front of the first queue, ready, with the first
-- priority and a full slice, and no longer among the waiters of any semaphore; the invariant holds.
pub record Unblocked (k : Kernel) (t : ℕ) (k' : Kernel) : Type 0 where
  pub inv : Inv k'
  pub front : k'.ready_list ≡ t ∷ k.ready_list
  pub new_task :
      k'.task t ≡ record (k.task t) { status = TaskStatus.ready; priority = 30; ticks = 25 }
  pub others : (u : ℕ) → (t == u) ≡ false → k'.task u ≡ k.task u
  pub waiters : (s : ℕ) → (k'.sema s).waiters ≡ remove t (k.sema s).waiters
  pub values : (s : ℕ) → (k'.sema s).value ≡ (k.sema s).value
  pub same_cur : k'.cur ≡ k.cur
  pub same_idle : k'.idle_thread ≡ k.idle_thread
  pub same_intr : k'.intr ≡ k.intr

pub thread_unblock-Unblocked :
    (t : ℕ) (k : Kernel)
    → Inv k
    → sleeps (k.task t).status ≡ true
    → (k' : Kernel) × (thread_unblock t k ≡ done k') × Unblocked k t k'
unfolding thread_unblock
thread_unblock-Unblocked t k inv s = (
  _,
  assert-true (sleeps (k.task t).status) _ s,
  record {
    inv = record {
      counted = λ u.
          unfold count in
          ground (
            arith,
            inv.counted u,
            inv.counted t,
            count-remove u t k.ready_list,
            count-remove u t k.second_list,
            count-remove u t k.third_list,
          );
      alone = λ u. ground (arith, inv.alone u);
    };
    front = ap (λ l. t ∷ l) (remove-absent t k.ready_list (ground (arith, inv.counted t)));
    new_task = ground arith;
    others = λ u ne. ground arith;
    waiters = λ s. refl;
    values = λ s. refl;
    same_cur = refl;
    same_idle = refl;
    same_intr = refl;
  },
)
