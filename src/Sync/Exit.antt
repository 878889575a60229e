-- ===== src/Sync/Exit.antt =====
-- thread_exit of kernel/thread/thread.c.
use jat_os.Prelude.{
  ℕ, ◌-◌, ◌^◌, ◌≡◌, ◌≢◌, refl, ap, ◌∙◌, Bool, true, false, not, List, [], ◌∷◌, ◌==◌, if◌then◌else◌,
  Bool-cases, List-cases, inl, inr, Outcome, done, >>=-done, arith,
}
use jat_os.Kernel.{TaskStatus, Task, Kernel, sleeps, set_status}
use jat_os.Kernel.Queue.{count, count-remove}
use jat_os.Sched.{unlink, schedule}
use jat_os.Sched.Switch.{Scheduled-Framed, schedule-Scheduled}
use jat_os.Sync.{sema_up, wake_parents, thread_exit}
use jat_os.Sync.Inv.{SyncInv, Caller, Framed-Waits}
use jat_os.Sync.Up.{Up, sema_up-Up}

-- What waking the parents keeps.
record Told (k k' : Kernel) : Type 0 where
  pub inv : SyncInv k'
  pub same_cur : k'.cur ≡ k.cur
  pub same_idle : k'.idle_thread ≡ k.idle_thread
  pub flag : k'.intr ≡ k.intr
  pub awake : (t : ℕ) → sleeps (k.task t).status ≡ false → k'.task t ≡ k.task t

Up-awake :
    (k k' : Kernel) (s : ℕ)
    → SyncInv k
    → Up k s k'
    → (t : ℕ) → sleeps (k.task t).status ≡ false
    → k'.task t ≡ k.task t
Up-awake k k' s inv up t h = elim (List-cases (k.sema s).waiters) [
  | inl e ↦ ap (λ (f : ℕ → Task). f t) (up.nobody e).0
  | inr (u, rest, e) ↦
      unfold count in ground (arith, (up.woken u rest e).3 t, inv.waits.asleep s t, ap (count t) e)
]

Told-same : (k : Kernel) → SyncInv k → Told k k
Told-same k inv = record {
  inv = inv;
  same_cur = refl;
  same_idle = refl;
  flag = refl;
  awake = λ t h. refl;
}

Told-trans : (k k1 k2 : Kernel) → Told k k1 → Told k1 k2 → Told k k2
Told-trans k k1 k2 a b = record {
  inv = b.inv;
  same_cur = b.same_cur ∙ a.same_cur;
  same_idle = b.same_idle ∙ a.same_idle;
  flag = b.flag ∙ a.flag;
  awake = λ t h. b.awake t (ap (λ (u : Task). sleeps u.status) (a.awake t h) ∙ h) ∙ a.awake t h;
}

tell : ℕ → ℕ → Kernel → Outcome Kernel
tell parent_pid t k =
    if (k.task t).pid == parent_pid then sema_up (k.task t).waiting_sema k else done k

tell-Told :
    (parent_pid t : ℕ) (k : Kernel)
    → SyncInv k
    → (k' : Kernel) × (tell parent_pid t k ≡ done k') × Told k k'
unfolding tell
tell-Told parent_pid t k inv = elim (Bool-cases ((k.task t).pid == parent_pid)) [
  | inr e ↦ (k, rw e refl, Told-same k inv)
  | inl e ↦
      let (k', f, up) = sema_up-Up k (k.task t).waiting_sema inv in
      (
        k',
        rw e f,
        record {
          inv = up.inv;
          same_cur = up.same_cur;
          same_idle = up.same_idle;
          flag = up.flag;
          awake = Up-awake k k' (k.task t).waiting_sema inv up;
        },
      )
]

wake_parents-Told :
    (parent_pid : ℕ) (ts : List ℕ) (k : Kernel)
    → SyncInv k
    → (k' : Kernel) × (wake_parents parent_pid ts k ≡ done k') × Told k k'
unfolding wake_parents tell
wake_parents-Told parent_pid [] k inv = (k, refl, Told-same k inv)
wake_parents-Told parent_pid (t ∷ ts) k inv =
    let (k1, e, a) = tell-Told parent_pid t k inv in
    let (k2, f, b) = wake_parents-Told parent_pid ts k1 a.inv in
    (k2, >>=-done (tell parent_pid t k) _ k1 e ∙ f, Told-trans k k1 k2 a b)

module _ (k : Kernel) (inv : SyncInv k) (c : Caller k) where
  -- The caller, marked as dead and out of every list.
  abbrev dead : Kernel
  dead = set_status (unlink k.cur (record k { intr = false })) k.cur TaskStatus.died

  SyncInv-dead : SyncInv dead
  unfolding unlink
  SyncInv-dead = record {
    queues = record {
      counted = λ u. ground (
        arith,
        c.run,
        inv.queues.counted u,
        inv.queues.counted k.cur,
        count-remove u k.cur k.ready_list,
        count-remove u k.cur k.second_list,
        count-remove u k.cur k.third_list,
      );
      alone = λ u. ground (arith, inv.queues.alone u);
    };
    waits = record {
      asleep =
          λ s t h. ground (arith, inv.waits.asleep s t, count-remove t k.cur (k.sema s).waiters);
      idle_free = λ s.
          ground
            (arith, inv.waits.idle_free s, count-remove k.idle_thread k.cur (k.sema s).waiters);
      once = λ s u t. ground (
        arith,
        inv.waits.once s u t,
        count-remove t k.cur (k.sema s).waiters,
        count-remove t k.cur (k.sema u).waiters,
      );
    };
  }

  told : Bool → Outcome Kernel
  told b = if b then wake_parents (k.task k.cur).parent_pid dead.all_list dead else done dead

  told-Told : (b : Bool) → (k' : Kernel) × (told b ≡ done k') × Told dead k'
  unfolding told
  told-Told true = wake_parents-Told _ _ dead SyncInv-dead
  told-Told false = (dead, refl, Told-same dead SyncInv-dead)

  -- Under the invariant of the queues and the semaphores, `thread_exit` of a running thread that
  -- is not the idle one fails no ASSERT, whoever is told of the end: the thread is dead, another
  -- thread runs, and the invariant holds.
  pub thread_exit-Scheduled :
      (k' : Kernel) × (thread_exit k ≡ done k')
      × SyncInv k'
      × ((k'.task k'.cur).status ≡ TaskStatus.running)
      × ((k'.task k.cur).status ≡ TaskStatus.died)
      × (k'.cur ≢ k.cur)
  unfolding thread_exit told unlink
  thread_exit-Scheduled =
      let b = not ((k.task k.cur).parent_pid == 2 ^ 16 - 1) in
      let (k1, e, a) = told-Told b in
      let off : k1.intr ≡ false = a.flag in
      let (k', f, sch) = schedule-Scheduled k.intr k1 a.inv.queues off in
      let gone : (k1.task k.cur).status ≡ TaskStatus.died = ground (arith, a.awake k.cur) in
      let died : (k'.task k.cur).status ≡ TaskStatus.died =
        ground (arith, gone, sch.sleepers k.cur, a.same_idle, c.not_idle) in
      (
        k',
        >>=-done (told b) (schedule k.intr) k1 e ∙ f,
        record {
          queues = sch.inv;
          waits = Framed-Waits k1 k' (Scheduled-Framed k1 k' _ sch) a.inv.waits;
        },
        sch.runs,
        died,
        λ same. ground (arith, sch.runs, died),
      )
