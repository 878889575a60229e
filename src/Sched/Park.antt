-- ===== src/Sched/Park.antt =====
-- What `schedule` does with the thread that gives up the processor.
use jat_os.Prelude.{
  ℕ, ◌+◌, ◌≤◌, ◌≡◌, ◌≢◌, refl, inl, inr, true, false, [], ◌∷◌, ◌++◌, ◌==◌, if◌then◌else◌,
  Bool-cases, done, arith,
}
use jat_os.Bitmap.{Bitmap}
use jat_os.Kernel.{
  TaskStatus, Task, Kernel, first_prio, second_prio, third_prio, uint32_max, is_ready, is_running,
  is_died, rests, set_task,
}
use jat_os.Kernel.Queue.{count, count-append, count-remove, member-count}
use jat_os.Sched.{
  enqueue_first, enqueue_second, enqueue_third, requeue_expired, requeue_kept, unlink, reap, park,
  user_pages,
}
use jat_os.Sched.Inv.{queued}
use jat_os.Sched.Reap.{free_pages-done}

-- With the chosen thread `next` out of the queues: the queues hold the ready threads but for it,
-- and only `t` may be running.
pub record Without (k : Kernel) (next t : ℕ) : Type 0 where
  pub counted :
      (u : ℕ)
      → queued k u + (if next == u then 1 else 0) ≡ (if is_ready (k.task u).status then 1 else 0)
  pub alone : (u : ℕ) → (k.task u).status ≡ TaskStatus.running → u ≡ t

-- The same, and no thread is running.
pub record Parked (k k' : Kernel) (next t : ℕ) : Type 0 where
  pub counted :
      (u : ℕ)
      → queued k' u + (if next == u then 1 else 0) ≡ (if is_ready (k'.task u).status then 1 else 0)
  pub nobody : (u : ℕ) → (k'.task u).status ≢ TaskStatus.running
  pub same_flag : (k'.task next).resumes_with ≡ (k.task next).resumes_with
  pub sleepers : (u : ℕ) → rests (k.task u).status ≡ true → (k'.task u).status ≡ (k.task u).status
  pub same_sema : is_died (k.task t).status ≡ false → k'.sema ≡ k.sema
  pub same_idle : k'.idle_thread ≡ k.idle_thread
  pub values : (s : ℕ) → (k'.sema s).value ≡ (k.sema s).value
  pub waiters : (s u : ℕ) → count u (k'.sema s).waiters ≤ count u (k.sema s).waiters

module _ (k : Kernel) (next t : ℕ) (w : Without k next t)
    (was : (k.task t).status ≡ TaskStatus.running) where
  module _ (new : Task) (is_new : new.status ≡ TaskStatus.ready)
      (same : new.resumes_with ≡ (k.task t).resumes_with) where
    enqueue_first-Parked :
        (k' : Kernel) × (enqueue_first (set_task k t new) t ≡ done k') × Parked k k' next t
    unfolding enqueue_first
    enqueue_first-Parked = (
      record (set_task k t new) { ready_list = k.ready_list ++ t ∷ [] },
      ground (arith, member-count t k.ready_list, w.counted t, was),
      record {
        counted = λ u.
            unfold count in
            ground
              (arith, w.counted u, w.counted t, was, is_new, count-append u k.ready_list (t ∷ []));
        nobody = λ u e. ground (arith, w.alone u, is_new);
        same_flag = ground (arith, same);
        sleepers = λ u h. ground (arith, was);
        same_sema = λ d. refl;
        same_idle = refl;
        values = λ s. refl;
        waiters = λ s u. omega arith;
      },
    )

    enqueue_second-Parked :
        (k' : Kernel) × (enqueue_second (set_task k t new) t ≡ done k') × Parked k k' next t
    unfolding enqueue_second
    enqueue_second-Parked = (
      record (set_task k t new) { second_list = k.second_list ++ t ∷ [] },
      ground (arith, member-count t k.second_list, w.counted t, was),
      record {
        counted = λ u.
            unfold count in
            ground
              (arith, w.counted u, w.counted t, was, is_new, count-append u k.second_list (t ∷ []));
        nobody = λ u e. ground (arith, w.alone u, is_new);
        same_flag = ground (arith, same);
        sleepers = λ u h. ground (arith, was);
        same_sema = λ d. refl;
        same_idle = refl;
        values = λ s. refl;
        waiters = λ s u. omega arith;
      },
    )

    enqueue_third-Parked :
        (k' : Kernel) × (enqueue_third (set_task k t new) t ≡ done k') × Parked k k' next t
    unfolding enqueue_third
    enqueue_third-Parked = (
      record (set_task k t new) { third_list = k.third_list ++ t ∷ [] },
      ground (arith, member-count t k.third_list, w.counted t, was),
      record {
        counted = λ u.
            unfold count in
            ground
              (arith, w.counted u, w.counted t, was, is_new, count-append u k.third_list (t ∷ []));
        nobody = λ u e. ground (arith, w.alone u, is_new);
        same_flag = ground (arith, same);
        sleepers = λ u h. ground (arith, was);
        same_sema = λ d. refl;
        same_idle = refl;
        values = λ s. refl;
        waiters = λ s u. omega arith;
      },
    )

  requeue_expired-Parked : (k' : Kernel) × (requeue_expired k t ≡ done k') × Parked k k' next t
  unfolding requeue_expired
  requeue_expired-Parked = elim (Bool-cases ((k.task t).priority == first_prio)) [
    | inl e ↦ rw e (enqueue_second-Parked _ refl refl)
    | inr e ↦ rw e (enqueue_third-Parked _ refl refl)
  ]

  requeue_kept-Parked : (k' : Kernel) × (requeue_kept k t ≡ done k') × Parked k k' next t
  unfolding requeue_kept
  requeue_kept-Parked = elim (Bool-cases ((k.task t).priority == first_prio)) [
    | inl e ↦ rw e (enqueue_first-Parked _ refl refl)
    | inr e ↦ rw e (elim (Bool-cases ((k.task t).priority == second_prio)) [
      | inl f ↦ rw f (enqueue_second-Parked _ refl refl)
      | inr f ↦ rw f (enqueue_third-Parked _ refl refl)
    ])
  ]

  park-running : (k' : Kernel) × (park k t ≡ done k') × Parked k k' next t
  unfolding park
  park-running = elim (Bool-cases ((k.task t).ticks == uint32_max)) [
    | inl e ↦ rw (was, e) requeue_expired-Parked
    | inr e ↦ rw (was, e) requeue_kept-Parked
  ]

module _ (k : Kernel) (next t : ℕ) (w : Without k next t)
    (was : is_running (k.task t).status ≡ false) where
  nobody_runs : (u : ℕ) → (k.task u).status ≢ TaskStatus.running
  nobody_runs u e = ground (arith, w.alone u)

  reap-Parked :
      (pool : Bitmap)
      → is_died (k.task t).status ≡ true
      → Parked k (record (unlink t k) { user_pool = pool }) next t
  unfolding unlink
  reap-Parked pool dead = record {
    counted = λ u. ground (
      arith,
      w.counted u,
      w.counted t,
      dead,
      count-remove u t k.ready_list,
      count-remove u t k.second_list,
      count-remove u t k.third_list,
    );
    nobody = nobody_runs;
    same_flag = refl;
    sleepers = λ u h. refl;
    same_sema = λ d. absurd (ground arith);
    same_idle = refl;
    values = λ s. refl;
    waiters = λ s u. omega (arith, count-remove u t (k.sema s).waiters);
  }

  park-died :
      (k.task t).status ≡ TaskStatus.died
      → (k' : Kernel) × (reap k t ≡ done k') × Parked k k' next t
  unfolding reap
  park-died e = elim (Bool-cases ((k.task t).pgdir == 0)) [
    | inl z ↦
        (record (unlink t k) { user_pool = k.user_pool }, rw z, reap-Parked k.user_pool (rw e))
    | inr z ↦
        let pages = free_pages-done user_pages (k.task t) k.user_pool_start 0x8048000 k.user_pool in
        (record (unlink t k) { user_pool = pages.0 }, rw (z, pages.1), reap-Parked pages.0 (rw e))
  ]

  -- A status other than running, blocked and died leaves the kernel as it is.
  Parked-same : Parked k k next t
  Parked-same = record {
    counted = w.counted;
    nobody = nobody_runs;
    same_flag = refl;
    sleepers = λ u h. refl;
    same_sema = λ d. refl;
    same_idle = refl;
    values = λ s. refl;
    waiters = λ s u. omega arith;
  }

  Parked-blocked :
      (k.task t).status ≡ TaskStatus.blocked
      → Parked k (set_task k t (record (k.task t) { priority = third_prio })) next t
  Parked-blocked e = record {
    counted = λ u. ground (arith, w.counted u);
    nobody = λ u f. ground (arith, nobody_runs u, nobody_runs t);
    same_flag = ground arith;
    sleepers = λ u h. ground arith;
    same_sema = λ d. refl;
    same_idle = refl;
    values = λ s. refl;
    waiters = λ s u. omega arith;
  }

park_stopped :
    (k : Kernel) (next t : ℕ) (s : TaskStatus)
    → (k.task t).status ≡ s
    → is_running s ≡ false
    → Without k next t
    → (k' : Kernel) × (park k t ≡ done k') × Parked k k' next t
unfolding park
park_stopped k next t TaskStatus.running e h w = absurd (ground arith)
park_stopped k next t TaskStatus.blocked e h w = (_, rw e, Parked-blocked k next t w (rw e) e)
park_stopped k next t TaskStatus.died e h w = simp e (park-died k next t w (rw e) e)
park_stopped k next t TaskStatus.ready e h w = (k, rw e, Parked-same k next t w (rw e))
park_stopped k next t TaskStatus.waiting e h w = (k, rw e, Parked-same k next t w (rw e))
park_stopped k next t TaskStatus.hanging e h w = (k, rw e, Parked-same k next t w (rw e))

-- Parking never fails an ASSERT.
pub park-Parked :
    (k : Kernel) (next t : ℕ)
    → Without k next t
    → (k' : Kernel) × (park k t ≡ done k') × Parked k k' next t
park-Parked k next t w = elim (Bool-cases (is_running (k.task t).status)) [
  | inl run ↦ park-running k next t w (ground arith)
  | inr stop ↦ park_stopped k next t (k.task t).status refl stop w
]
