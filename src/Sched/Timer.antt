-- ===== src/Sched/Timer.antt =====
-- The timer interrupt: kernel/device/timer.c.
use jat_os.Prelude.{
  ℕ, ◌+◌, ◌-◌, ◌%◌, ◌^◌, ◌≡◌, refl, ap, ◌∙◌, ◌⊎◌, Bool, true, false, not, ◌&&◌, ◌==◌, if◌then◌else◌,
  Bool-cases, inl, inr, Outcome, done, assert-true, arith,
}
use jat_os.Kernel.{TaskStatus, Task, Kernel, set_task, second_prio, third_prio, uint32_max}
use jat_os.Sched.{is_empty, schedule, timer_branch, intr_timer_handler}
use jat_os.Sched.Inv.{Inv}
use jat_os.Sched.Pick.{Front, in_first, in_second, in_third, refill}
use jat_os.Sched.Switch.{Framed, schedule-Scheduled}

-- Whether a thread waits that comes before the current one.
abbrev pub preempts : Kernel → Bool
preempts k =
    if (k.task k.cur).priority == second_prio
    then not (is_empty k.ready_list)
    else if (k.task k.cur).priority == third_prio
    then not (is_empty k.ready_list && is_empty k.second_list)
    else false

-- What one timer interrupt does.
pub record Ticked (k k' : Kernel) : Type 0 where
  pub inv : Inv k'
  pub runs : (k'.task k'.cur).status ≡ TaskStatus.running
  pub frame : Framed k k'
  pub keeps :
      ((k.task k.cur).ticks == 0) ≡ false
      → preempts k ≡ false
      → (k'.cur ≡ k.cur)
        × ((k'.task k.cur).ticks ≡ (k.task k.cur).ticks - 1)
        × ((k'.task k.cur).elapsed_ticks ≡ ((k.task k.cur).elapsed_ticks + 1) % 2 ^ 32)
  pub gives_way :
      ((((k.task k.cur).ticks == 0) ≡ true) ⊎ (preempts k ≡ true)) → Front (refill k) k'.cur

module _ (k : Kernel) (inv : Inv k) (run : (k.task k.cur).status ≡ TaskStatus.running)
    (off : k.intr ≡ false) where
  abbrev ticked : Task → Kernel
  ticked new = set_task (record k { ticks = (k.ticks + 1) % 2 ^ 32 }) k.cur new

  Inv-ticked : (new : Task) → new.status ≡ TaskStatus.running → Inv (ticked new)
  Inv-ticked new s = record {
    counted = λ u. ground (arith, inv.counted u, inv.counted k.cur);
    alone = λ u. ground (arith, inv.alone u);
  }

  Front-ticked : (new : Task) (t : ℕ) → Front (refill (ticked new)) t → Front (refill k) t
  unfolding refill
  Front-ticked new t (in_first ts e) = in_first ts (ground arith)
  Front-ticked new t (in_second ts e f) = in_second ts (ground arith) (ground arith)
  Front-ticked new t (in_third ts e f g) = in_third ts (ground arith) (ground arith) (ground arith)

  Ticked-switch :
      (new : Task)
      → new.status ≡ TaskStatus.running
      → (((k.task k.cur).ticks == 0) ≡ true) ⊎ (preempts k ≡ true)
      → (k' : Kernel) × (schedule true (ticked new) ≡ done k') × Ticked k k'
  Ticked-switch new s why =
      let (k', e, sch) = schedule-Scheduled true (ticked new) (Inv-ticked new s) off in
      (
        k',
        e,
        record {
          inv = sch.inv;
          runs = sch.runs;
          frame = record {
            sleepers = λ u h ne. ground (arith, sch.sleepers u, run);
            same_idle = sch.same_idle;
            values = sch.values;
            waiters = sch.waiters;
          };
          keeps = λ a b. absurd (ground arith);
          gives_way = λ _. Front-ticked new k'.cur sch.chosen;
        },
      )

  Ticked-stay :
      ((k.task k.cur).ticks == 0) ≡ false
      → preempts k ≡ false
      → (new : Task) → new.status ≡ TaskStatus.running
      → new.ticks ≡ (k.task k.cur).ticks - 1
      → new.elapsed_ticks ≡ ((k.task k.cur).elapsed_ticks + 1) % 2 ^ 32
      → Ticked k (ticked new)
  Ticked-stay left none new s t e = record {
    inv = Inv-ticked new s;
    runs = ground arith;
    frame = record {
      sleepers = λ u h ne. ground (arith, run);
      same_idle = refl;
      values = λ s. refl;
      waiters = λ s u. omega arith;
    };
    keeps = λ a b. (refl, ground arith, ground arith);
    gives_way = λ w. absurd (ground arith);
  }

  abbrev stepped : Task
  stepped = record (k.task k.cur) { elapsed_ticks = ((k.task k.cur).elapsed_ticks + 1) % 2 ^ 32 }

  abbrev continued : Task
  continued = record stepped { ticks = (k.task k.cur).ticks - 1 }

  branch : Outcome Kernel
  branch = timer_branch (record k { ticks = (k.ticks + 1) % 2 ^ 32 }) stepped

  abbrev next_kernel : Bool → Task → Outcome Kernel
  next_kernel true new = schedule true (ticked new)
  next_kernel false new = done (ticked new)

  branch-expired :
      ((k.task k.cur).ticks == 0) ≡ true
      → branch ≡ schedule true (ticked (record stepped { ticks = uint32_max }))
  unfolding branch timer_branch
  branch-expired e = rw e

  branch-left : ((k.task k.cur).ticks == 0) ≡ false → branch ≡ next_kernel (preempts k) continued
  unfolding branch timer_branch
  branch-left e = ground arith

  branch-Ticked : (k' : Kernel) × (branch ≡ done k') × Ticked k k'
  branch-Ticked = elim (Bool-cases ((k.task k.cur).ticks == 0)) [
    | inl e ↦
        let (k', f, tk) = Ticked-switch (record stepped { ticks = uint32_max }) run (inl e) in
        (k', branch-expired e ∙ f, tk)
    | inr e ↦ elim (Bool-cases (preempts k)) [
      | inl p ↦
          let (k', f, tk) = Ticked-switch continued run (inr p) in
          (k', branch-left e ∙ ap (λ b. next_kernel b continued) p ∙ f, tk)
      | inr p ↦ (
        ticked continued,
        branch-left e ∙ ap (λ b. next_kernel b continued) p,
        Ticked-stay e p continued run refl refl,
      )
    ]
  ]

  -- With interrupts off and the invariant of the queues, a timer interrupt of a running thread
  -- whose stack is intact fails no ASSERT and keeps the invariant. If the slice is not used up and
  -- no thread of a higher queue waits, the thread goes on with one tick less; else the front of
  -- the first filled queue runs next.
  pub timer-Ticked :
      (k.task k.cur).stack_magic ≡ 0x20240825
      → (k' : Kernel) × (intr_timer_handler k ≡ done k') × Ticked k k'
  unfolding intr_timer_handler branch
  timer-Ticked magic =
      let (k', e, tk) = branch-Ticked in
      (k', assert-true ((k.task k.cur).stack_magic == 0x20240825) _ (ground arith) ∙ e, tk)
