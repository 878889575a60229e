-- ===== src/Sync/Protocol.antt =====
-- Threads that use a lock, in any order: kernel/thread/sync.c, thread_yield, and the timer interrupt.
use jat_os.Prelude.{
  ℕ, ◌+◌, ◌^◌, ◌<◌, ◌≡◌, refl, sym, ap, subst, ◌∙◌, Bool, true, false, ◌==◌, ltb, if◌then◌else◌,
  Bool-cases, List-cases, inl, inr, done, done-injective, arith,
}
use jat_os.Kernel.{TaskStatus, Semaphore, Kernel}
use jat_os.Kernel.Queue.{count}
use jat_os.Sched.{thread_yield, intr_timer_handler}
use jat_os.Sched.Inv.{Inv}
use jat_os.Sched.Switch.{Framed, Scheduled-Framed}
use jat_os.Sched.Timer.{timer-Ticked}
use jat_os.Sched.Calls.{yielding, thread_yield-Scheduled}
use jat_os.Sync.{Lock, null, sema_down_round, sema_up, lock_acquire_round, lock_release}
use jat_os.Sync.Down.{Down, sema_down_round-Down}
use jat_os.Sync.Inv.{Waits, SyncInv, Caller, Framed-Waits}
use jat_os.Sync.Up.{Up, sema_up-Up}
use jat_os.Sync.Acquire.{
  LockInv, LockInv-value, SyncInv-intr, Acquired, lock_acquire_round-Acquired,
}
use jat_os.Sync.Release.{Released, lock_release-Released, lock_release-panic}

-- The interrupt gate turns interrupts off before the handler. When the handler comes back on the
-- same thread, `iret` turns them on again; another thread goes on with the flag that it saved.
abbrev pub iret : Kernel → Kernel → Kernel
iret k k' = if k'.cur == k.cur then record k' { intr = true } else k'

abbrev State : Type 0
State = Lock × Kernel

-- One step of the current thread with the lock, with a semaphore that is not the lock's, or with the
-- processor; or a timer interrupt, which needs interrupts on.
pub data Step : State → State → Type 0 where
  acquires :
      {l l' : Lock} {k k' : Kernel} (old_status got : Bool)
      → Caller k
      → (k.cur == null) ≡ false
      → l.holder_repeat_nr + 1 < 2 ^ 32
      → lock_acquire_round old_status l k ≡ done (got, l', k')
      → Step (l, k) (l', k')
  releases :
      {l l' : Lock} {k k' : Kernel}
      → (k.cur == null) ≡ false
      → lock_release l k ≡ done (l', k')
      → Step (l, k) (l', k')
  downs :
      {l : Lock} {k k' : Kernel} (old_status got : Bool) (s : ℕ)
      → (s == l.semaphore) ≡ false
      → Caller k
      → sema_down_round old_status s k ≡ done (got, k')
      → Step (l, k) (l, k')
  ups :
      {l : Lock} {k k' : Kernel} (s : ℕ)
      → (s == l.semaphore) ≡ false
      → sema_up s k ≡ done k'
      → Step (l, k) (l, k')
  yields : {l : Lock} {k k' : Kernel} → thread_yield k ≡ done k' → Step (l, k) (l, k')
  ticks :
      {l : Lock} {k k' : Kernel}
      → k.intr ≡ true
      → (k.task k.cur).stack_magic ≡ 0x20240825
      → intr_timer_handler (record k { intr = false }) ≡ done k'
      → Step (l, k) (l, iret k k')

pub data Steps : State → State → Type 0 where
  stop : {s : State} → Steps s s
  step : {s t u : State} → Step s t → Steps t u → Steps s u

-- The invariants of the queues, the semaphores and the lock, with a thread on the processor.
pub record Good (s : State) : Type 0 where
  pub inv : SyncInv s.1
  pub lock_inv : LockInv s.0 s.1
  pub runs : (s.1.task s.1.cur).status ≡ TaskStatus.running

Acquired-Good :
    (old_status : Bool) (l : Lock) (k : Kernel) (r : Bool × Lock × Kernel)
    → Good (l, k)
    → Acquired old_status l k r
    → Good (r.1, r.2)
Acquired-Good old_status l k r g a = record {
  inv = a.inv;
  lock_inv = a.lock_inv;
  runs = elim (Bool-cases r.0) [
    | inl e ↦ ground (arith, a.holds e, g.runs)
    | inr e ↦ (a.waits e).1.runs
  ];
}

Up-runs :
    (k k' : Kernel) (s : ℕ)
    → SyncInv k
    → Up k s k'
    → (k.task k.cur).status ≡ TaskStatus.running
    → (k'.task k'.cur).status ≡ TaskStatus.running
Up-runs k k' s inv up run = elim (List-cases (k.sema s).waiters) [
  | inl e ↦ ground (arith, up.nobody e, up.same_cur)
  | inr (t, rest, e) ↦
      unfold count in
      ground (
        arith,
        up.same_cur,
        (up.woken t rest e).3 k.cur,
        inv.waits.asleep s k.cur,
        ap (count k.cur) e,
      )
]

Released-Good : (l : Lock) (k : Kernel) (r : Lock × Kernel) → Good (l, k) → Released l k r → Good r
Released-Good l k r g rel = record {
  inv = rel.inv;
  lock_inv = rel.lock_inv;
  runs = elim (Bool-cases (ltb 1 l.holder_repeat_nr)) [
    | inl e ↦ ground (arith, rel.nested e, g.runs)
    | inr e ↦ Up-runs k r.1 l.semaphore g.inv (rel.last e).1 g.runs
  ];
}

Down-Good :
    (old_status : Bool) (l : Lock) (k : Kernel) (s : ℕ) (r : Bool × Kernel)
    → (s == l.semaphore) ≡ false
    → Good (l, k)
    → Down k s old_status r
    → Good (l, r.1)
Down-Good old_status l k s r ne g d = elim (Bool-cases r.0) [
  | inl e ↦
      let t = d.taken e in
      record {
        inv = d.inv;
        lock_inv = LockInv-value l k r.1 (ground (arith, t.others l.semaphore)) g.lock_inv;
        runs = ground (arith, t.same_task, t.same_cur, g.runs);
      }
  | inr e ↦
      let a = d.asleep e in
      record {
        inv = d.inv;
        lock_inv = LockInv-value l k r.1 (a.values l.semaphore) g.lock_inv;
        runs = a.runs;
      }
]

Up-Good :
    (l : Lock) (k : Kernel) (s : ℕ) (k' : Kernel)
    → (s == l.semaphore) ≡ false
    → Good (l, k)
    → Up k s k'
    → Good (l, k')
Up-Good l k s k' ne g up = record {
  inv = up.inv;
  lock_inv = LockInv-value l k k' (up.other_values l.semaphore ne) g.lock_inv;
  runs = Up-runs k k' s g.inv up g.runs;
}

Framed-Good :
    (l : Lock) (k k0 k' : Kernel)
    → Good (l, k)
    → Waits k0
    → k0.sema ≡ k.sema
    → Framed k0 k'
    → Inv k'
    → (k'.task k'.cur).status ≡ TaskStatus.running
    → Good (l, k')
Framed-Good l k k0 k' g w e f inv run = record {
  inv = record { queues = inv; waits = Framed-Waits k0 k' f w };
  lock_inv =
      LockInv-value l k k'
        (f.values l.semaphore ∙ ap (λ (h : ℕ → Semaphore). (h l.semaphore).value) e) g.lock_inv;
  runs = run;
}

Waits-yielding :
    (k : Kernel) (w : Waits k) (i : Inv k) (run : (k.task k.cur).status ≡ TaskStatus.running)
    → Waits (yielding k i run)
Waits-yielding k w i run = record {
  asleep = λ s t h. ground (arith, w.asleep s t, w.asleep s k.cur, run);
  idle_free = w.idle_free;
  once = w.once;
}

-- A release that ends was by the holder.
release-own :
    (l l' : Lock) (k k' : Kernel) → lock_release l k ≡ done (l', k') → (l.holder == k.cur) ≡ true
release-own l l' k k' e = elim (Bool-cases (l.holder == k.cur)) [
  | inl own ↦ own
  | inr other ↦ absurd (let p = lock_release-panic l k other in cc)
]

Good-intr : (l : Lock) (k : Kernel) (flag : Bool) → Good (l, k) → Good (l, record k { intr = flag })
Good-intr l k flag g = record {
  inv = SyncInv-intr k flag g.inv;
  lock_inv = LockInv-value l k (record k { intr = flag }) refl g.lock_inv;
  runs = g.runs;
}

Good-iret : (l : Lock) (k k' : Kernel) → Good (l, k') → Good (l, iret k k')
Good-iret l k k' g = elim (Bool-cases (k'.cur == k.cur)) [
  | inl e ↦ rw e (Good-intr l k' true g)
  | inr e ↦ rw e g
]

-- Every step of a good state leads to a good state.
Step-Good : (s t : State) → Step s t → Good s → Good t
Step-Good (l, k) (l', k') (acquires old_status got c at small e) g =
    let (r, f, a) = lock_acquire_round-Acquired old_status l k g.inv g.lock_inv c at small in
    let same : r ≡ (got, l', k') = done-injective (sym f ∙ e) in
    subst (λ (x : Bool × Lock × Kernel). Good (x.1, x.2)) same (Acquired-Good old_status l k r g a)
Step-Good (l, k) (l', k') (releases at e) g =
    let own = release-own l l' k k' e in
    let (r, f, rel) = lock_release-Released l k g.inv g.lock_inv at own in
    subst Good (done-injective (sym f ∙ e)) (Released-Good l k r g rel)
Step-Good (l, k) (_, k') (downs old_status got s ne c e) g =
    let (r, f, d) = sema_down_round-Down k s old_status g.inv c in
    let same : r ≡ (got, k') = done-injective (sym f ∙ e) in
    subst (λ (x : Bool × Kernel). Good (l, x.1)) same (Down-Good old_status l k s r ne g d)
Step-Good (l, k) (_, k') (ups s ne e) g =
    let (r, f, up) = sema_up-Up k s g.inv in
    subst (λ x. Good (l, x)) (done-injective (sym f ∙ e)) (Up-Good l k s r ne g up)
Step-Good (l, k) (_, k') (yields e) g =
    let (r, f, y) = thread_yield-Scheduled k g.inv.queues g.runs in
    let sch = y.scheduled in
    subst (λ x. Good (l, x)) (done-injective (sym f ∙ e))
      (Framed-Good l k (yielding k g.inv.queues g.runs) r g
        (Waits-yielding k g.inv.waits g.inv.queues g.runs) refl (Scheduled-Framed _ r _ sch) sch.inv
        sch.runs)
Step-Good (l, k) _ (ticks {k' = k'} off magic e) g =
    let h : Kernel = record k { intr = false } in
    let g0 = Good-intr l k false g in
    let (r, f, tick) = timer-Ticked h g0.inv.queues g.runs refl magic in
    let same : r ≡ k' = done-injective (sym f ∙ e) in
    Good-iret l k k' (
      subst (λ x. Good (l, x)) same
        (Framed-Good l h h r g0 g0.inv.waits refl tick.frame tick.inv tick.runs))

-- However the threads take turns from a good state on with the lock, with other semaphores and
-- with the processor, and the timer interrupts them when interrupts are on, the invariants of the queues, the semaphores and the lock hold in every
-- state that is reached, and the thread on the processor is running.
pub Steps-Good : (s t : State) → Steps s t → Good s → Good t
Steps-Good s _ stop g = g
Steps-Good s u (step {t = t} a b) g = Steps-Good t u b (Step-Good s t a g)

-- In a good state, no step of a thread changes a lock that another thread holds.
pub Step-exclusive :
    (s t : State)
    → Step s t
    → Good s
    → (s.0.holder == null) ≡ false
    → (s.0.holder == s.1.cur) ≡ false
    → t.0 ≡ s.0
Step-exclusive (l, k) (l', k') (acquires old_status got c at small e) g held other =
    let (r, f, a) = lock_acquire_round-Acquired old_status l k g.inv g.lock_inv c at small in
    let same : r ≡ (got, l', k') = done-injective (sym f ∙ e) in
    sym (ap (λ (x : Bool × Lock × Kernel). x.1) same) ∙ (a.waits (ground (arith, a.got))).0
Step-exclusive (l, k) (l', k') (releases at e) g held other =
    absurd (ground (arith, release-own l l' k k' e))
Step-exclusive (l, k) _ (downs old_status got s ne c e) g held other = refl
Step-exclusive (l, k) _ (ups s ne e) g held other = refl
Step-exclusive (l, k) _ (yields e) g held other = refl
Step-exclusive (l, k) _ (ticks off magic e) g held other = refl
