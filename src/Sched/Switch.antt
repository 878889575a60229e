-- ===== src/Sched/Switch.antt =====
-- `schedule` of kernel/thread/thread.c as a whole.
use jat_os.Prelude.{
  ℕ, ◌≤◌, ◌≡◌, ap, ◌∙◌, Bool, true, false, not, ◌==◌, if◌then◌else◌, List, ◌∷◌, refl, done,
  >>=-done, assert-true, arith,
}
use jat_os.Kernel.{TaskStatus, Task, Kernel, is_ready, is_died, rests, set_task}
use jat_os.Kernel.Queue.{count}
use jat_os.Sched.{thread_unblock_idle, idle_queues, pick, park, switch, schedule}
use jat_os.Sched.Inv.{Inv}
use jat_os.Sched.Pick.{
  Front, in_first, in_second, in_third, Picked, pick-Picked, refill, refill-Inv,
}
use jat_os.Sched.Park.{Without, Parked, park-Parked}

-- What `schedule` leaves behind. The next thread comes from the front of the first filled queue, and
-- goes on with the flag that it saved.
pub record Scheduled (k : Kernel) (resumes : Bool) (k' : Kernel) : Type 0 where
  pub inv : Inv k'
  pub runs : (k'.task k'.cur).status ≡ TaskStatus.running
  pub chosen : Front (refill k) k'.cur
  pub flag : k'.intr ≡ (if k.cur == k'.cur then resumes else (k.task k'.cur).resumes_with)
  pub sleepers :
      (u : ℕ)
      → rests (k.task u).status ≡ true
      → (k.idle_thread == u) ≡ false
      → (k'.task u).status ≡ (k.task u).status
  pub same_sema :
      is_died (k.task k.cur).status ≡ false → (k.idle_thread == k.cur) ≡ false → k'.sema ≡ k.sema
  pub same_idle : k'.idle_thread ≡ k.idle_thread
  pub values : (s : ℕ) → (k'.sema s).value ≡ (k.sema s).value
  pub waiters : (s u : ℕ) → count u (k'.sema s).waiters ≤ count u (k.sema s).waiters

-- What a switch keeps: who rests but for the idle thread, the idle thread itself, and the
-- semaphores, where waiters may only go away.
pub record Framed (k k' : Kernel) : Type 0 where
  pub sleepers :
      (u : ℕ)
      → rests (k.task u).status ≡ true
      → (k.idle_thread == u) ≡ false
      → (k'.task u).status ≡ (k.task u).status
  pub same_idle : k'.idle_thread ≡ k.idle_thread
  pub values : (s : ℕ) → (k'.sema s).value ≡ (k.sema s).value
  pub waiters : (s u : ℕ) → count u (k'.sema s).waiters ≤ count u (k.sema s).waiters

pub Scheduled-Framed : (k k' : Kernel) (resumes : Bool) → Scheduled k resumes k' → Framed k k'
Scheduled-Framed k k' resumes sch = record {
  sleepers = sch.sleepers;
  same_idle = sch.same_idle;
  values = sch.values;
  waiters = sch.waiters;
}

abbrev pub saved : Bool → Kernel → Kernel
saved resumes k = set_task k k.cur (record (k.task k.cur) { resumes_with = resumes })

Front-same :
    (k k' : Kernel) (t : ℕ)
    → k'.ready_list ≡ k.ready_list
    → k'.second_list ≡ k.second_list
    → k'.third_list ≡ k.third_list
    → Front k t
    → Front k' t
Front-same k k' t a b c (in_first ts e) = in_first ts (a ∙ e)
Front-same k k' t a b c (in_second ts e f) = in_second ts (a ∙ e) (b ∙ f)
Front-same k k' t a b c (in_third ts e f g) = in_third ts (a ∙ e) (b ∙ f) (c ∙ g)

module _ (resumes : Bool) (k : Kernel) where
  Front-saved : (t : ℕ) → Front (refill (saved resumes k)) t → Front (refill k) t
  unfolding refill
  Front-saved t f =
      Front-same (refill (saved resumes k)) (refill k) t (ground arith) (ground arith)
        (ground arith) f

  Inv-saved : Inv k → Inv (saved resumes k)
  Inv-saved inv = record {
    counted = λ t. ground (arith, inv.counted t, inv.counted k.cur);
    alone = λ t. ground (arith, inv.alone t, inv.alone k.cur);
  }

  refill_sema : (refill (saved resumes k)).sema ≡ k.sema
  unfolding refill
  refill_sema = ground arith

  refill_idle : (refill (saved resumes k)).idle_thread ≡ k.idle_thread
  unfolding refill
  refill_idle = ground arith

  refill_status :
      (u : ℕ)
      → (k.idle_thread == u) ≡ false
      → ((refill (saved resumes k)).task u).status ≡ (k.task u).status
  unfolding refill
  refill_status u ne = ground arith

  refill_frame :
      (t : ℕ)
      → ((refill (saved resumes k)).cur ≡ k.cur)
        × (((refill (saved resumes k)).task t).resumes_with
            ≡ (if k.cur == t then resumes else (k.task t).resumes_with))
  unfolding refill
  refill_frame t = ground arith

module _ (k : Kernel) (inv : Inv k) (p : ℕ × Kernel) (pk : Picked k p) where
  Picked-ready : is_ready (k.task p.0).status ≡ true
  Picked-ready = ground (arith, pk.one_less p.0, inv.counted p.0)

  Picked-Without : (t : ℕ) → k.cur ≡ t → Without p.1 p.0 t
  Picked-Without t e = record {
    counted = λ u. rw pk.same_task (ground (arith, pk.one_less u, inv.counted u));
    alone = λ u h. inv.alone u (rw pk.same_task at h) ∙ e;
  }

switch-Inv : (k k' : Kernel) (next t : ℕ) → Parked k k' next t → Inv (switch k' next)
switch-Inv k k' next t pd = record {
  counted = λ u. ground (arith, pd.counted u, pd.counted next);
  alone = λ u. ground (arith, pd.nobody u);
}

switch_sleepers :
    (resumes : Bool) (k : Kernel) (p : ℕ × Kernel) (k2 : Kernel)
    → Picked (refill (saved resumes k)) p
    → Parked p.1 k2 p.0 k.cur
    → is_ready ((refill (saved resumes k)).task p.0).status ≡ true
    → (u : ℕ) → rests (k.task u).status ≡ true
    → (k.idle_thread == u) ≡ false
    → ((switch k2 p.0).task u).status ≡ (k.task u).status
switch_sleepers resumes k p k2 pk pd was_ready u h ne =
    let first = refill_status resumes k u ne in
    let st : (p.1.task u).status ≡ (k.task u).status =
      ap (λ (f : ℕ → Task). (f u).status) pk.same_task ∙ first in
    let st2 : (k2.task u).status ≡ (k.task u).status = pd.sleepers u (ap rests st ∙ h) ∙ st in
    ground (arith, st2, was_ready, first)

same_semas :
    (resumes : Bool) (k : Kernel) (p : ℕ × Kernel) (k2 : Kernel)
    → Picked (refill (saved resumes k)) p
    → Parked p.1 k2 p.0 k.cur
    → (k.idle_thread == k.cur) ≡ false
    → is_died (k.task k.cur).status ≡ false
    → k2.sema ≡ k.sema
same_semas resumes k p k2 pk pd ne d =
    let st : (p.1.task k.cur).status ≡ (k.task k.cur).status =
      ap (λ (f : ℕ → Task). (f k.cur).status) pk.same_task ∙ refill_status resumes k k.cur ne in
    pd.same_sema (ap is_died st ∙ d) ∙ pk.same_sema ∙ refill_sema resumes k

schedule-steps :
    (resumes : Bool) (k r : Kernel) (p : ℕ × Kernel) (k2 : Kernel)
    → k.intr ≡ false
    → (if idle_queues k
        then thread_unblock_idle (saved resumes k) k.idle_thread
        else done (saved resumes k))
      ≡ done r
    → pick r.ready_list r.second_list r.third_list r ≡ done p
    → park p.1 k.cur ≡ done k2
    → schedule resumes k ≡ done (switch k2 p.0)
unfolding schedule
schedule-steps resumes k r p k2 off e1 e2 e3 =
    assert-true (not k.intr) _ (ap not off)
    ∙ >>=-done _ _ r e1
    ∙ >>=-done _ _ p e2
    ∙ >>=-done _ _ k2 e3

park-ready : (k : Kernel) (t : ℕ) → (k.task t).status ≡ TaskStatus.ready → park k t ≡ done k
unfolding park
park-ready k t e = rw e refl

-- A ready thread with a filled first queue makes way for its front, and nothing else changes.
pub schedule-rotates :
    (resumes : Bool) (k : Kernel) (t : ℕ) (ts : List ℕ)
    → k.intr ≡ false
    → k.ready_list ≡ t ∷ ts
    → (k.task k.cur).status ≡ TaskStatus.ready
    → schedule resumes k ≡ done (switch (record (saved resumes k) { ready_list = ts }) t)
schedule-rotates resumes k t ts off filled ready =
    schedule-steps resumes k (saved resumes k) (t, record (saved resumes k) { ready_list = ts })
      (record (saved resumes k) { ready_list = ts }) off (rw filled refl)
      (unfold pick in rw filled refl) (park-ready _ k.cur (ground arith))

-- With interrupts off and the invariant, `schedule` ends: no ASSERT fails, a thread is always found,
-- the invariant holds again, the current thread is running, it stood at the front of the first filled
-- queue (the idle thread's, if none was), and the interrupt flag is the one that it had saved.
pub schedule-Scheduled :
    (resumes : Bool) (k : Kernel)
    → Inv k
    → k.intr ≡ false
    → (k' : Kernel) × (schedule resumes k ≡ done k') × Scheduled k resumes k'
unfolding schedule
schedule-Scheduled resumes k inv off =
    let s = saved resumes k in
    let (e1, inv1, filled) = refill-Inv s (Inv-saved resumes k inv) in
    let (p, e2, pk) = pick-Picked (refill s) filled in
    let frame = refill_frame resumes k in
    let w : Without p.1 p.0 k.cur = Picked-Without (refill s) inv1 p pk k.cur (frame 0).0 in
    let (k2, e3, pd) = park-Parked p.1 p.0 k.cur w in
    (
      switch k2 p.0,
      schedule-steps resumes k (refill s) p k2 off e1 e2 e3,
      record {
        inv = switch-Inv p.1 k2 p.0 k.cur pd;
        runs = ground arith;
        chosen = Front-saved resumes k p.0 pk.front;
        flag =
            pd.same_flag ∙ ap (λ (f : ℕ → Task). (f p.0).resumes_with) pk.same_task ∙ (frame p.0).1;
        sleepers = switch_sleepers resumes k p k2 pk pd (Picked-ready (refill s) inv1 p pk);
        same_sema = λ d ne. ground (arith, same_semas resumes k p k2 pk pd ne d);
        same_idle = ground (arith, pd.same_idle, pk.same_idle, refill_idle resumes k);
        values = λ u. ground (arith, pd.values u, pk.same_sema, refill_sema resumes k);
        waiters = λ u v. ground (arith, pd.waiters u v, pk.same_sema, refill_sema resumes k);
      },
    )
