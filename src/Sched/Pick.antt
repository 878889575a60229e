-- ===== src/Sched/Pick.antt =====
-- The choice of the next thread in `schedule`.
use jat_os.Prelude.{
  ℕ, ◌+◌, ◌≡◌, refl, ap, inl, inr, true, false, ◌&&◌, List, [], ◌∷◌, ◌==◌, if◌then◌else◌,
  Bool-cases, done, arith,
}
use jat_os.Kernel.{TaskStatus, Kernel, set_status}
use jat_os.Kernel.Queue.{count, member-count}
use jat_os.Sched.{is_empty, idle_queues, thread_unblock_idle, pick}
use jat_os.Sched.Inv.{queued, Inv}

-- The thread at the front of the first queue that is not empty.
pub data Front (k : Kernel) (t : ℕ) : Type 0 where
  in_first : (ts : List ℕ) → k.ready_list ≡ t ∷ ts → Front k t
  in_second : (ts : List ℕ) → k.ready_list ≡ [] → k.second_list ≡ t ∷ ts → Front k t
  in_third :
      (ts : List ℕ) → k.ready_list ≡ [] → k.second_list ≡ [] → k.third_list ≡ t ∷ ts → Front k t

-- The queues behind the choice: the chosen thread is gone from them once.
pub record Picked (k : Kernel) (p : ℕ × Kernel) : Type 0 where
  pub front : Front k p.0
  pub same_task : p.1.task ≡ k.task
  pub same_cur : p.1.cur ≡ k.cur
  pub same_sema : p.1.sema ≡ k.sema
  pub same_idle : p.1.idle_thread ≡ k.idle_thread
  pub one_less : (t : ℕ) → queued k t ≡ queued p.1 t + (if p.0 == t then 1 else 0)

Picked-of :
    (k : Kernel) (a b c : List ℕ)
    → k.ready_list ≡ a
    → k.second_list ≡ b
    → k.third_list ≡ c
    → is_empty a && (is_empty b && is_empty c) ≡ false
    → (p : ℕ × Kernel) × (pick a b c k ≡ done p) × Picked k p
unfolding pick count
Picked-of k (x ∷ a) b c ea eb ec h = (
  (x, record k { ready_list = a }),
  refl,
  record {
    front = in_first a ea;
    same_task = refl;
    same_cur = refl;
    same_sema = refl;
    same_idle = refl;
    one_less = λ t. ground (arith, ap (count t) ea);
  },
)
Picked-of k [] (x ∷ b) c ea eb ec h = (
  (x, record k { second_list = b }),
  refl,
  record {
    front = in_second b ea eb;
    same_task = refl;
    same_cur = refl;
    same_sema = refl;
    same_idle = refl;
    one_less = λ t. ground (arith, ap (count t) eb);
  },
)
Picked-of k [] [] (x ∷ c) ea eb ec h = (
  (x, record k { third_list = c }),
  refl,
  record {
    front = in_third c ea eb ec;
    same_task = refl;
    same_cur = refl;
    same_sema = refl;
    same_idle = refl;
    one_less = λ t. ground (arith, ap (count t) ec);
  },
)
Picked-of k [] [] [] ea eb ec h = absurd (ground arith)

pub pick-Picked :
    (k : Kernel)
    → idle_queues k ≡ false
    → (p : ℕ × Kernel) × (pick k.ready_list k.second_list k.third_list k ≡ done p) × Picked k p
pick-Picked k h = Picked-of k k.ready_list k.second_list k.third_list refl refl refl h

-- The kernel from which the next thread is picked: with no queue filled, the idle thread stands
-- alone in the third queue.
unfoldable pub refill : Kernel → Kernel
refill k =
    if idle_queues k
    then set_status (record k { third_list = k.idle_thread ∷ k.third_list }) k.idle_thread
        TaskStatus.ready
    else k

queued-idle : (k : Kernel) (t : ℕ) → idle_queues k ≡ true → queued k t ≡ 0
queued-idle k t h = go k.ready_list k.second_list k.third_list h
  where
    go :
        (a b c : List ℕ)
        → is_empty a && (is_empty b && is_empty c) ≡ true
        → count t a + count t b + count t c ≡ 0
    go [] [] [] h = unfold count in refl
    go [] [] (x ∷ c) h = absurd (ground arith)
    go [] (x ∷ b) c h = absurd (ground arith)
    go (x ∷ a) b c h = absurd (ground arith)

-- Either way no ASSERT fails, and the invariant is kept.
pub refill-Inv :
    (k : Kernel)
    → Inv k
    → ((if idle_queues k then thread_unblock_idle k k.idle_thread else done k) ≡ done (refill k))
      × Inv (refill k)
      × (idle_queues (refill k) ≡ false)
unfolding refill thread_unblock_idle
refill-Inv k inv = elim (Bool-cases (idle_queues k)) [
  | inr some_queue ↦ rw some_queue (refl, inv, some_queue)
  | inl none_queued ↦
      let none = queued-idle k k.idle_thread none_queued in
      rw none_queued (
        ground (arith, none, inv.counted k.idle_thread, member-count k.idle_thread k.third_list),
        record {
          counted =
              λ t. unfold count in ground (arith, inv.counted t, none, inv.counted k.idle_thread);
          alone = λ t. ground (arith, inv.alone t);
        },
        ground arith,
      )
]
