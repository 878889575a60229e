-- ===== src/Pipe/Read.antt =====
-- What pipe_read of kernel/device/pipe.c moves, and what a call of a pipe needs.
use jat_os.Prelude.{
  ℕ, zero, suc, ◌+◌, ◌^◌, ◌<◌, ◌≤◌, ◌≡◌, refl, ap, ◌∙◌, Bool, true, false, length, take, drop, ltb,
  ◌==◌, if◌then◌else◌, Outcome, done, >>=-done, arith,
}
use jat_os.Kernel.{Kernel, sleeps}
use jat_os.Sync.{null}
use jat_os.Sync.Inv.{Caller}
use jat_os.IoQueue.{Ioqueue, Progress, returned, ioq_length, ioq_empty, getchar_round}
use jat_os.IoQueue.Ring.{contents, length-window, empty_iff}
use jat_os.IoQueue.Wake.{Awoken}
use jat_os.IoQueue.Inv.{IoInv}
use jat_os.IoQueue.Move.{Took, Stored}
use jat_os.IoQueue.Get.{getchar_round-Got}
use jat_os.Pipe.{Moved, cons_char, read_after, read_loop, pipe_read}

-- Everything that a call of a pipe needs of its caller.
pub record Ready (q : Ioqueue) (k : Kernel) : Type 0 where
  pub inv : IoInv q k
  pub caller : Caller k
  pub task_at : (k.cur == null) ≡ false
  pub consumer_depth : q.lock_consumer.holder_repeat_nr + 1 < 2 ^ 32
  pub producer_depth : q.lock_producer.holder_repeat_nr + 1 < 2 ^ 32

pub length-contents : (q : Ioqueue) → length (contents q) ≡ ioq_length q
length-contents q = length-window q.buf q.tail (ioq_length q)

-- `n` characters are gone from the front of the queue to the reader.
pub record Read (q : Ioqueue) (n : ℕ) (m : Moved) : Type 0 where
  pub finished : m.finished ≡ true
  pub chars : m.chars ≡ take n (contents q)
  pub left : contents m.queue ≡ drop n (contents q)
  pub ready : Ready m.queue m.kernel

Caller-Awoken :
    (k : Kernel) (t : ℕ) (k' : Kernel)
    → Caller k
    → ((t == null) ≡ false → sleeps (k.task t).status ≡ true)
    → (k.cur == null) ≡ false
    → Awoken k t k'
    → Caller k'
Caller-Awoken k t k' c asleep at aw =
    let other : (t == k.cur) ≡ false = ground (arith, asleep, c.run, at) in
    let (same, kept) = aw.kept k.cur other in
    record {
      run = ground (arith, same, aw.same_cur, c.run);
      not_idle = ground (arith, kept.same_idle, aw.same_cur, c.not_idle);
    }

Ready-Took :
    (q : Ioqueue) (k : Kernel) (r : Progress × Ioqueue × Kernel)
    → Ready q k
    → Took q k r
    → Ready r.1 r.2
Ready-Took q k r g t = record {
  inv = t.inv;
  caller =
      Caller-Awoken k q.producer r.2 g.caller (λ f. (g.inv.producer f).asleep) g.task_at t.woken;
  task_at = ground (arith, t.woken.same_cur, g.task_at);
  consumer_depth = ground (arith, t.same_locks, g.consumer_depth);
  producer_depth = ground (arith, t.same_locks, g.producer_depth);
}

pub Ready-Stored :
    (q : Ioqueue) (c : ℕ) (k : Kernel) (r : Progress × Ioqueue × Kernel)
    → Ready q k
    → Stored q c k r
    → Ready r.1 r.2
Ready-Stored q c k r g t = record {
  inv = t.inv;
  caller =
      Caller-Awoken k q.consumer r.2 g.caller (λ f. (g.inv.consumer f).asleep) g.task_at t.woken;
  task_at = ground (arith, t.woken.same_cur, g.task_at);
  consumer_depth = ground (arith, t.same_locks, g.consumer_depth);
  producer_depth = ground (arith, t.same_locks, g.producer_depth);
}

pub read_after-returned :
    (rest : Ioqueue → Kernel → Outcome Moved) (c : ℕ) (r : Progress × Ioqueue × Kernel) (m : Moved)
    → r.0 ≡ returned c
    → rest r.1 r.2 ≡ done m
    → read_after rest r ≡ done (cons_char c m)
unfolding read_after
read_after-returned rest c (p, q, k) m e f = rw (e, f) refl

pub if-false : (A B : Type 0) (b : Bool) → b ≡ false → (if b then A else B) → B
if-false A B true e x = absurd (ground arith)
if-false A B false e x = x

pub if-true : (A B : Type 0) (b : Bool) → b ≡ true → (if b then A else B) → A
if-true A B true e x = x
if-true A B false e x = absurd (ground arith)

read_loop-Read :
    (n : ℕ) (q : Ioqueue) (k : Kernel)
    → Ready q k
    → n ≤ ioq_length q
    → (m : Moved) × (read_loop n q k ≡ done m) × Read q n m
unfolding read_loop
read_loop-Read zero q k g le =
    (_, refl, record { finished = refl; chars = refl; left = refl; ready = g })
read_loop-Read (suc n) q k g le =
    let some_left : ioq_empty q ≡ false = ground (arith, empty_iff q g.inv.ring) in
    let (r, e, out) = getchar_round-Got q k g.inv g.caller g.task_at g.consumer_depth in
    let t = if-false _ _ (ioq_empty q) some_left out in
    let (c, got, moved) = t.taken in
    let le' : n ≤ ioq_length r.1 =
      omega (arith, ap length moved, length-contents q, length-contents r.1) in
    let (m, f, rd) = read_loop-Read n r.1 r.2 (Ready-Took q k r g t) le' in
    (
      cons_char c m,
      >>=-done (getchar_round q k) (read_after (read_loop n)) r e
          ∙ read_after-returned (read_loop n) c r m got f,
      record {
        finished = rd.finished;
        chars = rw (moved, rd.chars) refl;
        left = rw (moved, rd.left) refl;
        ready = rd.ready;
      },
    )

-- Under the invariant of the queue, its locks and the kernel, a read of a pipe by a running thread
-- that is not the idle one nor at NULL, with the locks nested less than 2 ^ 32 - 1 deep, fails no
-- ASSERT and never waits: it returns as many characters as asked for, or all that there are,
-- oldest first, leaves the rest, and the same holds of the caller again.
pub pipe_read-Read :
    (count : ℕ) (q : Ioqueue) (k : Kernel)
    → Ready q k
    → (m : Moved) × (pipe_read count q k ≡ done m)
      × Read q (if ltb count (ioq_length q) then count else ioq_length q) m
unfolding pipe_read
pipe_read-Read count q k g = read_loop-Read _ q k g (ground arith)
