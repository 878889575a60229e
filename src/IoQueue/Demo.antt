-- ===== src/IoQueue/Demo.antt =====
-- A queue with the characters 65 and 66, at which the thread 5 waits as the consumer, in the kernel
-- of Sched.Demo; and the same queue with the running thread 2 woken.
use jat_os.Prelude.{ℕ, ◌+◌, refl, arith}
use jat_os.Kernel.Queue.{count}
use jat_os.Sched.Demo.{demo, demo-Inv}
use jat_os.Sync.Inv.{SyncInv, Caller}
use jat_os.IoQueue.{Ioqueue}
use jat_os.IoQueue.Inv.{IoInv}

pub demo-SyncInv : SyncInv demo
demo-SyncInv = record {
  queues = demo-Inv;
  waits = record {
    asleep = λ s t h. unfold count in ground arith;
    idle_free = λ s. unfold count in ground arith;
    once = λ s u t. unfold count in ground arith;
  };
}

pub demo-Caller : Caller demo
demo-Caller = record { run = refl; not_idle = refl }

abbrev pub letters : ℕ → ℕ → Ioqueue
letters holder consumer = record {
  lock_consumer = record { holder = holder; semaphore = 62; holder_repeat_nr = 1 };
  lock_producer = record { holder = 0; semaphore = 61; holder_repeat_nr = 0 };
  producer = 0;
  consumer = consumer;
  buf = λ i. 65 + i;
  head = 2;
  tail = 0;
}

pub waited-IoInv : IoInv (letters 5 5) demo
waited-IoInv = record {
  ring = record { head_in = omega arith; tail_in = omega arith };
  sync = demo-SyncInv;
  consumer_lock = record { free = λ e. absurd (ground arith); held = λ e. (omega arith, refl) };
  producer_lock = record { free = λ e. (refl, refl); held = λ e. absurd (ground arith) };
  two_locks = refl;
  consumer = λ f. record {
    asleep = refl;
    holds = refl;
    not_idle = refl;
    unqueued = λ s. unfold count in ground arith;
  };
  producer = λ f. absurd (ground arith);
  apart = λ f. refl;
}

pub woken-IoInv : IoInv (letters 2 0) demo
woken-IoInv = record {
  ring = record { head_in = omega arith; tail_in = omega arith };
  sync = demo-SyncInv;
  consumer_lock = record { free = λ e. absurd (ground arith); held = λ e. (omega arith, refl) };
  producer_lock = record { free = λ e. (refl, refl); held = λ e. absurd (ground arith) };
  two_locks = refl;
  consumer = λ f. absurd (ground arith);
  producer = λ f. absurd (ground arith);
  apart = λ f. absurd (ground arith);
}
