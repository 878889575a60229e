-- ===== src/Sched/Inv.antt =====
-- The invariant of the ready queues.
use jat_os.Prelude.{ℕ, ◌+◌, ◌≡◌, if◌then◌else◌}
use jat_os.Kernel.{TaskStatus, Kernel, is_ready}
use jat_os.Kernel.Queue.{count}

-- How often a thread stands in the ready queues.
abbrev pub queued : Kernel → ℕ → ℕ
queued k t = count t k.ready_list + count t k.second_list + count t k.third_list

-- A thread stands in the ready queues once if it is ready, and else not at all; no other thread
-- than the current one is running.
pub record Inv (k : Kernel) : Type 0 where
  pub counted : (t : ℕ) → queued k t ≡ (if is_ready (k.task t).status then 1 else 0)
  pub alone : (t : ℕ) → (k.task t).status ≡ TaskStatus.running → t ≡ k.cur
