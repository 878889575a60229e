-- ===== src/Pipe/Tests.antt =====
-- The theorems on pipes at a small state.
use jat_os.Prelude.{◌≡◌, refl, [], ◌∷◌, ltb, if◌then◌else◌, done, arith}
use jat_os.Sched.Demo.{demo}
use jat_os.IoQueue.{ioq_length}
use jat_os.IoQueue.Demo.{letters, waited-IoInv, demo-Caller}
use jat_os.Pipe.{Moved, pipe_read, pipe_write}
use jat_os.Pipe.Read.{Ready, Read, pipe_read-Read}
use jat_os.Pipe.Write.{Written, pipe_write-Written}

demo-Ready : Ready (letters 5 5) demo
demo-Ready = record {
  inv = waited-IoInv;
  caller = demo-Caller;
  task_at = refl;
  consumer_depth = omega arith;
  producer_depth = omega arith;
}

pipe_read_example :
    (m : Moved) × (pipe_read 9 (letters 5 5) demo ≡ done m)
    × Read
        (letters 5 5)
        (if ltb 9 (ioq_length (letters 5 5)) then 9 else ioq_length (letters 5 5))
        m
pipe_read_example = pipe_read-Read 9 (letters 5 5) demo demo-Ready

pipe_write_example :
    (m : Moved) × (pipe_write (67 ∷ 68 ∷ []) (letters 5 5) demo ≡ done m)
    × Written (letters 5 5) (67 ∷ 68 ∷ []) m
pipe_write_example = pipe_write-Written (67 ∷ 68 ∷ []) (letters 5 5) demo demo-Ready
