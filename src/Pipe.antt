-- ===== src/Pipe.antt =====
-- Pipes: pipe_read and pipe_write of kernel/device/pipe.c, on the queue behind the descriptor.
-- A loop ends with its count, or is cut where `ioq_getchar` or `ioq_putchar` puts the caller to sleep.
pub mod Read
pub mod Write
mod Tests
use jat_os.Prelude.{
  ℕ, zero, suc, ◌+◌, ◌-◌, Bool, true, false, List, [], ◌∷◌, length, take, ltb, if◌then◌else◌,
  Outcome, done, ◌>>=◌,
}
use jat_os.Kernel.{Kernel}
use jat_os.IoQueue.{
  Ioqueue, Progress, returned, at_lock, at_queue, bufsize, ioq_length, getchar_round, putchar_round,
}

-- The characters that were moved, whether the call has returned, and the state.
pub record Moved : Type 0 where
  pub chars : List ℕ
  pub finished : Bool
  pub queue : Ioqueue
  pub kernel : Kernel

abbrev cons_char : ℕ → Moved → Moved
cons_char c m = record m { chars = c ∷ m.chars }

-- Behind one `ioq_getchar`, with the rest of the loop.
pub read_after : (Ioqueue → Kernel → Outcome Moved) → Progress × Ioqueue × Kernel → Outcome Moved
read_after rest (returned c, q, k) = do m ← rest q k; done (cons_char c m)
read_after rest (at_lock, q, k) =
    done (record { chars = []; finished = false; queue = q; kernel = k })
read_after rest (at_queue, q, k) =
    done (record { chars = []; finished = false; queue = q; kernel = k })

-- `while (bytes_read < size)`, over the number of characters that are left
pub read_loop : ℕ → Ioqueue → Kernel → Outcome Moved
unfolding read_after
read_loop zero q k = done (record { chars = []; finished = true; queue = q; kernel = k })
read_loop (suc n) q k = getchar_round q k >>= read_after (read_loop n)

-- The number of bytes that it returns is the length of `chars`.
pub pipe_read : ℕ → Ioqueue → Kernel → Outcome Moved
pipe_read count q k =
    let ioq_len = ioq_length q in
    let size = if ltb count ioq_len then count else ioq_len in read_loop size q k

-- `while (bytes_write < size)`, over the characters that are left
pub write_loop : List ℕ → Ioqueue → Kernel → Outcome Moved
unfolding read_after
write_loop [] q k = done (record { chars = []; finished = true; queue = q; kernel = k })
write_loop (c ∷ cs) q k = putchar_round q c k >>= read_after (write_loop cs)

-- `buf` is the buffer of `count` characters.
pub pipe_write : List ℕ → Ioqueue → Kernel → Outcome Moved
pipe_write buf q k =
    let ioq_left = bufsize - ioq_length q in
    let size = if ltb (length buf) ioq_left then length buf else ioq_left in
    write_loop (take size buf) q k
