-- ===== src/Pipe/Write.antt =====
-- What pipe_write of kernel/device/pipe.c moves.
use jat_os.Prelude.{
  ℕ, suc, ◌+◌, ◌-◌, ◌≡◌, refl, sym, ap, ◌∙◌, true, false, List, [], ◌∷◌, ◌++◌, length, take,
  take-nil, take-all, take-take, append-nil, append-snoc, length-append, length-take, ◌||◌, leb,
  ltb, ◌==◌, if◌then◌else◌, Bool-cases, inl, inr, Outcome, done, >>=-done, arith,
}
use jat_os.Kernel.{Kernel}
use jat_os.Sync.{null}
use jat_os.IoQueue.{Ioqueue, Progress, ioq_length, ioq_full, putchar_round}
use jat_os.IoQueue.Ring.{contents, full_iff, length_bound}
use jat_os.IoQueue.Inv.{IoInv}
use jat_os.IoQueue.Put.{Stalled, putchar_round-Put}
use jat_os.Pipe.{Moved, cons_char, read_after, write_loop, pipe_write}
use jat_os.Pipe.Read.{Ready, Ready-Stored, read_after-returned, if-true, if-false, length-contents}

-- As many of the characters as there is room for stand behind those of the queue; the call has
-- returned only if that is all of them.
pub record Written (q : Ioqueue) (cs : List ℕ) (m : Moved) : Type 0 where
  pub finished : m.finished ≡ leb (length cs + ioq_length q) 63
  pub chars : m.chars ≡ take (63 - ioq_length q) cs
  pub stored : contents m.queue ≡ contents q ++ take (63 - ioq_length q) cs
  pub inv : IoInv m.queue m.kernel

Written-nil :
    (q : Ioqueue) (k : Kernel)
    → IoInv q k
    → Written q [] (record { chars = []; finished = true; queue = q; kernel = k })
Written-nil q k inv = record {
  finished = ground (arith, length_bound q inv.ring);
  chars = sym (take-nil (63 - ioq_length q));
  stored = rw (take-nil {A = ℕ} (63 - ioq_length q)) (sym (append-nil (contents q)));
  inv = inv;
}

read_after-Stalled :
    (rest : Ioqueue → Kernel → Outcome Moved) (q : Ioqueue) (k : Kernel)
    (r : Progress × Ioqueue × Kernel)
    → Stalled q k r
    → read_after rest r ≡ done (record { chars = []; finished = false; queue = r.1; kernel = r.2 })
unfolding read_after
read_after-Stalled rest q k (p, q', k') st =
    elim (Bool-cases ((q.lock_producer.holder == null) || (q.lock_producer.holder == k.cur))) [
      | inl e ↦ let (a, _) = if-true _ _ _ e st.place in rw a refl
      | inr e ↦ let (a, _) = if-false _ _ _ e st.place in rw a refl
    ]

write_loop-Written :
    (cs : List ℕ) (q : Ioqueue) (k : Kernel)
    → Ready q k
    → (m : Moved) × (write_loop cs q k ≡ done m) × Written q cs m
unfolding write_loop
write_loop-Written [] q k g = (_, refl, Written-nil q k g.inv)
write_loop-Written (c ∷ cs) q k g =
    let (r, e, out) = putchar_round-Put q k g.inv g.caller g.task_at c g.producer_depth in
    elim (Bool-cases (ioq_full q)) [
      | inl full ↦
          let st = if-true _ _ (ioq_full q) full out in
          let len : ioq_length q ≡ 63 = ground (arith, full_iff q g.inv.ring) in
          let none : 63 - ioq_length q ≡ 0 = omega (arith, len) in
          (
            record { chars = []; finished = false; queue = r.1; kernel = r.2 },
            >>=-done (putchar_round q c k) (read_after (write_loop cs)) r e
                ∙ read_after-Stalled (write_loop cs) q k r st,
            record {
              finished = ground (arith, len);
              chars = rw none refl;
              stored = rw none (st.same_contents ∙ sym (append-nil (contents q)));
              inv = st.inv;
            },
          )
      | inr room ↦
          let t = if-false _ _ (ioq_full q) room out in
          let len : ioq_length r.1 ≡ suc (ioq_length q) = omega (
            arith,
            ap length t.stored,
            length-append (contents q) (c ∷ []),
            length-contents q,
            length-contents r.1,
          ) in
          let left : 63 - ioq_length q ≡ suc (63 - ioq_length r.1) =
            ground (arith, len, full_iff q g.inv.ring, length_bound q g.inv.ring) in
          let (m, f, w) = write_loop-Written cs r.1 r.2 (Ready-Stored q c k r g t) in
          (
            cons_char c m,
            >>=-done (putchar_round q c k) (read_after (write_loop cs)) r e
                ∙ read_after-returned (write_loop cs) c r m t.ends f,
            record {
              finished = w.finished ∙ ground (arith, len);
              chars = rw (left, w.chars) refl;
              stored = rw left (
                  w.stored
                  ∙ ap (λ x. x ++ take (63 - ioq_length r.1) cs) t.stored
                  ∙ append-snoc (contents q) c _);
              inv = w.inv;
            },
          )
    ]

take-size :
    (buf : List ℕ) (len size : ℕ)
    → size ≡ (if ltb (length buf) (64 - len) then length buf else 64 - len)
    → take (63 - len) (take size buf) ≡ take (63 - len) buf
take-size buf len size e = elim (Bool-cases (ltb (length buf) (64 - len))) [
  | inl short ↦
      let all : size ≡ length buf = ground arith in
      ap (take (63 - len)) (ap (λ n. take n buf) all ∙ take-all buf)
  | inr long ↦ take-take (63 - len) size buf (ground arith)
]

-- Under the same conditions as a read, a write to a pipe fails no ASSERT up to the first switch to
-- another thread. It stores the characters behind those of the pipe as far as the pipe holds no
-- more than 63, although it counts with room for 64: if that is all of them, it returns, and else
-- it is cut by a wait, even where 64 would be enough. The invariant is kept.
pub pipe_write-Written :
    (buf : List ℕ) (q : Ioqueue) (k : Kernel)
    → Ready q k
    → (m : Moved) × (pipe_write buf q k ≡ done m) × Written q buf m
unfolding pipe_write
pipe_write-Written buf q k g =
    let size = if ltb (length buf) (64 - ioq_length q) then length buf else 64 - ioq_length q in
    let (m, e, w) = write_loop-Written (take size buf) q k g in
    let same = take-size buf (ioq_length q) size refl in
    let n : length (take size buf) ≡ size = length-take size buf (ground arith) in
    (
      m,
      e,
      record {
        finished = w.finished ∙ ground (arith, n, length_bound q g.inv.ring);
        chars = w.chars ∙ same;
        stored = w.stored ∙ ap (λ x. contents q ++ x) same;
        inv = w.inv;
      },
    )
